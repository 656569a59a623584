-- ===== src/Fetch/Names.antt =====
-- server/src/aws/metrics.ts, `fetchChunk`: the keys and labels of the series that have been made.
use skills_dashboard.Common.{suc}
use skills_dashboard.Common.{
  ℕ, zero, suc, ◌≡◌, refl, ap, ◌∙◌, subst, inl, inr, Bool, true, false, ◌||◌, some, List, [], ◌∷◌,
  ◌++◌, map, arith, if◌then◌else◌, Bool-cases, Option-cases, get_elem?, map-append,
}
use skills_dashboard.Common.{ℤ}
use skills_dashboard.Text.{Text, text_eq}
use skills_dashboard.Text.Laws.{text_eq-eq, text_eq_refl}
use skills_dashboard.TextMap.{get}
use skills_dashboard.Window.{Window}
use skills_dashboard.Metrics.{absorb}
use skills_dashboard.Fetch.{MetricSeries, Store, tag, modify, series_for, add_points}
use skills_dashboard.Fetch.Points.{Indexed, tag_of}

-- Whether a tag is the one of some name.
unfoldable pub seen : Text → List (Text × Text) → Bool
seen t [] = false
seen t ((k, l) ∷ names) = text_eq (tag k l) t || seen t names

unfoldable pub visit : List (Text × Text) → Text × Text → List (Text × Text)
unfolding seen
visit names (k, l) = if seen (tag k l) names then names else names ++ (k, l) ∷ []

module _ {V : Type 0} where
  abbrev pub name_of : MetricSeries V → Text × Text
  name_of m = (m.key, m.label)

  modify-names :
      (f : MetricSeries V → MetricSeries V)
      → ((m : MetricSeries V) → name_of (f m) ≡ name_of m)
      → (i : ℕ) (xs : List (MetricSeries V)) → map name_of (modify i f xs) ≡ map name_of xs
  modify-names f h i [] = refl
  modify-names f h zero (x ∷ xs) = ap (λ n. n ∷ map name_of xs) (h x)
  modify-names f h (suc i) (x ∷ xs) = ap (λ l. name_of x ∷ l) (modify-names f h i xs)

  pub add_points-names :
      (w : Window) (id : ℕ) (samples : List (ℤ × V)) (s : Store V)
      → map name_of (add_points w id samples s).heap ≡ map name_of s.heap
  unfolding add_points
  add_points-names w id samples s =
      modify-names (λ m. record m { points = absorb w m.points samples }) (λ m. refl) id s.heap

  seen-heap :
      (t : Text) (xs : List (MetricSeries V)) (i : ℕ) (m : MetricSeries V)
      → get_elem? xs i ≡ some m
      → tag_of m ≡ t
      → seen t (map name_of xs) ≡ true
  unfolding seen
  seen-heap t [] i m h e = cc
  seen-heap t (x ∷ xs) zero m h e =
      let same : x ≡ m = cc in
      let hit : text_eq (tag x.key x.label) t ≡ true =
        subst (λ u. text_eq (tag x.key x.label) u ≡ true) (ap tag_of same ∙ e)
          (text_eq_refl (tag x.key x.label)) in
      rw hit
  seen-heap t (x ∷ xs) (suc i) m h e = let rest = seen-heap t xs i m h e in ground arith

  heap-seen :
      (t : Text) (xs : List (MetricSeries V))
      → seen t (map name_of xs) ≡ true
      → (i : ℕ) × (m : MetricSeries V) × (get_elem? xs i ≡ some m) × (tag_of m ≡ t)
  unfolding seen
  heap-seen t [] h = cc
  heap-seen t (x ∷ xs) h = elim (Bool-cases (text_eq (tag x.key x.label) t)) [
    | inl e ↦ (0, x, refl, text_eq-eq (tag x.key x.label) t e)
    | inr e ↦
        let later : seen t (map name_of xs) ≡ true = ground arith in
        let (i, m, k, l) = heap-seen t xs later in (suc i, m, k, l)
  ]

  -- Finding or making a series adds its name if its tag is new.
  pub series_for-names :
      (key label : Text) (s : Store V)
      → Indexed s
      → map name_of (series_for key label s).1.heap ≡ visit (map name_of s.heap) (key, label)
  unfolding series_for visit
  series_for-names key label s v = elim (Option-cases (get (tag key label) s.index)) [
    | inl e ↦
        let absent : seen (tag key label) (map name_of s.heap) ≡ false =
          elim (Bool-cases (seen (tag key label) (map name_of s.heap))) [
            | inl h ↦
                let (i, m, k, l) = heap-seen (tag key label) s.heap h in
                let known = subst (λ t. get t s.index ≡ some i) l (v.found i m k) in cc
            | inr h ↦ h
          ] in
        rw (series_for, e, absent) (map-append name_of s.heap _)
    | inr (i, e) ↦
        let (m, k, l) = v.stands (tag key label) i e in
        rw (series_for, e, seen-heap (tag key label) s.heap i m k l)
  ]
