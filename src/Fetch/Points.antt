-- ===== src/Fetch/Points.antt =====
-- server/src/aws/metrics.ts, `fetchChunk`: which points end up in which series.
use skills_dashboard.Common.{
  ℕ, ◌≡◌, refl, sym, ap, ◌∙◌, subst, ◌≢◌, inl, inr, true, Option, none, some, List, [], ◌∷◌, ◌++◌,
  arith, ◌==◌, if◌then◌else◌, Bool-cases, Option-cases, length, get_elem?,
}
use skills_dashboard.Common.{ℤ}
use skills_dashboard.Text.{Text, text_eq}
use skills_dashboard.Text.Laws.{text_eq_refl, text_eq-false, Text-cases}
use skills_dashboard.TextMap.{get, put, get-put_self, get-put_ne}
use skills_dashboard.Window.{Window}
use skills_dashboard.Metrics.{absorb}
use skills_dashboard.Fetch.{MetricSeries, Store, tag, modify, series_for, add_points}
use skills_dashboard.Fetch.Heap.{
  get_elem?-append_left, get_elem?-append_last, get_elem?-append_cases, get_elem?-modify_self,
  get_elem?-modify_ne, get_elem?-modify_cases,
}

module _ {V : Type 0} where
  -- The tag of a series.
  abbrev pub tag_of : MetricSeries V → Text
  tag_of m = tag m.key m.label

  -- The index names every series by its tag, and nothing else: no two series share a tag.
  pub record Indexed (s : Store V) : Type 0 where
    pub found :
        (i : ℕ) (m : MetricSeries V) → get_elem? s.heap i ≡ some m → get (tag_of m) s.index ≡ some i
    pub stands :
        (t : Text) (i : ℕ)
        → get t s.index ≡ some i
        → (m : MetricSeries V) × (get_elem? s.heap i ≡ some m) × (tag_of m ≡ t)

  abbrev pub points_or_empty : Option (MetricSeries V) → List (ℤ × V)
  points_or_empty none = []
  points_or_empty (some m) = m.points

  abbrev pub place_points : List (MetricSeries V) → Option ℕ → List (ℤ × V)
  place_points heap none = []
  place_points heap (some i) = points_or_empty (get_elem? heap i)

  -- The points of the series with a tag.
  abbrev pub points_of : Text → Store V → List (ℤ × V)
  points_of t s = place_points s.heap (get t s.index)

  module _ (key label : Text) (s : Store V) (v : Indexed s)
      (fresh : get (tag key label) s.index ≡ none) where
    abbrev added : MetricSeries V
    added = record { key = key; label = label; points = [] }

    abbrev grown : List (MetricSeries V)
    grown = s.heap ++ added ∷ []

    abbrev index' : List (Text × ℕ)
    index' = put (tag key label) (length s.heap) s.index

    added-found :
        (i : ℕ) (m : MetricSeries V) → get_elem? grown i ≡ some m → get (tag_of m) index' ≡ some i
    added-found i m h = elim (get_elem?-append_cases s.heap added i m h) [
      | inl old ↦
          let known = v.found i m old in
          get-put_ne (tag key label) (tag_of m) (length s.heap) s.index
            (λ same. cc (subst (λ t. get t s.index ≡ none) same fresh))
          ∙ known
      | inr (e, k) ↦
          subst (λ n. get (tag_of n) index' ≡ some i) k
            (get-put_self (tag key label) (length s.heap) s.index ∙ ap some (sym e))
    ]

    added-stands :
        (t : Text) (i : ℕ)
        → get t index' ≡ some i
        → (m : MetricSeries V) × (get_elem? grown i ≡ some m) × (tag_of m ≡ t)
    added-stands t i h = elim (Text-cases (tag key label) t) [
      | inl e ↦
          let here : get t index' ≡ some (length s.heap) =
            subst (λ u. get u index' ≡ some (length s.heap)) e
              (get-put_self (tag key label) (length s.heap) s.index) in
          let place : length s.heap ≡ i = cc in
          (
            added,
            subst (λ j. get_elem? grown j ≡ some added) place (get_elem?-append_last s.heap added),
            e,
          )
      | inr e ↦
          let (m, k, l) =
            v.stands t i (sym (get-put_ne (tag key label) t (length s.heap) s.index e) ∙ h) in
          (m, get_elem?-append_left s.heap (added ∷ []) i m k, l)
    ]

    points-grown :
        (o : Option ℕ) (t : Text) → get t s.index ≡ o → place_points grown o ≡ place_points s.heap o
    points-grown none t h = refl
    points-grown (some i) t h =
        let (m, k, _) = v.stands t i h in
        ap points_or_empty (get_elem?-append_left s.heap (added ∷ []) i m k)
        ∙ ap points_or_empty (sym k)

    added-points : (t : Text) → place_points grown (get t index') ≡ points_of t s
    added-points t = elim (Text-cases (tag key label) t) [
      | inl e ↦
          subst (λ u. place_points grown (get u index') ≡ points_of u s) e
            (ap (place_points grown) (get-put_self (tag key label) (length s.heap) s.index)
              ∙ ap points_or_empty (get_elem?-append_last s.heap added)
              ∙ ap (place_points s.heap) (sym fresh))
      | inr e ↦
          ap (place_points grown) (get-put_ne (tag key label) t (length s.heap) s.index e)
          ∙ points-grown (get t s.index) t refl
    ]

  -- Finding or making a series keeps the points of every tag.
  pub series_for-Indexed :
      (key label : Text) (s : Store V)
      → Indexed s
      → Indexed (series_for key label s).1
        × (get (tag key label) (series_for key label s).1.index ≡ some (series_for key label s).0)
        × ((t : Text) → points_of t (series_for key label s).1 ≡ points_of t s)
  unfolding series_for
  series_for-Indexed key label s v = elim (Option-cases (get (tag key label) s.index)) [
    | inl e ↦
        rw (series_for, e)
          (
            record { found = added-found key label s v e; stands = added-stands key label s v e },
            get-put_self (tag key label) (length s.heap) s.index,
            added-points key label s v e,
          )
    | inr (i, e) ↦ rw (series_for, e) (v, e, λ t. refl)
  ]

  module _ (w : Window) (id : ℕ) (samples : List (ℤ × V)) (s : Store V) (v : Indexed s) where
    abbrev extend : MetricSeries V → MetricSeries V
    extend m = record m { points = absorb w m.points samples }

    pub add_points-Indexed : Indexed (add_points w id samples s)
    unfolding add_points
    add_points-Indexed = record {
      found = λ i m h. elim (get_elem?-modify_cases s.heap id i extend m h) [
        | inl (_, (x, k, e)) ↦ subst (λ n. get (tag_of n) s.index ≡ some i) e (v.found i x k)
        | inr (_, k) ↦ v.found i m k
      ];
      stands = λ t i h.
          let (m, k, e) = v.stands t i h in
          elim (Bool-cases (id == i)) [
            | inl same ↦
                let place : id ≡ i = ground arith in
                (
                  extend m,
                  subst (λ j. get_elem? (modify id extend s.heap) j ≡ some (extend m)) place
                      (get_elem?-modify_self s.heap id extend m
                        (subst (λ j. get_elem? s.heap j ≡ some m) (sym place) k)),
                  e,
                )
            | inr apart ↦
                let away : id ≢ i = ground arith in
                (m, get_elem?-modify_ne s.heap id i extend away ∙ k, e)
          ];
    }

    -- Two places with different tags are different.
    places_apart :
        (u t : Text) (j : ℕ) → u ≢ t → get u s.index ≡ some id → get t s.index ≡ some j → id ≢ j
    places_apart u t j h hu ht same =
        let (m, k, l) = v.stands u id hu in
        let (n, k', l') = v.stands t j ht in
        let at : get_elem? s.heap j ≡ some m = subst (λ i. get_elem? s.heap i ≡ some m) same k in
        let one : m ≡ n = cc in h (sym l ∙ ap tag_of one ∙ l')

    points-apart :
        (u t : Text) (o : Option ℕ)
        → u ≢ t
        → get u s.index ≡ some id
        → get t s.index ≡ o
        → place_points (modify id extend s.heap) o ≡ place_points s.heap o
    points-apart u t none h hu ht = refl
    points-apart u t (some j) h hu ht =
        ap points_or_empty (get_elem?-modify_ne s.heap id j extend (places_apart u t j h hu ht))

    pub add_points-points :
        (u t : Text)
        → get u s.index ≡ some id
        → points_of t (add_points w id samples s)
          ≡ (if text_eq u t then absorb w (points_of t s) samples else points_of t s)
    unfolding add_points
    add_points-points u t h = elim (Text-cases u t) [
      | inl e ↦
          let ht : get t s.index ≡ some id = subst (λ x. get x s.index ≡ some id) e h in
          let hit : text_eq u t ≡ true = subst (λ x. text_eq u x ≡ true) e (text_eq_refl u) in
          let (m, k, _) = v.stands u id h in
          rw (ht, hit, get_elem?-modify_self s.heap id extend m k, k)
      | inr e ↦ rw (text_eq-false u t e) (points-apart u t (get t s.index) e h refl)
    ]
