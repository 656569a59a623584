-- ===== src/Fetch/Places.antt =====
-- server/src/aws/metrics.ts, `fetchChunk`: the map that `fetch` returns, and the series that a
-- caller finds in it.
use skills_dashboard.Common.{suc}
use skills_dashboard.Common.{
  ℕ, zero, suc, ◌≢◌, ◌+◌, ◌≡◌, refl, sym, ap, ◌∙◌, subst, inl, inr, Option, none, some, List, [],
  ◌∷◌, ◌++◌, append-nil, arith, if◌then◌else◌, Bool-cases, Option-cases, length, get_elem?,
  length-append, append_assoc,
}
use skills_dashboard.Common.{ℤ}
use skills_dashboard.Text.{Text, text_eq}
use skills_dashboard.Text.Laws.{text_eq_refl, text_eq-false, Text-cases}
use skills_dashboard.TextMap.{get, put, get-put_self, get-put_ne}
use skills_dashboard.Window.{Window}
use skills_dashboard.Metrics.{absorb}
use skills_dashboard.Fetch.{MetricSeries, Store, tag, modify, ids_or_empty, series_for, add_points}

module _ {V : Type 0} where
  abbrev found_first : Option (MetricSeries V) → List (MetricSeries V) → List (MetricSeries V)
  found_first none rest = rest
  found_first (some m) rest = m ∷ rest

  -- The series at some places.
  abbrev pub series_in : List (MetricSeries V) → List ℕ → List (MetricSeries V)
  series_in heap [] = []
  series_in heap (i ∷ ids) = found_first (get_elem? heap i) (series_in heap ids)

  -- `out.get(key) ?? []`, as the callers of `fetch` read it.
  unfoldable pub series_of : Text → Store V → List (MetricSeries V)
  unfolding get
  series_of key s = series_in s.heap (ids_or_empty (get key s.out))

  -- The series with a key, and their places.
  abbrev pub keyed : Text → List (MetricSeries V) → List (MetricSeries V)
  keyed key [] = []
  keyed key (m ∷ ms) = let rest = keyed key ms in if text_eq m.key key then m ∷ rest else rest

  abbrev places : Text → ℕ → List (MetricSeries V) → List ℕ
  places key n [] = []
  places key n (m ∷ ms) =
      let rest = places key (suc n) ms in if text_eq m.key key then n ∷ rest else rest

  -- The map that is returned has every series, in the order in which they were made, under its key.
  abbrev pub Placed : Store V → Type 0
  Placed s = (key : Text) → ids_or_empty (get key s.out) ≡ places key 0 s.heap

  places-append :
      (key : Text) (n : ℕ) (xs : List (MetricSeries V)) (m : MetricSeries V)
      → places key n (xs ++ m ∷ [])
        ≡ places key n xs ++ (if text_eq m.key key then (n + length xs) ∷ [] else [])
  places-append key n [] m = elim (Bool-cases (text_eq m.key key)) [
    | inl e ↦ let same : n ≡ n + 0 = omega arith in rw e (ap (λ i. i ∷ []) same)
    | inr e ↦ rw e
  ]
  places-append key n (x ∷ xs) m =
      let rest = places-append key (suc n) xs m in
      let next : suc n + length xs ≡ n + suc (length xs) = omega arith in
      elim (Bool-cases (text_eq x.key key)) [
        | inl e ↦ rw (e, rest, next)
        | inr e ↦ rw (e, rest, next)
      ]

  places-modify :
      (f : MetricSeries V → MetricSeries V)
      → ((m : MetricSeries V) → (f m).key ≡ m.key)
      → (key : Text) (n i : ℕ) (xs : List (MetricSeries V))
      → places key n (modify i f xs) ≡ places key n xs
  places-modify f h key n i [] = refl
  places-modify f h key n zero (x ∷ xs) = rw (h x)
  places-modify f h key n (suc i) (x ∷ xs) = rw (places-modify f h key (suc n) i xs)

  get_elem?-middle :
      (before : List (MetricSeries V)) (m : MetricSeries V) (xs : List (MetricSeries V))
      → get_elem? (before ++ m ∷ xs) (length before) ≡ some m
  get_elem?-middle [] m xs = refl
  get_elem?-middle (x ∷ before) m xs = get_elem?-middle before m xs

  series_in-places :
      (key : Text) (before xs : List (MetricSeries V))
      → series_in (before ++ xs) (places key (length before) xs) ≡ keyed key xs
  series_in-places key before [] = refl
  series_in-places key before (m ∷ xs) =
      let longer : length (before ++ m ∷ []) ≡ suc (length before) =
        omega (arith, length-append before (m ∷ [])) in
      let joined : (before ++ m ∷ []) ++ xs ≡ before ++ (m ∷ xs) =
        append_assoc before (m ∷ []) xs in
      let rest =
        subst (λ l. series_in l (places key (length (before ++ m ∷ [])) xs) ≡ keyed key xs) joined
          (series_in-places key (before ++ m ∷ []) xs) in
      let rest' =
        subst (λ n. series_in (before ++ (m ∷ xs)) (places key n xs) ≡ keyed key xs) longer rest in
      elim (Bool-cases (text_eq m.key key)) [
        | inl e ↦ rw (e, get_elem?-middle before m xs, rest')
        | inr e ↦ rw (e, rest')
      ]

  -- What a caller finds under a key.
  pub series_of-Placed : (key : Text) (s : Store V) → Placed s → series_of key s ≡ keyed key s.heap
  unfolding series_of
  series_of-Placed key s v = ap (series_in s.heap) (v key) ∙ series_in-places key [] s.heap

  module _ (key label : Text) (s : Store V) (v : Placed s) where
    abbrev made : MetricSeries V
    made = record { key = key; label = label; points = [] }

    abbrev out' : List (Text × List ℕ)
    out' = put key (ids_or_empty (get key s.out) ++ length s.heap ∷ []) s.out

    here :
        places key 0 s.heap ++ (if text_eq key key then (0 + length s.heap) ∷ [] else [])
        ≡ places key 0 s.heap ++ length s.heap ∷ []
    here = let same : 0 + length s.heap ≡ length s.heap = omega arith in rw (text_eq_refl key, same)

    elsewhere :
        (j : Text)
        → key ≢ j
        → places j 0 s.heap ++ (if text_eq key j then (0 + length s.heap) ∷ [] else [])
          ≡ places j 0 s.heap
    elsewhere j other = rw (text_eq-false key j other) (append-nil (places j 0 s.heap))

    made-Placed : (j : Text) → ids_or_empty (get j out') ≡ places j 0 (s.heap ++ made ∷ [])
    made-Placed j = elim (Text-cases key j) [
      | inl same ↦
          subst (λ k. ids_or_empty (get k out') ≡ places k 0 (s.heap ++ made ∷ [])) same
            (ap ids_or_empty
                (get-put_self key (ids_or_empty (get key s.out) ++ length s.heap ∷ []) s.out)
              ∙ ap (λ ids. ids ++ length s.heap ∷ []) (v key)
              ∙ sym (places-append key 0 s.heap made ∙ here))
      | inr other ↦
          ap ids_or_empty
            (get-put_ne key j (ids_or_empty (get key s.out) ++ length s.heap ∷ []) s.out other)
          ∙ v j
          ∙ sym (places-append j 0 s.heap made ∙ elsewhere j other)
    ]

  pub series_for-Placed :
      (key label : Text) (s : Store V) → Placed s → Placed (series_for key label s).1
  unfolding series_for
  series_for-Placed key label s v = elim (Option-cases (get (tag key label) s.index)) [
    | inl e ↦ rw (series_for, e) (made-Placed key label s v)
    | inr (i, e) ↦ rw (series_for, e) v
  ]

  pub add_points-Placed :
      (w : Window) (id : ℕ) (samples : List (ℤ × V)) (s : Store V)
      → Placed s
      → Placed (add_points w id samples s)
  unfolding add_points
  add_points-Placed w id samples s v = λ key.
      v key
      ∙ sym (
          places-modify (λ m. record m { points = absorb w m.points samples }) (λ m. refl) key 0 id
            s.heap)
