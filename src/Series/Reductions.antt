-- ===== src/Series/Reductions.antt =====
-- The numbers that a series is reduced to, against the list of its samples.
use skills_dashboard.Common.{
  ℕ, zero, suc, ◌+◌, ◌<◌, ◌≡◌, refl, sym, ◌∙◌, subst, ◌⊎◌, inl, inr, Option, none, some, List, [],
  ◌∷◌, arith, ◌==◌, if◌then◌else◌, Option-cases, length, Listed, All,
}
use mathlib.Core.List.{foldl}
use skills_dashboard.Series.{
  Series, Point, point_at, defined, count_defined, reduce, reduce_from, avg, sum_and_count, last,
  last_from,
}

module _ {V : Type 0} where
  -- The samples that are no gaps, in order.
  pub samples : List (Point V) → List V
  samples [] = []
  samples (none ∷ vs) = samples vs
  samples (some v ∷ vs) = v ∷ samples vs

  -- The reduction of a list from the left, which an empty list does not have.
  abbrev pub fold_left : (V → V → V) → List V → Option V
  fold_left f [] = none
  fold_left f (x ∷ xs) = some (foldl f x xs)

  reduce_from-some :
      (f : V → V → V) (a : V) (vs : List (Point V))
      → reduce_from f (some a) vs ≡ some (foldl f a (samples vs))
  unfolding reduce_from samples
  reduce_from-some f a [] = refl
  reduce_from-some f a (none ∷ vs) = reduce_from-some f a vs
  reduce_from-some f a (some v ∷ vs) = reduce_from-some f (f a v) vs

  reduce_from-none :
      (f : V → V → V) (vs : List (Point V)) → reduce_from f none vs ≡ fold_left f (samples vs)
  unfolding reduce_from samples
  reduce_from-none f [] = refl
  reduce_from-none f (none ∷ vs) = reduce_from-none f vs
  reduce_from-none f (some v ∷ vs) = reduce_from-some f v vs

  -- `max`, `min` and `sum` fold the samples from the left, and skip every gap: the result is null
  -- exactly when there is no sample.
  pub reduce-fold_left :
      (f : V → V → V) (s : Series V) → reduce f s ≡ fold_left f (samples s.values)
  unfolding reduce
  reduce-fold_left f s = reduce_from-none f s.values

  foldl-choice :
      (larger : V → V → V) (R : V → V → Type 0)
      → ((a b : V) → (larger a b ≡ a) ⊎ (larger a b ≡ b))
      → ((a b : V) → R a (larger a b) × R b (larger a b))
      → ((a b c : V) → R a b → R b c → R a c)
      → (a : V) (xs : List V)
      → Listed (foldl larger a xs) (a ∷ xs)
        × R a (foldl larger a xs)
        × All (λ x. R x (foldl larger a xs)) xs
  foldl-choice larger R either upper trans a [] = (inl refl, self, tt)
    where
      self : R a a
      self = elim (either a a) [
        | inl q ↦ subst (R a) q (upper a a).0
        | inr q ↦ subst (R a) q (upper a a).0
      ]
  foldl-choice larger R either upper trans a (x ∷ xs) =
      let (l, r, h) = foldl-choice larger R either upper trans (larger a x) xs in
      (chosen l, trans a _ _ (upper a x).0 r, (trans x _ _ (upper a x).1 r, h))
    where
      chosen :
          Listed (foldl larger (larger a x) xs) (larger a x ∷ xs)
          → Listed (foldl larger (larger a x) xs) (a ∷ x ∷ xs)
      chosen (inl e) = elim (either a x) [ inl q ↦ inl (e ∙ q) | inr q ↦ inr (inl (e ∙ q)) ]
      chosen (inr m) = inr (inr m)

  -- Where `Math.max` (or `Math.min`) picks one of its arguments and bounds both, the maximum (or
  -- minimum) of a series is one of its samples and bounds all of them.
  pub reduce-extreme :
      (larger : V → V → V) (R : V → V → Type 0)
      → ((a b : V) → (larger a b ≡ a) ⊎ (larger a b ≡ b))
      → ((a b : V) → R a (larger a b) × R b (larger a b))
      → ((a b c : V) → R a b → R b c → R a c)
      → (s : Series V) (m : V) → reduce larger s ≡ some m
      → Listed m (samples s.values) × All (λ x. R x m) (samples s.values)
  reduce-extreme larger R either upper trans s m h =
      extreme (samples s.values) (sym (reduce-fold_left larger s) ∙ h)
    where
      extreme : (xs : List V) → fold_left larger xs ≡ some m → Listed m xs × All (λ x. R x m) xs
      extreme [] e = cc
      extreme (x ∷ xs) e =
          let q : foldl larger x xs ≡ m = cc in
          let (l, r, k) = foldl-choice larger R either upper trans x xs in
          subst (λ y. Listed y (x ∷ xs) × All (λ z. R z y) (x ∷ xs)) q (l, (r, k))

  count_defined-samples :
      (n : ℕ) (vs : List (Point V)) → count_defined n vs ≡ n + length (samples vs)
  unfolding count_defined samples
  count_defined-samples n [] = omega arith
  count_defined-samples n (none ∷ vs) = count_defined-samples n vs
  count_defined-samples n (some v ∷ vs) = omega (arith, count_defined-samples (n + 1) vs)

  sum_and_count-samples :
      (plus : V → V → V) (sum : V) (n : ℕ) (vs : List (Point V))
      → sum_and_count plus sum n vs ≡ (foldl plus sum (samples vs), n + length (samples vs))
  unfolding sum_and_count samples
  sum_and_count-samples plus sum n [] = ground arith
  sum_and_count-samples plus sum n (none ∷ vs) = sum_and_count-samples plus sum n vs
  sum_and_count-samples plus sum n (some v ∷ vs) =
      ground (arith, sum_and_count-samples plus (plus sum v) (n + 1) vs)

  -- `avg` divides the sum of the samples, gaps left out, by their number as `defined` counts it, and
  -- is null exactly when there is none.
  pub avg-samples :
      (plus : V → V → V) (nought : V) (divide : V → ℕ → V) (s : Series V)
      → avg plus nought divide s ≡ (
          if defined s == 0
          then none
          else some (divide (foldl plus nought (samples s.values)) (defined s)))
  unfolding avg defined
  avg-samples plus nought divide s = rw (sum_and_count-samples, count_defined-samples)

  last_from-eq :
      (n : ℕ) (vs : List (Point V)) (v : V)
      → last_from n vs ≡ some v
      → (i : ℕ) × (i < n)
        × (point_at vs i ≡ some v)
        × ((j : ℕ) → i < j → j < n → point_at vs j ≡ none)
  unfolding last_from
  last_from-eq zero vs v h = cc
  last_from-eq (suc n) vs v h = elim (Option-cases (point_at vs n)) [
    | inl gap ↦
        let (i, lt, e, later) = last_from-eq n vs v (rw (gap, last_from) at h) in
        (i, omega arith, e, λ j l k. elim (below j k) [ inl q ↦ later j l q | inr q ↦ rw q gap ])
    | inr (x, e) ↦ (n, omega arith, e ∙ rw (e, last_from) at h, λ j l k. absurd (omega arith))
  ]
    where
      below : (j : ℕ) → j < suc n → (j < n) ⊎ (j ≡ n)
      below j k = omega arith

  last_from-none :
      (n : ℕ) (vs : List (Point V)) → last_from n vs ≡ none → (j : ℕ) → j < n → point_at vs j ≡ none
  unfolding last_from
  last_from-none zero vs h j k = absurd (omega arith)
  last_from-none (suc n) vs h j k = elim (Option-cases (point_at vs n)) [
    | inl gap ↦ elim below [
      | inl q ↦ last_from-none n vs (rw (gap, last_from) at h) j q
      | inr q ↦ rw q gap
    ]
    | inr (x, e) ↦ let q : some x ≡ none = rw (e, last_from) at h in cc
  ]
    where
      below : (j < n) ⊎ (j ≡ n)
      below = omega arith

  -- `last` is the newest sample: every later bucket is a gap. It is null only if every bucket is.
  pub last-newest :
      (s : Series V)
      → ((v : V)
          → last s ≡ some v
          → (i : ℕ) × (i < length s.values)
            × (point_at s.values i ≡ some v)
            × ((j : ℕ) → i < j → j < length s.values → point_at s.values j ≡ none))
        × (last s ≡ none → (j : ℕ) → j < length s.values → point_at s.values j ≡ none)
  unfolding last
  last-newest s =
      (last_from-eq (length s.values) s.values, last_from-none (length s.values) s.values)
