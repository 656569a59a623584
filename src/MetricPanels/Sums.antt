-- ===== src/MetricPanels/Sums.antt =====
-- server/src/http/panels-metrics.ts, `sumSeries`: the points of the sum.
use skills_dashboard.Common.{
  ℕ, zero, suc, ◌+◌, ◌<◌, ◌≡◌, refl, ap, ◌∙◌, inl, inr, true, false, none, some, List, [], ◌∷◌, map,
  arith, leb, ◌==◌, if◌then◌else◌, Bool-cases, length, set, replicate, length-replicate,
}
use skills_dashboard.Common.{pos}
use skills_dashboard.Text.{Text}
use skills_dashboard.Window.{Window, buckets}
use skills_dashboard.Series.{Series, Point, Measure, new_series, add_at, point_at, reduce_from}
use skills_dashboard.Series.Writes.{point_at-set, point_at-replicate, length-add_at}
use skills_dashboard.MetricPanels.{add_point, add_points_of, add_all, sum_series}

module _ {V : Type 0} (plus : V → V → V) where
  -- A point and what is added to it.
  abbrev joined : Point V → Point V → Point V
  joined acc none = acc
  joined none (some v) = some v
  joined (some a) (some v) = some (plus a v)

  pub length-add_point :
      (i : ℕ) (x : Point V) (out : Series V)
      → length (add_point plus i x out).values ≡ length out.values
  length-add_point i none out = refl
  length-add_point i (some v) out = length-add_at plus out (pos i) v

  pub length-add_points_of :
      (i : ℕ) (xs : List (Point V)) (out : Series V)
      → length (add_points_of plus i xs out).values ≡ length out.values
  unfolding add_points_of
  length-add_points_of i [] out = refl
  length-add_points_of i (x ∷ xs) out =
      length-add_points_of (i + 1) xs (add_point plus i x out) ∙ length-add_point i x out

  pub length-add_all :
      (list : List (Series V)) (out : Series V)
      → length (add_all plus list out).values ≡ length out.values
  unfolding add_all
  length-add_all [] out = refl
  length-add_all (s ∷ list) out =
      length-add_all list (add_points_of plus 0 s.values out) ∙ length-add_points_of 0 s.values out

  pub length-sum_series :
      (w : Window) (list : List (Series V)) (label : Text) (measure : Measure) (color : Text)
      → length (sum_series plus w list label measure color).values ≡ buckets w
  unfolding sum_series new_series
  length-sum_series w list label measure color =
      length-add_all list (new_series label measure color (buckets w))
      ∙ length-replicate (buckets w) none

  at_end :
      (n : V) (x : Point V)
      → (elim x [ none ↦ some n | some cur ↦ some (plus cur n) ]) ≡ joined x (some n)
  at_end n none = refl
  at_end n (some cur) = refl

  point_at-add_point :
      (i j : ℕ) (x : Point V) (out : Series V)
      → j < length out.values
      → point_at (add_point plus i x out).values j
        ≡ (if i == j then joined (point_at out.values j) x else point_at out.values j)
  unfolding add_at
  point_at-add_point i j none out h = elim (Bool-cases (i == j)) [
    | inl e ↦ rw e refl
    | inr e ↦ rw e refl
  ]
  point_at-add_point i j (some v) out h = elim (Bool-cases (leb (length out.values) i)) [
    | inl e ↦ let apart : (i == j) ≡ false = ground arith in rw (e, apart) refl
    | inr e ↦
        let inside : i < length out.values = ground arith in
        rw e (
          ap (λ y. point_at (set out.values i y) j) (at_end v (point_at out.values i))
          ∙ point_at-set out.values i j (joined (point_at out.values i) (some v)) inside
          ∙ same)
  ]
    where
      same :
          (if i == j then joined (point_at out.values i) (some v) else point_at out.values j)
          ≡ (if i == j then joined (point_at out.values j) (some v) else point_at out.values j)
      same = elim (Bool-cases (i == j)) [
        | inl e ↦
            let eq : i ≡ j = ground arith in
            rw e (ap (λ k. joined (point_at out.values k) (some v)) eq)
        | inr e ↦ rw e refl
      ]

  -- Points before the index stay.
  add_points_of-before :
      (i j : ℕ) (xs : List (Point V)) (out : Series V)
      → j < i
      → j < length out.values
      → point_at (add_points_of plus i xs out).values j ≡ point_at out.values j
  unfolding add_points_of
  add_points_of-before i j [] out h l = refl
  add_points_of-before i j (x ∷ xs) out h l =
      let apart : (i == j) ≡ false = ground arith in
      let size : length (add_point plus i x out).values ≡ length out.values =
        length-add_point i x out in
      add_points_of-before (i + 1) j xs (add_point plus i x out) (omega arith) (omega arith)
      ∙ point_at-add_point i j x out l
      ∙ rw apart refl

  add_points_of-at :
      (i k : ℕ) (xs : List (Point V)) (out : Series V)
      → i + k < length out.values
      → point_at (add_points_of plus i xs out).values (i + k)
        ≡ joined (point_at out.values (i + k)) (point_at xs k)
  unfolding add_points_of
  add_points_of-at i k [] out l = refl
  add_points_of-at i zero (x ∷ xs) out l =
      let here : i + 0 ≡ i = omega arith in
      let low : i < length out.values = omega arith in
      let same : (i == i) ≡ true = ground arith in
      let size : length (add_point plus i x out).values ≡ length out.values =
        length-add_point i x out in
      rw here (
        add_points_of-before (i + 1) i xs (add_point plus i x out) (omega arith) (omega arith)
        ∙ point_at-add_point i i x out low
        ∙ rw same refl)
  add_points_of-at i (suc k) (x ∷ xs) out l =
      let there : i + suc k ≡ (i + 1) + k = omega arith in
      let apart : (i == ((i + 1) + k)) ≡ false = ground arith in
      let low : (i + 1) + k < length out.values = omega arith in
      let size : length (add_point plus i x out).values ≡ length out.values =
        length-add_point i x out in
      rw there (
        add_points_of-at (i + 1) k xs (add_point plus i x out) (omega arith)
        ∙ ap (λ y. joined y (point_at xs k))
            (point_at-add_point i ((i + 1) + k) x out low ∙ rw apart refl))

  add_all-at :
      (k : ℕ) (list : List (Series V)) (out : Series V)
      → k < length out.values
      → point_at (add_all plus list out).values k
        ≡ reduce_from plus (point_at out.values k) (map (λ s. point_at s.values k) list)
  unfolding add_all reduce_from
  add_all-at k [] out l = refl
  add_all-at k (s ∷ list) out l =
      let size : length (add_points_of plus 0 s.values out).values ≡ length out.values =
        length-add_points_of 0 s.values out in
      let at : point_at (add_points_of plus 0 s.values out).values k
          ≡ joined (point_at out.values k) (point_at s.values k) =
        first s in
      add_all-at k list (add_points_of plus 0 s.values out) (omega arith)
      ∙ ap (λ y. reduce_from plus y (map (λ t. point_at t.values k) list)) at
      ∙ stepped (point_at out.values k) (point_at s.values k) (map (λ t. point_at t.values k) list)
    where
      first :
          (s : Series V)
          → point_at (add_points_of plus 0 s.values out).values k
            ≡ joined (point_at out.values k) (point_at s.values k)
      first s =
          let zero_k : 0 + k ≡ k = omega arith in
          rw zero_k at (add_points_of-at 0 k s.values out (omega arith))

      stepped :
          (acc x : Point V) (xs : List (Point V))
          → reduce_from plus (joined acc x) xs ≡ reduce_from plus acc (x ∷ xs)
      stepped acc none xs = refl
      stepped none (some v) xs = refl
      stepped (some a) (some v) xs = refl

  -- In each bucket, the line that sums up lines is the sum of what they have there, in their order, and a
  -- gap only where all of them have one.
  pub point_at-sum_series :
      (w : Window) (list : List (Series V)) (label : Text) (measure : Measure) (color : Text)
      (i : ℕ)
      → i < buckets w
      → point_at (sum_series plus w list label measure color).values i
        ≡ reduce_from plus none (map (λ s. point_at s.values i) list)
  unfolding sum_series new_series
  point_at-sum_series w list label measure color i h =
      let size : length {A = Point V} (replicate (buckets w) none) ≡ buckets w =
        length-replicate (buckets w) none in
      add_all-at i list (new_series label measure color (buckets w)) (rw size h)
      ∙ ap (λ y. reduce_from plus y (map (λ s. point_at s.values i) list))
          (point_at-replicate (buckets w) i)
