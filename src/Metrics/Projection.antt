-- ===== src/Metrics/Projection.antt =====
-- Every sample lands in the bucket that its time falls in, and nowhere else.
use skills_dashboard.Common.{
  ℕ, zero, suc, ◌+◌, ◌*◌, ◌/◌, ◌%◌, ◌<◌, ◌≡◌, refl, ap, ◌∙◌, subst, ◌≢◌, ◌↔◌, false, Option, none,
  some, List, [], ◌∷◌, arith, ◌==◌, if◌then◌else◌, length, get_elem?, length-replicate,
}
use skills_dashboard.Common.{
  ℤ, pos, pos_part, neg_part, ◌+ℤ◌, ◌≤ℤ◌, ◌<ℤ◌, eqb_ℤ, eq_of_parts, eqb_ℤ_eq, eqb_ℤ_refl, floor_to,
  trunc_div,
}
use skills_dashboard.Text.{Text}
use skills_dashboard.Common.Floor.{
  floor_to-Multiple, trunc_div-exact, Multiple-of, floor_to-le, lt-floor_to,
}
use skills_dashboard.Window.{Window, buckets, timestamps, align, index_of}
use skills_dashboard.Window.Bounds.{IsValid}
use skills_dashboard.Window.Axis.{
  edge, InBucket, index_of_iff, edge-Multiple, edge-seconds, align-edge, get_elem?-timestamps,
}
use skills_dashboard.Series.{Series, Measure, new_series, point_at}
use skills_dashboard.Series.Writes.{point_at-set_at, length-set_at, point_at-replicate}
use skills_dashboard.Metrics.{
  align_to_bucket, get_point, set_point, absorb, fill_at, project, to_series,
}

module _ {V : Type 0} where
  get_point-set_point :
      (k j : ℤ) (v : V) (m : List (ℤ × V))
      → get_point j (set_point k v m) ≡ (if eqb_ℤ k j then some v else get_point j m)
  unfolding get_point set_point
  get_point-set_point k j v [] = refl
  get_point-set_point k j v ((i, u) ∷ m) =
      ground
        (arith, get_point-set_point k j v m, eqb_ℤ_eq i j, eqb_ℤ_eq i k, eqb_ℤ_eq k j, eqb_ℤ_refl i)

-- The newest of the samples that `indexOf` puts in bucket `i`: what a bucket should show.
pub newest : {V : Type 0} → Window → ℕ → List (ℤ × V) → Option V
newest w i [] = none
newest w i ((t, x) ∷ samples) = elim (newest w i samples) [
  | some y ↦ some y
  | none ↦ elim (index_of w t) [ none ↦ none | some j ↦ if j == i then some x else none ]
]

abbrev or_else : {V : Type 0} → Option V → Option V → Option V
or_else (some x) d = some x
or_else none d = d

or_else-none : {V : Type 0} (o : Option V) → or_else o none ≡ o
or_else-none (some x) = refl
or_else-none none = refl

module _ (w : Window) (v : IsValid w) (seconds : w.period % 1000 ≡ 0) where
  -- The i-th time stamp.
  abbrev stamp : ℕ → ℤ
  stamp i = trunc_div (edge w i) 1000

  whole_seconds : w.period ≡ w.period / 1000 * 1000
  whole_seconds = omega (arith, seconds)

  align-stamp : (t : ℤ) (i : ℕ) → trunc_div (align w t) 1000 ≡ stamp i → align w t ≡ edge w i
  unfolding align
  align-stamp t i h =
      let a = trunc_div-exact (floor_to t w.period) (
        Multiple-of _ w.period _ 1000 whole_seconds
          (floor_to-Multiple t w.period v.compatible.step)) in
      let b =
        trunc_div-exact (edge w i)
          (Multiple-of (edge w i) w.period _ 1000 whole_seconds (edge-Multiple w v i)) in
      eq_of_parts _ _ (omega (arith, a, b, ap pos_part h, ap neg_part h))

  -- On an axis of whole seconds, a time is moved to the i-th time stamp exactly when `indexOf` puts
  -- it in bucket `i`.
  pub align_to_bucket_iff :
      (t : ℤ) (i : ℕ) → i < buckets w → (align_to_bucket t w ≡ stamp i) ↔ (index_of w t ≡ some i)
  unfolding align_to_bucket align
  align_to_bucket_iff t i lt = (
    λ h. (index_of_iff w v t i).1 (bucket (align-stamp t i h)),
    λ h. ap (λ m. trunc_div m 1000) (align-edge w v t i h),
  )
    where
      bucket : align w t ≡ edge w i → InBucket w t i
      bucket e = (
        lt,
        subst (λ m. m ≤ℤ t) e (floor_to-le w.period v.compatible.step t),
        subst (λ m. t <ℤ m +ℤ pos w.period) e (lt-floor_to w.period v.compatible.step t),
      )

  eqb-bucket :
      (t : ℤ) (i : ℕ)
      → i < buckets w
      → eqb_ℤ (align_to_bucket t w) (stamp i)
        ≡ (elim (index_of w t) [ none ↦ false | some j ↦ j == i ])
  eqb-bucket t i lt = ground (
    arith,
    eqb_ℤ_eq (align_to_bucket t w) (stamp i),
    eqb_ℤ_refl (stamp i),
    align_to_bucket_iff t i lt,
  )

  get_point-absorb :
      {V : Type 0} (i : ℕ)
      → i < buckets w
      → (points samples : List (ℤ × V))
      → get_point (stamp i) (absorb w points samples)
        ≡ or_else (newest w i samples) (get_point (stamp i) points)
  unfolding absorb newest
  get_point-absorb i lt points [] = refl
  get_point-absorb i lt points ((t, x) ∷ samples) = ground (
    arith,
    get_point-absorb i lt (set_point (align_to_bucket t w) x points) samples,
    get_point-set_point (align_to_bucket t w) (stamp i) x points,
    eqb-bucket t i lt,
  )

module _ {V : Type 0} where
  pub length-fill_at :
      (s : Series V) (i : ℕ) (o : Option V) → length (fill_at s i o).values ≡ length s.values
  unfolding fill_at
  length-fill_at s i none = refl
  length-fill_at s i (some v) = length-set_at s (pos i) v

  point_at-fill_at_ne :
      (s : Series V) (i j : ℕ) (o : Option V)
      → i ≢ j
      → point_at (fill_at s i o).values j ≡ point_at s.values j
  unfolding fill_at
  point_at-fill_at_ne s i j none h = refl
  point_at-fill_at_ne s i j (some v) h = ground (arith, point_at-set_at s i j v)

  point_at-fill_at_self :
      (s : Series V) (i : ℕ) (o : Option V)
      → i < length s.values
      → point_at s.values i ≡ none
      → point_at (fill_at s i o).values i ≡ o
  unfolding fill_at
  point_at-fill_at_self s i none h gap = gap
  point_at-fill_at_self s i (some v) h gap = ground (arith, point_at-set_at s i i v)

  -- Projecting on an axis from index `i` leaves the points before it.
  point_at-project_before :
      (points : List (ℤ × V)) (i : ℕ) (axis : List ℤ) (s : Series V) (j : ℕ)
      → j < i
      → point_at (project points i axis s).values j ≡ point_at s.values j
  unfolding project
  point_at-project_before points i [] s j h = refl
  point_at-project_before points i (k ∷ axis) s j h =
      point_at-project_before points (i + 1) axis _ j (omega arith)
      ∙ point_at-fill_at_ne s i j (get_point k points) (omega arith)

  -- It fills the gap at `i + d` with the point of the d-th stamp.
  point_at-project :
      (points : List (ℤ × V)) (i : ℕ) (axis : List ℤ) (s : Series V) (d : ℕ) (k : ℤ)
      → get_elem? axis d ≡ some k
      → i + d < length s.values
      → point_at s.values (i + d) ≡ none
      → point_at (project points i axis s).values (i + d) ≡ get_point k points
  unfolding project
  point_at-project points i [] s d k e h gap = cc
  point_at-project points i (x ∷ axis) s zero k e h gap =
      let here : i + 0 ≡ i = omega arith in
      let same : x ≡ k = cc in
      rw (here, same)
        (point_at-project_before points (i + 1) axis _ i (omega arith)
          ∙ point_at-fill_at_self s i (get_point k points) (omega arith) (rw here at gap))
  point_at-project points i (x ∷ axis) s (suc d) k e h gap =
      let s' = fill_at s i (get_point x points) in
      let next : i + suc d ≡ i + 1 + d = omega arith in
      let size : length s'.values ≡ length s.values = length-fill_at s i _ in
      rw next (
        point_at-project points (i + 1) axis s' d k e (omega (arith, size))
          (point_at-fill_at_ne s i (i + 1 + d) _ (omega arith) ∙ rw next at gap))

  -- `toSeries` shows, for each bucket, the point that is stored under its time stamp.
  pub point_at-to_series :
      (points : List (ℤ × V)) (w : Window) (label : Text) (measure : Measure) (color : Text) (i : ℕ)
      (k : ℤ)
      → i < buckets w
      → get_elem? (timestamps w) i ≡ some k
      → point_at (to_series points w label measure color).values i ≡ get_point k points
  unfolding to_series new_series
  point_at-to_series points w label measure color i k lt e =
      let from : 0 + i ≡ i = omega arith in
      rw from at (
        point_at-project points 0 (timestamps w) (new_series label measure color (buckets w)) i k e
          (rw (from, length-replicate) lt) (point_at-replicate (buckets w) (0 + i)))

-- CloudWatch samples, in whatever order they arrive and whether or not their times lie on the grid
-- or in the window, show up where `indexOf` puts them: bucket `i` of the series holds the last
-- sample to arrive of those in bucket `i`, and a gap if there is none.
pub point_at-absorb :
    {V : Type 0} (w : Window) (samples : List (ℤ × V)) (label : Text) (measure : Measure)
    (color : Text) (i : ℕ)
    → IsValid w
    → w.period % 1000 ≡ 0
    → i < buckets w
    → point_at (to_series (absorb w [] samples) w label measure color).values i ≡ newest w i samples
unfolding get_point
point_at-absorb w samples label measure color i v seconds lt =
    point_at-to_series (absorb w [] samples) w label measure color i (stamp w v seconds i) lt
      (get_elem?-timestamps w i lt ∙ ap some (edge-seconds w v i seconds))
    ∙ get_point-absorb w v seconds i lt [] samples
    ∙ or_else-none (newest w i samples)
