-- ===== src/Metrics.antt =====
-- server/src/aws/metrics.ts: the points of one CloudWatch time series, moved onto the grid of a
-- window and projected on its axis.
pub mod Projection
use skills_dashboard.Common.{
  ℕ, zero, suc, ◌+◌, ◌-◌, ◌*◌, ◌/◌, ◌%◌, ◌^◌, ◌≤◌, ◌<◌, min, ◌≡◌, refl, sym, ap, ◌∙◌, subst, ◌≢◌,
  ◌↔◌, ◌⊎◌, inl, inr, Bool, true, false, ◌&&◌, ◌||◌, not, Option, none, some, List, [], ◌∷◌, ◌++◌,
  map, append-nil, append_assoc, arith, ltb, leb, ◌==◌, if◌then◌else◌, Bool-cases, Option-cases,
  length, get_elem?, set, take, drop, replicate, length-append, length-map, length-replicate,
  Listed, All, All-Listed, All-append, Result, ok, err, ◌>>=◌, ◌>>◌, >>=-eq-ok, Result-cases,
}
use skills_dashboard.Common.{
  ℤ, pos, negsuc, pos_part, neg_part, sub_ℕ, ◌+ℤ◌, ◌-ℤ◌, ◌≤ℤ◌, ◌<ℤ◌, ltb_ℤ, eqb_ℤ, +ℤ_parts,
  -ℤ_parts, eq_of_parts, part_cases, eqb_ℤ_eq, eqb_ℤ_refl, int_laws, floor_to, trunc_div,
}
use skills_dashboard.Text.{Text}
use skills_dashboard.Window.{Window, buckets, timestamps, align}
use skills_dashboard.Series.{Series, Measure, new_series, set_at}

-- `alignToBucket`: the left edge of the bucket, in seconds.
unfoldable pub align_to_bucket : ℤ → Window → ℤ
align_to_bucket t w = trunc_div (align w t) 1000

module _ {V : Type 0} where
  -- `points.get(k)`
  unfoldable pub get_point : ℤ → List (ℤ × V) → Option V
  get_point k [] = none
  get_point k ((j, v) ∷ m) = if eqb_ℤ j k then some v else get_point k m

  -- `points.set(k, v)`
  unfoldable pub set_point : ℤ → V → List (ℤ × V) → List (ℤ × V)
  set_point k v [] = (k, v) ∷ []
  set_point k v ((j, u) ∷ m) = if eqb_ℤ j k then (j, v) ∷ m else (j, u) ∷ set_point k v m

  -- The inner loop of `fetchChunk`, over the stamps and values of one result.
  unfoldable pub absorb : Window → List (ℤ × V) → List (ℤ × V) → List (ℤ × V)
  absorb w points [] = points
  absorb w points ((t, v) ∷ samples) = absorb w (set_point (align_to_bucket t w) v points) samples

  -- The body of the loop of `toSeries`.
  unfoldable pub fill_at : Series V → ℕ → Option V → Series V
  fill_at s i none = s
  fill_at s i (some v) = set_at s (pos i) v

  -- The loop of `toSeries` from index `i`.
  unfoldable pub project : List (ℤ × V) → ℕ → List ℤ → Series V → Series V
  project points i [] s = s
  project points i (k ∷ axis) s = project points (i + 1) axis (fill_at s i (get_point k points))

  unfoldable pub to_series : List (ℤ × V) → Window → Text → Measure → Text → Series V
  to_series points w label measure color =
      project points 0 (timestamps w) (new_series label measure color (buckets w))
