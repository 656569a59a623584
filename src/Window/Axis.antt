-- ===== src/Window/Axis.antt =====
-- The shared time axis: the buckets of a window, their left edges, and where a time falls.
use skills_dashboard.Common.{
  ℕ, zero, suc, ◌+◌, ◌*◌, ◌/◌, ◌%◌, ◌≤◌, ◌<◌, ◌≡◌, refl, sym, ap, ◌∙◌, subst, ◌↔◌, Bool, false,
  ◌||◌, not, some, arith, length, get_elem?,
}
use skills_dashboard.Common.{
  ℤ, pos, pos_part, neg_part, ◌+ℤ◌, ◌-ℤ◌, ◌≤ℤ◌, ◌<ℤ◌, ltb_ℤ, +ℤ_parts, -ℤ_parts, eq_of_parts,
  part_cases, trunc_div,
}
use native.Mathlib.Nat.{mod-lt, add-zero, mul_assoc}
use skills_dashboard.Common.Floor.{
  Multiple-of, div-mul, div_unique, floor_to-Multiple, floor_to_unique, trunc_div-exact, Multiple,
}
use skills_dashboard.Window.{Window, buckets, bucket_count, index_of, timestamps, axis, align}
use skills_dashboard.Window.Bounds.{IsValid}

-- The left edge of bucket `i`.
abbrev pub edge : Window → ℕ → ℤ
edge w i = w.start +ℤ pos (i * w.period)

abbrev pub InBucket : Window → ℤ → ℕ → Type 0
InBucket w t i = (i < buckets w) × (edge w i ≤ℤ t) × (t <ℤ edge w i +ℤ pos w.period)

-- How far `t` lies into the window.
abbrev offset : Window → ℤ → ℕ
offset w t = pos_part (t -ℤ w.start)

div-lt : (d k p : ℕ) → 0 < p → d < k * p → d / p < k
div-lt d k p h l = grind arith

lt-mul : (i d k p : ℕ) → i * p ≤ d → d < k * p → i < k
lt-mul i d k p g l = grind arith

mul-lt : (i k p : ℕ) → i < k → i * p + p ≤ k * p
mul-lt i k p l = grind arith

outside : Window → ℤ → Bool
outside w t = ltb_ℤ t w.start || not (ltb_ℤ t w.end)

module _ (w : Window) (v : IsValid w) where
  pub buckets-mul : buckets w * w.period ≡ w.range
  unfolding buckets bucket_count
  buckets-mul =
      let e : w.range / w.period * w.period ≡ w.range =
        omega (arith, div-mul w.range w.period, v.compatible.even) in
      let s : 0 < w.period = v.compatible.step in ground arith

  module _ (t : ℤ) where
    inside :
        outside w t ≡ false
        → (w.start ≤ℤ t)
          × (offset w t < buckets w * w.period)
          × (pos_part w.start + neg_part t + offset w t ≡ pos_part t + neg_part w.start)
    unfolding outside
    inside h =
        let a : w.start ≤ℤ t = ground arith in
        let b : t <ℤ w.end = ground arith in
        let c : pos_part w.start + neg_part t + offset w t ≡ pos_part t + neg_part w.start =
          omega (arith, -ℤ_parts, part_cases (t -ℤ w.start)) in
        (a, omega (arith, +ℤ_parts, ap pos_part v.span, ap neg_part v.span, buckets-mul), c)

    index_of-inside :
        (i : ℕ) → index_of w t ≡ some i → (outside w t ≡ false) × (offset w t / w.period ≡ i)
    unfolding index_of outside
    index_of-inside i h = ground arith

    inside_of : w.start ≤ℤ t → t <ℤ w.end → outside w t ≡ false
    unfolding outside
    inside_of a b = ground arith

    index_of-InBucket : (i : ℕ) → index_of w t ≡ some i → InBucket w t i
    index_of-InBucket i h =
        let (o, q) = index_of-inside i h in
        let (a, b, c) = inside o in
        let p : 0 < w.period = v.compatible.step in
        (
          subst (λ j. j < buckets w) q (div-lt (offset w t) (buckets w) w.period p b),
          omega (arith, +ℤ_parts, div-mul (offset w t) w.period, ap (λ j. j * w.period) q),
          omega (
            arith,
            +ℤ_parts,
            div-mul (offset w t) w.period,
            mod-lt (offset w t) p,
            ap (λ j. j * w.period) q,
          ),
        )

    index_of_inside : outside w t ≡ false → index_of w t ≡ some (offset w t / w.period)
    unfolding index_of outside
    index_of_inside h = rw h

    InBucket-index_of : (i : ℕ) → InBucket w t i → index_of w t ≡ some i
    InBucket-index_of i (lt, above, below) =
        let m : i * w.period + w.period ≤ buckets w * w.period = mul-lt i (buckets w) w.period lt in
        let o : outside w t ≡ false =
          inside_of (omega (arith, +ℤ_parts))
            (omega (arith, +ℤ_parts, ap pos_part v.span, ap neg_part v.span, buckets-mul)) in
        let (a, b, c) = inside o in
        let q : offset w t / w.period ≡ i =
          div_unique (offset w t) i w.period (omega (arith, +ℤ_parts)) (omega (arith, +ℤ_parts)) in
        index_of_inside o ∙ ap some q

  -- `indexOf` names bucket `i` of a valid window exactly when `i` is the number of a bucket and the
  -- time lies at or after its left edge and before the next one.
  pub index_of_iff : (t : ℤ) (i : ℕ) → (index_of w t ≡ some i) ↔ InBucket w t i
  index_of_iff t i = (index_of-InBucket t i, InBucket-index_of t i)

pub buckets_pos : (w : Window) → IsValid w → 0 < buckets w
unfolding buckets bucket_count
buckets_pos w v =
    let e : 4 ≤ w.range / w.period = v.compatible.enough in
    let s : 0 < w.period = v.compatible.step in ground arith

length-axis : (start : ℤ) (step i k : ℕ) → length (axis start step i k) ≡ k
unfolding axis
length-axis start step i zero = refl
length-axis start step i (suc k) = ap suc (length-axis start step (i + 1) k)

get_elem?-axis :
    (start : ℤ) (step i k j : ℕ)
    → j < k
    → get_elem? (axis start step i k) j ≡ some (start +ℤ pos ((i + j) * step))
unfolding axis
get_elem?-axis start step i zero j h = elim h [ ]
get_elem?-axis start step i (suc k) zero h = rw add-zero
get_elem?-axis start step i (suc k) (suc j) h =
    let same : i + 1 + j ≡ i + suc j = omega arith in
    get_elem?-axis start step (i + 1) k j (omega arith)
    ∙ ap (λ x. some (start +ℤ pos (x * step))) same

pub length-timestamps : (w : Window) → length (timestamps w) ≡ buckets w
unfolding timestamps
length-timestamps w = length-axis _ _ _ _

pub get_elem?-timestamps :
    (w : Window) (j : ℕ)
    → j < buckets w
    → get_elem? (timestamps w) j ≡ some (trunc_div w.start 1000 +ℤ pos (j * (w.period / 1000)))
unfolding timestamps
get_elem?-timestamps w j h =
    get_elem?-axis _ _ 0 _ j h
    ∙ ap (λ x. some (trunc_div w.start 1000 +ℤ pos (x * (w.period / 1000)))) (omega arith)

module _ (w : Window) (v : IsValid w) where
  -- The left edges of a valid window are multiples of its period.
  pub edge-Multiple : (i : ℕ) → Multiple (edge w i) w.period
  edge-Multiple i =
      let (a, b, e) =
        subst (λ m. Multiple m w.period) v.aligned
          (floor_to-Multiple w.end w.period v.compatible.step) in
      (
        a + i,
        b + buckets w,
        omega (arith, +ℤ_parts, ap pos_part v.span, ap neg_part v.span, buckets-mul w v),
      )

  pub align-edge : (t : ℤ) (i : ℕ) → index_of w t ≡ some i → align w t ≡ edge w i
  unfolding align
  align-edge t i h =
      let (lt, above, below) = index_of-InBucket w v t i h in
      floor_to_unique t (edge w i) w.period v.compatible.step (edge-Multiple i) above below

  pub edge-seconds :
      (i : ℕ)
      → w.period % 1000 ≡ 0
      → trunc_div w.start 1000 +ℤ pos (i * (w.period / 1000)) ≡ trunc_div (edge w i) 1000
  edge-seconds i seconds =
      let k = w.period / 1000 in
      let whole : w.period ≡ k * 1000 = omega (arith, seconds) in
      let scaled : i * w.period ≡ i * k * 1000 = ap (λ x. i * x) whole ∙ sym (mul_assoc i k 1000) in
      let start_exact =
        trunc_div-exact w.start
          (Multiple-of w.start w.period k 1000 whole (edge_zero (edge-Multiple 0))) in
      let edge_exact =
        trunc_div-exact (edge w i)
          (Multiple-of (edge w i) w.period k 1000 whole (edge-Multiple i)) in
      eq_of_parts _ _ (omega (arith, +ℤ_parts, start_exact, edge_exact, scaled))
    where
      edge_zero : Multiple (edge w 0) w.period → Multiple w.start w.period
      edge_zero (a, b, e) = (a, b, omega (arith, +ℤ_parts))

  -- Where every listed period is a whole number of seconds: a time in bucket `i`, moved down to the
  -- period and cut to seconds, is the i-th time stamp.
  pub timestamps-align :
      (t : ℤ) (i : ℕ)
      → w.period % 1000 ≡ 0
      → index_of w t ≡ some i
      → get_elem? (timestamps w) i ≡ some (trunc_div (align w t) 1000)
  timestamps-align t i seconds h =
      rw (align-edge t i h) (
        get_elem?-timestamps w i (index_of-InBucket w v t i h).0 ∙ ap some (edge-seconds i seconds))
