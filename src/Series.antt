-- ===== src/Series.antt =====
-- server/src/domain/series.ts, the class `Series`: one line of a chart, a value or a gap for each
-- bucket. Values are of a type `V` with the operations that the source applies to them.
pub mod Writes
pub mod Reductions
use skills_dashboard.Common.{
  ℕ, zero, suc, ◌+◌, ◌-◌, ◌*◌, ◌/◌, ◌%◌, ◌^◌, ◌≤◌, ◌<◌, min, ◌≡◌, refl, sym, ap, ◌∙◌, subst, ◌≢◌,
  ◌↔◌, ◌⊎◌, inl, inr, Bool, true, false, ◌&&◌, ◌||◌, not, Option, none, some, List, [], ◌∷◌, ◌++◌,
  map, append-nil, append_assoc, arith, ltb, leb, ◌==◌, if◌then◌else◌, Bool-cases, Option-cases,
  length, get_elem?, set, take, drop, replicate, length-append, length-map, length-replicate,
  Listed, All, All-Listed, All-append, Result, ok, err, ◌>>=◌, ◌>>◌, >>=-eq-ok, Result-cases,
}
use skills_dashboard.Common.{
  ℤ, pos, negsuc, pos_part, neg_part, sub_ℕ, ◌+ℤ◌, ◌-ℤ◌, ◌≤ℤ◌, ◌<ℤ◌, ltb_ℤ, eqb_ℤ, +ℤ_parts,
  -ℤ_parts, eq_of_parts, part_cases, eqb_ℤ_eq, eqb_ℤ_refl, int_laws, floor_to, trunc_div,
}
use skills_dashboard.Text.{Text, text}

-- `Unit` of web/src/lib/types.ts.
pub data Measure : Type 0 where
  plain milliseconds seconds percent count per_second bytes connections : Measure

-- `variantDashes`
abbrev pub variant_dashes : List Text
variant_dashes = [] ∷ text "dashed" ∷ text "dotted" ∷ []

-- A null point is a gap.
abbrev pub Point : Type 0 → Type 0
Point V = Option V

pub record Series (V : Type 0) : Type 0 where
  pub label : Text
  pub measure : Measure
  pub color : Text
  pub dash : Text
  pub values : List (Point V)

-- `list[i]` where the index is known to be in range.
abbrev pub nth_or : Text → List Text → ℕ → Text
nth_or d [] i = d
nth_or d (x ∷ xs) zero = x
nth_or d (x ∷ xs) (suc i) = nth_or d xs i

unfoldable pub variant_dash : ℤ → Text
variant_dash i = nth_or [] variant_dashes (pos_part i % length variant_dashes)

module _ {V : Type 0} where
  -- The constructor: `n` gaps.
  unfoldable pub new_series : Text → Measure → Text → ℕ → Series V
  new_series label measure color n = record {
    label = label;
    measure = measure;
    color = color;
    dash = [];
    values = replicate n none;
  }

  -- A write by an index out of range is dropped.
  unfoldable pub set_at : Series V → ℤ → V → Series V
  set_at s (negsuc _) v = s
  set_at s (pos i) v =
      if leb (length s.values) i then s else record s { values = set s.values i (some v) }

  -- `values[i]`, which is `undefined` out of range; both read as a gap.
  abbrev pub point_at : List (Point V) → ℕ → Point V
  point_at [] i = none
  point_at (x ∷ xs) zero = x
  point_at (x ∷ xs) (suc i) = point_at xs i

  unfoldable pub add_at : (V → V → V) → Series V → ℤ → V → Series V
  add_at plus s (negsuc _) v = s
  add_at plus s (pos i) v = if leb (length s.values) i then s else record s {
    values =
        set s.values i
          (elim (point_at s.values i) [ none ↦ some v | some cur ↦ some (plus cur v) ]);
  }

  count_defined : ℕ → List (Point V) → ℕ
  count_defined n [] = n
  count_defined n (none ∷ vs) = count_defined n vs
  count_defined n (some v ∷ vs) = count_defined (n + 1) vs

  unfoldable pub defined : Series V → ℕ
  unfolding count_defined
  defined s = count_defined 0 s.values

  -- The loop of `reduce`.
  unfoldable pub reduce_from : (V → V → V) → Option V → List (Point V) → Option V
  reduce_from f acc [] = acc
  reduce_from f acc (none ∷ vs) = reduce_from f acc vs
  reduce_from f none (some v ∷ vs) = reduce_from f (some v) vs
  reduce_from f (some a) (some v ∷ vs) = reduce_from f (some (f a v)) vs

  -- `max`, `min` and `sum` are `reduce` by `Math.max`, by `Math.min` and by `+`.
  unfoldable pub reduce : (V → V → V) → Series V → Point V
  reduce f s = reduce_from f none s.values

  -- The loop of `avg`: the sum and the number of the samples.
  sum_and_count : (V → V → V) → V → ℕ → List (Point V) → V × ℕ
  sum_and_count plus sum n [] = (sum, n)
  sum_and_count plus sum n (none ∷ vs) = sum_and_count plus sum n vs
  sum_and_count plus sum n (some v ∷ vs) = sum_and_count plus (plus sum v) (n + 1) vs

  unfoldable pub avg : (V → V → V) → V → (V → ℕ → V) → Series V → Point V
  unfolding sum_and_count
  avg plus nought divide s =
      let total = sum_and_count plus nought 0 s.values in
      if total.1 == 0 then none else some (divide total.0 total.1)

  -- The loop of `last`, from index `i - 1` down.
  last_from : ℕ → List (Point V) → Point V
  last_from zero vs = none
  last_from (suc i) vs = elim (point_at vs i) [ some v ↦ some v | none ↦ last_from i vs ]

  unfoldable pub last : Series V → Point V
  unfolding last_from
  last s = last_from (length s.values) s.values
