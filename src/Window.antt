-- ===== src/Window.antt =====
-- server/src/domain/window.ts: the one time window that all panels of a response share. Times are
-- epoch milliseconds; ranges and periods are numbers of milliseconds.
pub mod Bounds
pub mod Choices
pub mod Axis
pub mod Resolve
use skills_dashboard.Common.{
  Result, ok, err, ◌>>=◌, ◌>>◌, ℕ, zero, suc, ◌+◌, ◌-◌, ◌*◌, ◌/◌, ◌%◌, ◌^◌, ◌≤◌, ◌<◌, min, ◌≡◌,
  refl, sym, ap, ◌∙◌, subst, ◌≢◌, ◌↔◌, ◌⊎◌, inl, inr, Bool, true, false, ◌&&◌, ◌||◌, not, Option,
  none, some, List, [], ◌∷◌, ◌++◌, map, append-nil, append_assoc, arith, ltb, leb, ◌==◌,
  if◌then◌else◌, Bool-cases, Option-cases, length, get_elem?, set, take, drop, replicate,
  length-append, length-map, length-replicate,
}
use skills_dashboard.Common.{
  ℤ, pos, negsuc, pos_part, neg_part, sub_ℕ, ◌+ℤ◌, ◌-ℤ◌, ◌≤ℤ◌, ◌<ℤ◌, ltb_ℤ, eqb_ℤ, +ℤ_parts,
  -ℤ_parts, eq_of_parts, eqb_ℤ_eq, eqb_ℤ_refl, int_laws, floor_to, trunc_div,
}
use skills_dashboard.Text.{Text, text, text_eq, is_empty}
use skills_dashboard.Text.Decimal.{show}
use skills_dashboard.Duration.{exceeds, parse_go_duration}

abbrev pub minute : ℕ
minute = 60_000

abbrev pub hour : ℕ
hour = 60 * minute

abbrev pub max_range : ℕ
max_range = 4 * hour

abbrev pub min_buckets : ℕ
min_buckets = 4

abbrev pub max_buckets : ℕ
max_buckets = 250

abbrev pub range_1h : ℕ
range_1h = hour

abbrev pub period_1m : ℕ
period_1m = minute

abbrev pub all_ranges : List ℕ
all_ranges = (15 * minute) ∷ (30 * minute) ∷ hour ∷ (2 * hour) ∷ (4 * hour) ∷ []

abbrev pub all_periods : List ℕ
all_periods = minute ∷ (5 * minute) ∷ (10 * minute) ∷ hour ∷ []

-- `defaultPeriods`
abbrev pub default_periods : List (ℕ × ℕ)
default_periods =
    (15 * minute, minute)
    ∷ (30 * minute, minute)
    ∷ (hour, minute)
    ∷ (2 * hour, minute)
    ∷ (4 * hour, 5 * minute)
    ∷ []

-- What the functions of the file throw, with the values that the message shows.
pub data WindowError : Type 0 where
  unknown_range : Text → WindowError
  range_text_exceeds : Text → WindowError
  unsupported_range : Text → WindowError
  unsupported_period : Text → WindowError
  range_not_positive period_not_positive : WindowError
  range_exceeds : ℕ → WindowError
  too_few_buckets too_many_buckets : ℕ → ℕ → ℕ → WindowError
  uneven : ℕ → ℕ → WindowError

unfoldable pub compact_duration : ℕ → Text
unfolding show
compact_duration ms =
    if ms % hour == 0
    then show (ms / hour) ++ text "h"
    else (if ms % minute == 0 then show (ms / minute) ++ text "m" else show (ms / 1000) ++ text "s")

unfoldable pub period_seconds : ℕ → ℕ
period_seconds p = p / 1000

-- The first of a list that is spelled so: the loop of `parseRange` and `parsePeriod`.
unfoldable pub find_spelled : Text → List ℕ → Option ℕ
find_spelled s [] = none
find_spelled s (r ∷ rs) = if text_eq (compact_duration r) s then some r else find_spelled s rs

unfoldable pub parse_range : Text → Result WindowError ℕ
parse_range s = elim (find_spelled s all_ranges) [
  | some r ↦ ok r
  | none ↦ elim (parse_go_duration s) [
    | none ↦ err (unknown_range s)
    | some ns ↦
        if exceeds ns (max_range * 1_000_000)
        then err (range_text_exceeds s)
        else err (unsupported_range s)
  ]
]

unfoldable pub parse_period : Text → Result WindowError ℕ
parse_period s = elim (find_spelled s all_periods) [
  | some p ↦ ok p
  | none ↦ err (unsupported_period s)
]

unfoldable pub bucket_count : ℕ → ℕ → ℕ
bucket_count r p = if leb p 0 then 0 else r / p

-- The test of the filter in `periodsFor`.
unfoldable pub fits : ℕ → ℕ → Bool
unfolding bucket_count
fits r p = leb min_buckets (bucket_count r p) && leb (bucket_count r p) max_buckets

unfoldable pub filter_fits : ℕ → List ℕ → List ℕ
filter_fits r [] = []
filter_fits r (p ∷ ps) = let rest = filter_fits r ps in if fits r p then p ∷ rest else rest

unfoldable pub periods_for : ℕ → List ℕ
periods_for r = filter_fits r all_periods

-- `map.get(r)` of `defaultPeriods`
lookup : ℕ → List (ℕ × ℕ) → Option ℕ
lookup r [] = none
lookup r ((k, v) ∷ m) = if k == r then some v else lookup r m

last_or : ℕ → List ℕ → ℕ
last_or d [] = d
last_or d (x ∷ xs) = last_or x xs

unfoldable pub default_period : ℕ → ℕ
unfolding lookup last_or
default_period r = elim (lookup r default_periods) [
  | some p ↦ p
  | none ↦ last_or period_1m (periods_for r)
]

pub record Window : Type 0 where
  pub start : ℤ
  pub end : ℤ
  pub range : ℕ
  pub period : ℕ

unfoldable pub validate_window : ℕ → ℕ → Result WindowError (Unit {0})
unfolding bucket_count
validate_window r p =
    let n = bucket_count r p in
    if leb r 0
    then err range_not_positive
    else (if ltb max_range r
        then err (range_exceeds r)
        else (if leb p 0
            then err period_not_positive
            else (if ltb n min_buckets
                then err (too_few_buckets p r n)
                else (if ltb max_buckets n
                    then err (too_many_buckets p r n)
                    else (if not (r % p == 0) then err (uneven p r) else ok tt)))))

unfoldable pub new_window : ℤ → ℕ → ℕ → Result WindowError Window
new_window now r p = do
  validate_window r p
  let end = floor_to now p
  ok (record { start = end -ℤ pos r; end = end; range = r; period = p })

unfoldable pub buckets : Window → ℕ
buckets w = bucket_count w.range w.period

-- The loop of `timestamps` from index `i`, with `k` rounds left.
unfoldable pub axis : ℤ → ℕ → ℕ → ℕ → List ℤ
axis start step i zero = []
axis start step i (suc k) = (start +ℤ pos (i * step)) ∷ axis start step (i + 1) k

-- A period is whole seconds, so that `w.period / 1000` is exact.
unfoldable pub timestamps : Window → List ℤ
unfolding axis
timestamps w = axis (trunc_div w.start 1000) (w.period / 1000) 0 (buckets w)

unfoldable pub index_of : Window → ℤ → Option ℕ
index_of w t =
    if ltb_ℤ t w.start || not (ltb_ℤ t w.end)
    then none
    else some (pos_part (t -ℤ w.start) / w.period)

unfoldable pub contains : Window → ℤ → Bool
contains w t = elim (index_of w t) [ none ↦ false | some _ ↦ true ]

unfoldable pub align : Window → ℤ → ℤ
align w t = floor_to t w.period

unfoldable pub windows_equal : Window → Window → Bool
windows_equal a b = eqb_ℤ a.start b.start && eqb_ℤ a.end b.end && (a.period == b.period)

-- The two defaults of `resolveWindow`: an hour, and the default period of the range.
unfoldable pub chosen_range : Text → Result WindowError ℕ
chosen_range s = if is_empty s then ok range_1h else parse_range s

unfoldable pub chosen_period : ℕ → Text → Result WindowError ℕ
chosen_period r s = if is_empty s then ok (default_period r) else parse_period s

unfoldable pub resolve_window : ℤ → Text → Text → Result WindowError Window
resolve_window now range_text period_text = do
  r ← chosen_range range_text
  p ← chosen_period r period_text
  new_window now r p
