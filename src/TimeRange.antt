-- ===== src/TimeRange.antt =====
-- web/src/lib/timerange.svelte.ts: the time selection that every view of the browser shares.
pub mod Valid
pub mod Server
use skills_dashboard.Common.{
  ℕ, zero, suc, ◌+◌, ◌-◌, ◌*◌, ◌/◌, ◌%◌, ◌^◌, ◌≤◌, ◌<◌, min, ◌≡◌, refl, sym, ap, ◌∙◌, subst, ◌≢◌,
  ◌↔◌, ◌⊎◌, inl, inr, Bool, true, false, ◌&&◌, ◌||◌, not, Option, none, some, List, [], ◌∷◌, ◌++◌,
  map, append-nil, append_assoc, arith, ltb, leb, ◌==◌, if◌then◌else◌, Bool-cases, Option-cases,
  length, get_elem?, set, take, drop, replicate, length-append, length-map, length-replicate,
  Listed, All, All-Listed, All-append, Result, ok, err, ◌>>=◌, ◌>>◌, >>=-eq-ok, Result-cases,
}
use skills_dashboard.Text.{Text, text, text_eq, is_empty, includes}

-- One entry of `Meta['ranges']`, and what of `Meta` the selection reads.
pub record RangeChoice : Type 0 where
  pub range : Text
  pub seconds : ℕ
  pub periods : List Text
  pub default_period : Text

pub record Meta : Type 0 where
  pub ranges : List RangeChoice
  pub default_range : Text

abbrev pub max_range_seconds : ℕ
max_range_seconds = 14_400

abbrev choice : Text → ℕ → List Text → Text → RangeChoice
choice range seconds periods default_period = record {
  range = range;
  seconds = seconds;
  periods = periods;
  default_period = default_period;
}

-- `FALLBACK`
abbrev pub fallback : List RangeChoice
fallback =
    let one = text "1m" in
    let five = text "5m" in
    let ten = text "10m" in
    choice (text "15m") 900 (one ∷ []) one
    ∷ choice (text "30m") 1_800 (one ∷ five ∷ []) one
    ∷ choice (text "1h") 3_600 (one ∷ five ∷ ten ∷ []) one
    ∷ choice (text "2h") 7_200 (one ∷ five ∷ ten ∷ []) one
    ∷ choice (text "4h") 14_400 (one ∷ five ∷ ten ∷ text "1h" ∷ []) five
    ∷ []

abbrev pub default_refresh_seconds : ℕ
default_refresh_seconds = 60

-- The seconds of `REFRESH_CHOICES`.
abbrev pub refresh_choices : List ℕ
refresh_choices = 0 ∷ 30 ∷ 60 ∷ 300 ∷ []

pub record TimeRange : Type 0 where
  pub ranges : List RangeChoice
  pub range : Text
  pub period : Text
  pub refresh_seconds : ℕ
  pub nonce : ℕ

unfoldable pub new_time_range : TimeRange
new_time_range = record {
  ranges = fallback;
  range = text "1h";
  period = text "1m";
  refresh_seconds = default_refresh_seconds;
  nonce = 0;
}

-- `ranges.find((r) => r.range === range)`
unfoldable pub find_range : Text → List RangeChoice → Option RangeChoice
find_range a [] = none
find_range a (e ∷ es) = if text_eq e.range a then some e else find_range a es

abbrev pub is_found : Option RangeChoice → Bool
is_found none = false
is_found (some _) = true

abbrev pub periods_of : Option RangeChoice → List Text
periods_of none = text "1m" ∷ []
periods_of (some e) = e.periods

abbrev pub entry : TimeRange → Option RangeChoice
entry t = find_range t.range t.ranges

abbrev pub accepts : Option RangeChoice → Text → Bool
accepts none period = false
accepts (some e) period =
    if ltb max_range_seconds e.seconds then false else includes e.periods period

-- `isValid`
unfoldable pub is_valid : TimeRange → Bool
unfolding find_range includes
is_valid t = accepts (entry t) t.period

abbrev pub default_for : Option RangeChoice → Text
default_for none = text "1m"
default_for (some e) = e.default_period

unfoldable pub reconcile_period : TimeRange → TimeRange
unfolding find_range includes
reconcile_period t =
    if includes (periods_of (entry t)) t.period
    then t
    else record t { period = default_for (entry t) }

unfoldable pub within_cap : List RangeChoice → List RangeChoice
within_cap [] = []
within_cap (e ∷ es) =
    let rest = within_cap es in if leb e.seconds max_range_seconds then e ∷ rest else rest

unfoldable pub adopt : Meta → TimeRange → TimeRange
unfolding find_range within_cap
adopt m t =
    let s : TimeRange = record t { ranges = within_cap m.ranges } in
    if is_found (entry s) then s else record s { range = m.default_range }

unfoldable pub apply_meta : Meta → TimeRange → TimeRange
unfolding adopt reconcile_period
apply_meta m t = reconcile_period (adopt m t)

unfoldable pub set_range : Text → TimeRange → TimeRange
unfolding find_range reconcile_period
set_range range t =
    if is_found (find_range range t.ranges)
    then reconcile_period (record t { range = range })
    else t

unfoldable pub set_period : Text → TimeRange → TimeRange
unfolding find_range includes
set_period period t =
    if includes (periods_of (entry t)) period then record t { period = period } else t

unfoldable pub refresh : TimeRange → TimeRange
refresh t = record t { nonce = t.nonce + 1 }

abbrev holds_number : ℕ → List ℕ → Bool
holds_number n [] = false
holds_number n (m ∷ ms) = (m == n) || holds_number n ms

-- The three parts of `fromSearchParams`; a parameter that is missing is `none`, and so is a refresh
-- that is no whole number.
unfoldable pub restore_range : Option Text → TimeRange → TimeRange
unfolding find_range
restore_range none t = t
restore_range (some range) t =
    if not (is_empty range) && is_found (find_range range t.ranges)
    then record t { range = range }
    else t

unfoldable pub restore_period : Option Text → TimeRange → TimeRange
unfolding reconcile_period
restore_period none t = reconcile_period t
restore_period (some period) t =
    if not (is_empty period) && includes (periods_of (entry t)) period
    then record t { period = period }
    else reconcile_period t

unfoldable pub restore_refresh : Option ℕ → TimeRange → TimeRange
restore_refresh none t = record t { refresh_seconds = default_refresh_seconds }
restore_refresh (some n) t = record t {
  refresh_seconds = if holds_number n refresh_choices then n else default_refresh_seconds;
}

unfoldable pub from_search_params : Option Text → Option Text → Option ℕ → TimeRange → TimeRange
unfolding restore_range restore_period restore_refresh
from_search_params range period seconds t =
    restore_refresh seconds (restore_period period (restore_range range t))
