-- ===== src/Tests/TimeRange.antt =====
-- Runs of web/src/lib/timerange.svelte.ts, and its properties at inputs.
use skills_dashboard.Common.{◌≡◌, refl, true, some}
use skills_dashboard.Common.{pos}
use skills_dashboard.Text.{text, includes}
use skills_dashboard.TimeRange.{
  TimeRange, fallback, new_time_range, find_range, is_valid, reconcile_period, set_range,
  set_period, restore_range, restore_period, restore_refresh, from_search_params,
}
use skills_dashboard.TimeRange.Valid.{Reach, here, step, sets_range, sets_period, Reach-is_valid}
use skills_dashboard.TimeRange.Server.{Resolves, is_valid-Resolves}

-- Four hours, then a period of an hour, then a quarter of an hour, which does not offer it.
abbrev narrowed : TimeRange
narrowed = set_range (text "15m") (set_period (text "1h") (set_range (text "4h") new_time_range))

narrowed_to : (narrowed.range ≡ text "15m") × (narrowed.period ≡ text "1m")
unfolding new_time_range find_range includes reconcile_period set_range set_period
narrowed_to = (refl, refl)

abbrev shared : TimeRange
shared = from_search_params (some (text "4h")) (some (text "2h")) (some 45) new_time_range

shared_is :
    (shared.range ≡ text "4h") × ((shared.period ≡ text "1m") × (shared.refresh_seconds ≡ 60))
unfolding new_time_range find_range includes reconcile_period restore_range restore_period
    restore_refresh from_search_params
shared_is = (refl, (refl, refl))

reaches_narrowed : Reach new_time_range narrowed
reaches_narrowed =
    step (step (step here (sets_range (text "4h"))) (sets_period (text "1h")))
      (sets_range (text "15m"))

Reach-is_valid_example : is_valid narrowed ≡ true
Reach-is_valid_example = Reach-is_valid narrowed reaches_narrowed

has_fallback : new_time_range.ranges ≡ fallback
unfolding new_time_range
has_fallback = refl

starts_valid : is_valid new_time_range ≡ true
unfolding new_time_range is_valid find_range includes
starts_valid = refl

is_valid-Resolves_example : Resolves (pos 90_061_000) new_time_range.range new_time_range.period
is_valid-Resolves_example =
    is_valid-Resolves (pos 90_061_000) new_time_range has_fallback starts_valid
