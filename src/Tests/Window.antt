-- ===== src/Tests/Window.antt =====
-- Runs of server/src/domain/window.ts.
use skills_dashboard.Common.{Listed, ◌↔◌, inl, inr, negsuc}
use skills_dashboard.Window.{all_ranges, all_periods}
use skills_dashboard.Window.Bounds.{IsValid, Covers}
use skills_dashboard.Window.Choices.{periods_for_iff}
use skills_dashboard.Window.Resolve.{resolve_window-IsValid}
use skills_dashboard.Window.Axis.{InBucket, index_of_iff}
use skills_dashboard.Window.{chosen_period}
use skills_dashboard.Window.{chosen_range}
use skills_dashboard.Common.{◌+ℤ◌}
use skills_dashboard.Common.{◌-ℤ◌}
use skills_dashboard.Common.{floor_to}
use skills_dashboard.Window.{timestamps}
use skills_dashboard.Window.{new_window}
use skills_dashboard.Window.{validate_window}
use skills_dashboard.Window.{periods_for}
use skills_dashboard.Common.{◌-◌, ◌*◌, ◌≡◌, refl, none, some, []}
use skills_dashboard.Common.{pos, negsuc}
use skills_dashboard.Text.{text}
use skills_dashboard.Duration.{parse_go_duration}
use skills_dashboard.Window.{
  parse_period, Window, parse_range, resolve_window, unknown_range, range_text_exceeds,
  unsupported_range, index_of, minute, hour, compact_duration, align, find_spelled, filter_fits,
  fits, buckets, default_period,
}
use skills_dashboard.Common.{ok, err}

program : Unit {0}
unfolding compact_duration find_spelled parse_range parse_period default_period periods_for
    filter_fits fits chosen_range chosen_period validate_window new_window resolve_window buckets
    index_of align timestamps floor_to ◌-ℤ◌ ◌+ℤ◌ parse_go_duration
program = tt

spelled : compact_duration (30 * minute) ≡ text "30m"
unfolding program
spelled = refl

ranges_read :
    (parse_range (text "4h") ≡ ok (4 * hour))
    × (parse_range (text "9h") ≡ err (range_text_exceeds (text "9h")))
    × (parse_range (text "1h30m") ≡ err (unsupported_range (text "1h30m")))
    × (parse_range (text "1.5h2") ≡ err (unknown_range (text "1.5h2")))
unfolding program
ranges_read = (refl, refl, refl, refl)

duration_read :
    parse_go_duration (text " 1.5ms ") ≡ some (record { digits = 15_000_000; places = 1 })
unfolding program
duration_read = refl

abbrev sample : Window
sample = record {
  start = pos (1_700_000_100_000 - 900_000);
  end = pos 1_700_000_100_000;
  range = 15 * minute;
  period = minute;
}

resolved : resolve_window (pos 1_700_000_123_456) (text "15m") [] ≡ ok sample
unfolding program
resolved = refl

points : (index_of sample (pos 1_699_999_260_000) ≡ some 1) × (index_of sample sample.end ≡ none)
unfolding program
points = (refl, refl)

before_epoch : align sample (negsuc 0) ≡ negsuc 59_999
unfolding program
before_epoch = refl

-- The properties at inputs that meet their hypotheses.
sample-IsValid : IsValid sample
sample-IsValid = (resolve_window-IsValid (pos 1_700_000_123_456) (text "15m") [] sample resolved).0

resolve_window-IsValid_example :
    IsValid sample
    × Covers sample (pos 1_700_000_123_456)
    × Listed sample.range all_ranges
    × Listed sample.period all_periods
resolve_window-IsValid_example =
    resolve_window-IsValid (pos 1_700_000_123_456) (text "15m") [] sample resolved

hour_window :
    new_window (pos 3_723_000) hour minute
    ≡ ok (record { start = pos 120_000; end = pos 3_720_000; range = hour; period = minute })
unfolding program
hour_window = refl

abbrev hour_sample : Window
hour_sample = record { start = pos 120_000; end = pos 3_720_000; range = hour; period = minute }

periods_for_iff_example :
    Listed (5 * minute) (periods_for hour)
    ↔ (Listed (5 * minute) all_periods × (validate_window hour (5 * minute) ≡ ok tt))
periods_for_iff_example = periods_for_iff hour (5 * minute) (inr (inr (inl refl)))

four_hours : chosen_range (text "4h") ≡ ok (4 * hour)
unfolding program
four_hours = refl

index_of_iff_example :
    (index_of sample (pos 1_699_999_260_000) ≡ some 1) ↔ InBucket sample (pos 1_699_999_260_000) 1
index_of_iff_example = index_of_iff sample sample-IsValid (pos 1_699_999_260_000) 1

second_bucket : index_of sample (pos 1_699_999_279_999) ≡ some 1
unfolding program
second_bucket = refl
