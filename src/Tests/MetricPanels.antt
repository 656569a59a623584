-- ===== src/Tests/MetricPanels.antt =====
-- Runs of server/src/http/panels-metrics.ts on whole numbers.
use skills_dashboard.Common.{
  ℕ, ◌+◌, ◌*◌, ◌/◌, ◌≡◌, refl, none, some, List, [], ◌∷◌, map, arith, ltb, if◌then◌else◌, length,
  Result, ok, err,
}
use mathlib.Core.List.{Perm}
use mathlib.Core.List.Perm
use skills_dashboard.Common.{pos, ◌+ℤ◌, floor_to}
use skills_dashboard.Common.{eqb_ℤ, trunc_div}
use skills_dashboard.Metrics.{project, fill_at, get_point}
use skills_dashboard.Window.{timestamps, bucket_count, period_seconds}
use skills_dashboard.Series.{new_series, set_at}
use skills_dashboard.MetricPanels.Grouped.{build_target_group_panel, max_across, sum_across}
use skills_dashboard.Common.{Result, err, length}
use skills_dashboard.Text.{Text, text}
use skills_dashboard.Catalog.{MetricSpec, ns_application_elb, stat_sum, color_red}
use skills_dashboard.Config.{Config, default_config}
use skills_dashboard.Window.{Window, buckets, minute}
use skills_dashboard.Window.Bounds.{IsValid}
use skills_dashboard.Series.{Series, Measure, point_at, reduce_from}
use skills_dashboard.Payload.{Panel, new_payload, add_panels, validate_payload, new_panel}
use skills_dashboard.Fetch.{MetricSeries, MetricRequest}
use skills_dashboard.LogPanels.{Row}
use skills_dashboard.MetricPanels.{
  Arithmetic, PanelError, line_for, plain_style, to_series_list, sum_series, last_segment_name,
  metric_cache_key,
}
use skills_dashboard.MetricPanels.Grouped.{Ask, build_target_group_panel}
use skills_dashboard.MetricPanels.Order.{
  InOrder, StandsBefore, to_series_list-Perm, metric_cache_key-Perm,
}
use skills_dashboard.MetricPanels.Sums.{point_at-sum_series}
use skills_dashboard.MetricPanels.Accepted.{target_groups, validate_payload-Shown}

abbrev pub counting : Arithmetic ℕ
counting = record {
  nought = 0;
  plus = λ a b. a + b;
  less = ltb;
  greater = λ a b. if ltb b a then a else b;
  lesser = λ a b. if ltb a b then a else b;
  share = λ a b. a * 100 / (a + b);
}

abbrev window : Window
window = record {
  start = pos 1_699_999_200_000;
  end = pos 1_700_000_100_000;
  range = 15 * minute;
  period = minute;
}

window-IsValid : IsValid window
unfolding ◌+ℤ◌ floor_to
window-IsValid = record { compatible = omega arith; span = refl; aligned = refl }

abbrev requests : MetricSpec
requests = record {
  key = text "tg.requests";
  label = text "요청 수";
  namespace = ns_application_elb;
  metric_name = text "RequestCount";
  stat = stat_sum;
  measure = Measure.count;
  color = color_red;
  intent = none;
  dimensions = [];
}

abbrev series_of : Text → ℕ → MetricSeries ℕ
series_of label n = record {
  key = text "tg.requests|a";
  label = label;
  points = (pos 1_699_999_200, n) ∷ (pos 1_699_999_260, 1) ∷ [];
}

abbrev three : List (MetricSeries ℕ)
three =
    series_of (text "quiet") 2
    ∷ record { key = text "tg.requests|a"; label = text "none"; points = [] }
    ∷ series_of (text "busy") 7
    ∷ []

program : Unit {0}
unfolding to_series_list reduce_from project timestamps buckets bucket_count fill_at get_point
    new_series eqb_ℤ ◌+ℤ◌ trunc_div set_at sum_series line_for period_seconds metric_cache_key
    build_target_group_panel default_config max_across sum_across
program = tt

in_order :
    map
      (λ s. s.label)
      (to_series_list counting window three requests (λ m. m.label) (plain_style requests))
    ≡ text "busy" ∷ text "quiet" ∷ text "none" ∷ []
unfolding program
in_order = refl

to_series_list-Perm_example :
    Perm
      (to_series_list counting window three requests (λ m. m.label) (plain_style requests))
      (map (line_for window requests (λ m. m.label) (plain_style requests)) three)
    × InOrder
        (StandsBefore counting)
        (to_series_list counting window three requests (λ m. m.label) (plain_style requests))
to_series_list-Perm_example =
    to_series_list-Perm counting window three requests (λ m. m.label) (plain_style requests)
      (λ a b h. ground arith)

abbrev lines : List (Series ℕ)
lines = map (line_for window requests (λ m. m.label) (plain_style requests)) three

point_at-sum_series_example :
    point_at (sum_series (λ a b. a + b) window lines (text "all") Measure.count color_red).values 0
    ≡ reduce_from (λ a b. a + b) none (map (λ s. point_at s.values 0) lines)
unfolding program
point_at-sum_series_example =
    point_at-sum_series (λ a b. a + b) window lines (text "all") Measure.count color_red 0
      (omega arith)

summed :
    point_at (sum_series (λ a b. a + b) window lines (text "all") Measure.count color_red).values 0
    ≡ some 9
unfolding program
summed = refl

abbrev asked : MetricRequest
asked = record {
  key = none;
  spec = requests;
  filters = (text "B", text "2") ∷ (text "A", text "1") ∷ [];
}

abbrev other : MetricRequest
other = record { key = some (text "k"); spec = requests; filters = [] }

key_words :
    metric_cache_key (text "x") window (asked ∷ other ∷ [])
    ≡ text "metrics|x|1699999200|1700000100|60|k@Sum{}|tg.requests@Sum{A=1;B=2;}"
unfolding program
key_words = refl

metric_cache_key-Perm_example :
    metric_cache_key (text "x") window (asked ∷ other ∷ [])
    ≡ metric_cache_key (text "x") window (other ∷ asked ∷ [])
metric_cache_key-Perm_example =
    metric_cache_key-Perm (text "x") window (asked ∷ other ∷ []) (other ∷ asked ∷ [])
      (Perm.swap other asked [])

abbrev answered : Ask ℕ
answered name reqs = ok ((text "tg.requests|targetgroup/a/1", three) ∷ [])

abbrev chosen : Config
chosen = record default_config { target_groups = text "targetgroup/a/1" ∷ [] }

named : last_segment_name (text "targetgroup/k8s-a/1") ≡ text "k8s-a"
unfolding last_segment_name
named = refl

-- The panel, or an empty one.
abbrev panel_or_none : Result PanelError (Panel ℕ (Row ℕ)) → Panel ℕ (Row ℕ)
panel_or_none (ok panel) = panel
panel_or_none (err e) = new_panel [] []

abbrev shown : Panel ℕ (Row ℕ)
shown = panel_or_none (build_target_group_panel counting chosen window answered)

shown_built : build_target_group_panel counting chosen window answered ≡ ok shown
unfolding program
shown_built = refl

counted :
    (length shown.series ≡ 3) × (map (λ s. s.value) shown.stats ≡ none ∷ none ∷ none ∷ some 11 ∷ [])
unfolding program
counted = (refl, refl)

validate_payload-Shown_example :
    validate_payload (add_panels (new_payload window) (shown ∷ [])) ≡ ok tt
validate_payload-Shown_example =
    validate_payload-Shown counting window (shown ∷ []) window-IsValid
      (target_groups chosen answered shown_built, tt)
