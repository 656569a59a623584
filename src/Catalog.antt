-- ===== src/Catalog.antt =====
-- server/src/domain/catalog.ts: every CloudWatch metric that the dashboard knows, with the statistic,
-- unit and colour it is read with.
pub mod Specs
pub mod Search
pub mod Order
pub mod Terms
pub mod Quoting
pub mod Ids
pub mod Accepts
use skills_dashboard.Common.{
  ℕ, zero, suc, ◌+◌, ◌-◌, ◌*◌, ◌/◌, ◌%◌, ◌^◌, ◌≤◌, ◌<◌, min, ◌≡◌, refl, sym, ap, ◌∙◌, subst, ◌≢◌,
  ◌↔◌, ◌⊎◌, inl, inr, Bool, true, false, ◌&&◌, ◌||◌, not, Option, none, some, List, [], ◌∷◌, ◌++◌,
  map, append-nil, append_assoc, arith, ltb, leb, ◌==◌, if◌then◌else◌, Bool-cases, Option-cases,
  length, get_elem?, set, take, drop, replicate, length-append, length-map, length-replicate,
  Listed, All, All-Listed, All-append, Result, ok, err, ◌>>=◌, ◌>>◌, >>=-eq-ok, Result-cases,
}
use skills_dashboard.Common.{ℤ, pos_part}
use skills_dashboard.Text.{Text, text, starts_with}
use skills_dashboard.Series.{Measure, seconds, count, percent, connections, milliseconds, nth_or}
use skills_dashboard.Payload.{Intent, good, warn, bad}

pub record MetricSpec : Type 0 where
  pub key : Text
  pub label : Text
  pub namespace : Text
  pub metric_name : Text
  pub stat : Text
  pub measure : Measure
  pub color : Text
  pub intent : Option Intent
  pub dimensions : List Text

abbrev pub ns_application_elb : Text
ns_application_elb = text "AWS/ApplicationELB"

abbrev pub ns_container : Text
ns_container = text "ContainerInsights"

abbrev pub ns_rds : Text
ns_rds = text "AWS/RDS"

abbrev pub ns_waf_v2 : Text
ns_waf_v2 = text "AWS/WAFV2"

abbrev pub stat_sum : Text
stat_sum = text "Sum"

abbrev pub stat_avg : Text
stat_avg = text "Average"

abbrev pub stat_max : Text
stat_max = text "Maximum"

abbrev pub stat_min : Text
stat_min = text "Minimum"

abbrev pub stat_p50 : Text
stat_p50 = text "p50"

abbrev pub stat_p90 : Text
stat_p90 = text "p90"

abbrev pub stat_p99 : Text
stat_p99 = text "p99"

abbrev pub color_blue : Text
color_blue = text "systemBlue"

abbrev pub color_green : Text
color_green = text "systemGreen"

abbrev pub color_indigo : Text
color_indigo = text "systemIndigo"

abbrev pub color_orange : Text
color_orange = text "systemOrange"

abbrev pub color_pink : Text
color_pink = text "systemPink"

abbrev pub color_purple : Text
color_purple = text "systemPurple"

abbrev pub color_red : Text
color_red = text "systemRed"

abbrev pub color_teal : Text
color_teal = text "systemTeal"

abbrev pub color_yellow : Text
color_yellow = text "systemYellow"

abbrev pub color_mint : Text
color_mint = text "systemMint"

abbrev pub color_gray : Text
color_gray = text "systemGray"

-- `subjectPalette`
abbrev pub subject_palette : List Text
subject_palette =
    color_blue ∷ color_orange ∷ color_green ∷ color_pink ∷ color_purple ∷ color_yellow ∷ color_teal
    ∷ color_red ∷ color_indigo ∷ color_mint ∷ []

unfoldable pub subject_color : ℤ → Text
subject_color i = nth_or [] subject_palette (pos_part i % length subject_palette)
