-- ===== src/Tests/Pages.antt =====
-- Runs of server/src/http/panels.ts.
use skills_dashboard.Common.{
  ℕ, ◌-◌, ◌*◌, ◌≡◌, refl, true, false, some, List, [], ◌∷◌, length, ok, err,
}
use skills_dashboard.Common.{pos, ◌+ℤ◌, ◌-ℤ◌, floor_to}
use skills_dashboard.Payload.{Panel}
use skills_dashboard.LogPanels.{Row}
use skills_dashboard.Pages.Answers.{ShowsAll, in_time}
use skills_dashboard.Text.{Text, text}
use skills_dashboard.TextMap.{get}
use skills_dashboard.Duration.{parse_go_duration}
use skills_dashboard.Window.{
  Window, minute, resolve_window, chosen_range, chosen_period, parse_range, parse_period,
  compact_duration, find_spelled, default_period, periods_for, filter_fits, fits, validate_window,
  new_window,
}
use skills_dashboard.Config.{Config, default_config}
use skills_dashboard.Payload.{new_payload, add_panels}
use skills_dashboard.LogPanels.Runs.{empty_run}
use skills_dashboard.MetricPanels.{not_fetched}
use skills_dashboard.Pages.{
  Engine, Request, answered, panel_builders, pages, build_panels, handle_page,
}
use skills_dashboard.Requests.{Connection, is_namespace, request_config}
use skills_dashboard.Pages.Answers.{handle_page-answered, length-build_panels}
use skills_dashboard.Tests.LogPanels.{whole}
use skills_dashboard.Tests.MetricPanels.{counting}

-- No query and no request for metrics succeeds.
abbrev engine : Engine ℕ
engine = record {
  platform = whole;
  arithmetic = counting;
  ask_logs = λ src w name queries. empty_run;
  ask_metrics = λ w name reqs. err (not_fetched (text "denied"));
  scaling = λ cluster. err (text "denied");
}

abbrev conn : Connection
conn = record {
  has_insights = true;
  has_insights_global = false;
  region = text "ap-northeast-2";
  waf_region = text "us-east-1";
}

abbrev request : Request
request = record {
  id = text "kubernetes";
  range = text "15m";
  period = [];
  namespace = some (text " web ");
  left = false;
  aborted = λ id. false;
  aborted_first = false;
}

abbrev saved : Config
saved = record default_config { cluster_name = text "c" }

abbrev asked : Config
asked = record saved { log_format = record saved.log_format { namespace = text "web" } }

abbrev sample : Window
sample = record {
  start = pos (1_700_000_100_000 - 900_000);
  end = pos 1_700_000_100_000;
  range = 15 * minute;
  period = minute;
}

abbrev kubernetes : List Text
kubernetes =
    text "pod-cpu"
    ∷ text "pod-mem"
    ∷ text "node-cpu"
    ∷ text "node-mem"
    ∷ text "node-disk"
    ∷ text "counts"
    ∷ text "pod-status"
    ∷ []

program : Unit {0}
unfolding compact_duration find_spelled parse_range parse_period default_period periods_for
    filter_fits fits chosen_range chosen_period validate_window new_window resolve_window floor_to
    ◌-ℤ◌ ◌+ℤ◌ parse_go_duration request_config pages get default_config
program = tt

namespaces :
    (is_namespace (text "a-1") ≡ true)
    × (is_namespace (text "a-") ≡ false)
    × (is_namespace (text "A") ≡ false)
    × (is_namespace [] ≡ false)
unfolding is_namespace
namespaces = (refl, refl, refl, refl)

resolved : resolve_window (pos 1_700_000_123_456) (text "15m") [] ≡ ok sample
unfolding program
resolved = refl

page_found : get (text "kubernetes") pages ≡ some kubernetes
unfolding program
page_found = refl

config_found : request_config saved (some (text " web ")) ≡ ok asked
unfolding program
config_found = refl

handle_page-answered_example :
    (panels : List (Panel ℕ (Row ℕ))) × (handle_page engine
        (ok conn)
        (pos 1_700_000_123_456)
        saved
        request
      ≡ answered (add_panels (new_payload sample) panels))
    × ShowsAll engine conn sample asked (in_time engine conn request kubernetes) panels
handle_page-answered_example =
    handle_page-answered engine conn (pos 1_700_000_123_456) saved request kubernetes sample asked
      page_found resolved config_found refl

length-build_panels_example :
    length (build_panels (panel_builders engine conn) request sample asked kubernetes)
    ≡ length kubernetes
length-build_panels_example =
    length-build_panels engine conn request sample asked kubernetes page_found refl (λ id. refl)
