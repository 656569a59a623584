-- ===== src/Tests/LogPanels.antt =====
-- Runs of server/src/http/panels-logs.ts on counts that are whole numbers.
use skills_dashboard.Common.{
  ℕ, ◌+◌, ◌*◌, ◌≡◌, refl, true, false, Option, none, some, List, [], ◌∷◌, map, arith, ltb,
  if◌then◌else◌, All, ok,
}
use skills_dashboard.Common.{ℤ, pos, ◌+ℤ◌, floor_to}
use skills_dashboard.Text.{Text, text, text_eq}
use skills_dashboard.Text.Decimal.{read, show}
use skills_dashboard.Window.{Window, index_of, minute}
use skills_dashboard.Window.Bounds.{IsValid}
use skills_dashboard.Payload.{Panel, new_payload, add_panels, validate_payload}
use skills_dashboard.LogPanels.Accepted.{status_codes}
use skills_dashboard.LogPanels.{cell_or, note_query_cost, note_query_errors}
use skills_dashboard.Payload.{new_panel}
use skills_dashboard.Runner.{QueryResult}
use skills_dashboard.LogFormat.{default_log_format}
use skills_dashboard.LogPanels.Status.{status_panel, build_pod_status_code_panel}
use skills_dashboard.Common.{false}
use skills_dashboard.Query.{not_configured, in_field}
use skills_dashboard.LogPanels.{Platform, LogRow, Row, LogSource, failed}
use skills_dashboard.Runner.{Query}
use skills_dashboard.Common.{Result, err, inl, inr}
use skills_dashboard.LogPanels.{failed}
use skills_dashboard.LogPanels.Runs.{Handed, load_run, run_log_queries}
use skills_dashboard.LogPanels.Answered.{Answered, run_log_queries-Answered}
use skills_dashboard.LogPanels.Rows.{is_decimal, iso_of}
use skills_dashboard.LogPanels.Status.{status_tally}
use skills_dashboard.LogPanels.Tallies.{sorted_series}
use skills_dashboard.LogPanels.Breakdown.{sum_buckets}
use skills_dashboard.LogPanels.Waf.{build_waf_blocked_panel}
use skills_dashboard.LogPanels.WafBreakdown.{error_words, path_key}
use skills_dashboard.LogPanels.Pivots.{pivot_status_paths, pivot_waf_actions, top_paths_note}
use skills_dashboard.LogPanels.Accepted.{Ask, waf_blocked, validate_payload-Built}
use skills_dashboard.LogPanels.Totals.{Exact, sum_list}
use skills_dashboard.LogPanels.Totals.Counted.{numbers, without_key}
use skills_dashboard.LogPanels.Totals.Buckets.{
  Balanced, pivot_waf_actions-Balanced, sum_buckets-pivot_status_paths,
}
use skills_dashboard.LogPanels.Totals.Charts.{line_sum, total-status_tally}

abbrev first_minute : Text → Option ℤ
first_minute t =
    if text_eq t (text "2023-11-14T22:01:30.000Z") then some (pos 1_699_999_290_000) else none

abbrev pub whole : Platform ℕ
whole = record {
  nought = 0;
  plus = λ a b. a + b;
  less = ltb;
  greater = λ a b. if ltb b a then a else b;
  trunc = λ a. a;
  of_ℕ = λ a. a;
  number = λ t. some (read t);
  print = show;
  date = first_minute;
  upper = λ t. t;
  lower = λ t. t;
}

whole-Exact : Exact whole
whole-Exact = record {
  assoc = λ a b c. omega arith;
  comm = λ a b. omega arith;
  unit = λ a. omega arith;
}

decimals :
    (is_decimal (text "-1.5e+3") ≡ true)
    × (is_decimal (text ".5") ≡ true)
    × (is_decimal (text "5.") ≡ true)
    × (is_decimal (text ".") ≡ false)
    × (is_decimal (text "1e") ≡ false)
    × (is_decimal (text "0x10") ≡ false)
unfolding is_decimal
decimals = (refl, refl, refl, refl, refl, refl)

times :
    (iso_of (text "2023-11-14 22:01:30.000") ≡ some (text "2023-11-14T22:01:30.000Z"))
    × (iso_of (text "2023-11-14T22:01:30+0900") ≡ some (text "2023-11-14T22:01:30+0900"))
    × (iso_of (text "2023-11-14") ≡ none)
    × (iso_of (text "2023-11-14T22:01:30.") ≡ none)
unfolding iso_of
times = (refl, refl, refl, refl)

abbrev window : Window
window = record {
  start = pos 1_699_999_200_000;
  end = pos 1_700_000_100_000;
  range = 15 * minute;
  period = minute;
}

window-IsValid : IsValid window
unfolding ◌+ℤ◌ floor_to
window-IsValid = record { compatible = omega arith; span = refl; aligned = refl }

abbrev entry : Text → Text → Text → LogRow
entry t status n =
    (text "t", t) ∷ (text "status", status) ∷ (text "path", text "/a") ∷ (text "n", n) ∷ []

abbrev entries : List LogRow
entries =
    entry (text "2023-11-14 22:01:30.000") (text "503") (text "7")
    ∷ entry (text "2023-11-14 22:01:30.000") (text "404") (text "2")
    ∷ entry (text "later") (text "503") (text "100")
    ∷ entry (text "2023-11-14 22:01:30.000") (text "503") (text "many")
    ∷ []

counted_in_window : (status_tally whole window entries).total ≡ 9
unfolding status_tally index_of read
counted_in_window = refl

total-status_tally_example :
    sum_list whole whole-Exact
      (line_sum whole whole-Exact)
      (sorted_series (status_tally whole window entries).by_key)
    ≡ (status_tally whole window entries).total
total-status_tally_example = total-status_tally whole whole-Exact window entries window-IsValid

sum_buckets-pivot_status_paths_example :
    sum_buckets whole (pivot_status_paths whole entries) 0 ≡ numbers whole entries
sum_buckets-pivot_status_paths_example = sum_buckets-pivot_status_paths whole whole-Exact entries

most_first : map (λ b. b.code) (pivot_status_paths whole entries) ≡ text "503" ∷ text "404" ∷ []
unfolding pivot_status_paths read cell_or
most_first = refl

notes :
    (top_paths_note whole 1 (record {
      code = text "503";
      total = 9;
      last_ts = [];
      paths = record { path = text "/a"; n = 7 } ∷ record { path = text "/b"; n = 2 } ∷ [];
    })
      ≡ text "/a (7건) · 외 1개")
    × (error_words (in_field (text "pathField") not_configured)
        ≡ text "pathField: field is not configured")
unfolding top_paths_note error_words show
notes = (refl, refl)

abbrev hit : Text → Text → Text → LogRow
hit uri action n =
    (text "uri", uri) ∷ (text "action", action) ∷ (text "n", n) ∷ (text "lastTs", n) ∷ []

abbrev hits : List LogRow
hits =
    hit (text "/a") (text "ALLOW") (text "7")
    ∷ hit (text "/a") (text "BLOCK") (text "2")
    ∷ hit (text "/a") (text "CAPTCHA") (text "1")
    ∷ hit [] (text "BLOCK") (text "4")
    ∷ []

columns :
    pivot_waf_actions whole path_key hits
    ≡ record {
      key = text "/a";
      allow = 7;
      block = 2;
      other = 1;
      total = 10;
      last_action = text "ALLOW";
      last_ts = text "7";
    }
      ∷ []
unfolding pivot_waf_actions path_key read
columns = refl

pivot_waf_actions-Balanced_example :
    (sum_list whole whole-Exact (λ b. b.total) (pivot_waf_actions whole path_key hits)
        + numbers whole (without_key path_key hits)
      ≡ numbers whole hits)
    × All (Balanced whole whole-Exact) (pivot_waf_actions whole path_key hits)
pivot_waf_actions-Balanced_example = pivot_waf_actions-Balanced whole whole-Exact path_key hits

abbrev source : LogSource
source = record {
  has_runner = true;
  region = text "us-east-1";
  group = text "aws-waf-logs-x";
  missing = text "no group";
}

-- A group that the queries do not find.
abbrev denied : Ask
denied name queries = record {
  results = [];
  errors = (text "waf.blocked", failed (text "denied")) ∷ [];
}

abbrev blocked : Panel ℕ (Row ℕ)
blocked = build_waf_blocked_panel whole 10 source denied

warned : blocked.warnings ≡ text "waf.blocked 쿼리 실패 (us-east-1): denied" ∷ []
unfolding build_waf_blocked_panel note_query_cost note_query_errors new_panel
warned = refl

-- Counts that come back for both queries.
abbrev answer : Text → QueryResult
answer id = record {
  id = id;
  rows = entries;
  bytes_scanned = 4096;
  records_matched = 4;
  truncated = false;
  elapsed = 0;
}

abbrev answered : Ask
answered name queries = record {
  results =
      (text "pod.badStatus.series", answer (text "pod.badStatus.series"))
      ∷ (text "pod.badStatus.list", answer (text "pod.badStatus.list"))
      ∷ [];
  errors = [];
}

abbrev status_codes_shown : Panel ℕ (Row ℕ)
status_codes_shown =
    status_panel whole default_log_format window 10 source (answered (text "pod-status-codes") [])

shown :
    build_pod_status_code_panel whole default_log_format window 10 source answered
    ≡ ok status_codes_shown
unfolding build_pod_status_code_panel default_log_format
shown = refl

validate_payload-Built_example :
    validate_payload (add_panels (new_payload window) (status_codes_shown ∷ blocked ∷ [])) ≡ ok tt
validate_payload-Built_example =
    validate_payload-Built whole window (status_codes_shown ∷ blocked ∷ []) window-IsValid (
      status_codes default_log_format 10 source answered shown,
      (waf_blocked 10 source denied refl, tt),
    )

-- The cache loads; the second of two queries fails.
abbrev one : Query
one = record { id = text "a"; words = text "stats"; limit = 1 }

abbrev two : Query
two = record { id = text "b"; words = text "fields"; limit = 2 }

abbrev half : Query → Result Text QueryResult
half q = if text_eq q.id (text "a") then ok (answer q.id) else err (text "throttled")

abbrev loads : Text → Handed
loads key = load_run half (one ∷ two ∷ []) (two ∷ one ∷ [])

half_failed :
    (run_log_queries (λ t. t) loads source window (text "x") (one ∷ two ∷ [])).errors
    ≡ (text "b", failed (text "throttled")) ∷ []
unfolding run_log_queries load_run
half_failed = refl

run_log_queries-Answered_example :
    Answered (run_log_queries (λ t. t) loads source window (text "x") (one ∷ two ∷ [])) (text "b")
run_log_queries-Answered_example =
    run_log_queries-Answered (λ t. t) loads source window (text "x") half (one ∷ two ∷ [])
      (two ∷ one ∷ []) two (inl refl) (inr (inl refl)) (inl refl)
