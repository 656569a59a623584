-- ===== src/Tests/Runner.antt =====
-- Runs of server/src/aws/insights.ts, `InsightsRunner`, and its properties at inputs.
use skills_dashboard.Common.{
  ℕ, ◌+◌, ◌≡◌, refl, ap, ◌≢◌, true, none, some, List, [], ◌∷◌, arith, ltb, if◌then◌else◌, ok, err,
}
use skills_dashboard.Common.{pos, trunc_div}
use skills_dashboard.Text.{Text, text}
use skills_dashboard.TextMap.{put}
use skills_dashboard.Window.{Window, minute}
use skills_dashboard.Runner.{
  Query, QueryResult, Answer, ResultField, complete, unfinished, aborted, out_of_rounds, Api,
  start_query, add_fields, build_rows, build_result, wait_round, on_status, on_reply, poll, finish,
  run_id, on_start, run_held,
}
use skills_dashboard.Runner.Answers.{Answered, run_held-Answered}
use skills_dashboard.Runner.Rounds.{run_held_ends}

program : Unit {0}
unfolding put start_query add_fields build_rows build_result wait_round on_status on_reply poll
    finish run_id on_start run_held trunc_div
program = tt

abbrev five : Window
five = record { start = pos 0; end = pos 300_000; range = 300_000; period = minute }

abbrev blocked : Query
blocked = record { id = text "waf"; words = text "stats count(*)"; limit = 1 }

abbrev row : List ResultField
row =
    record { field = some (text "path"); value = some (text "/a") }
    ∷ record { field = some (text "@ptr"); value = some (text "xyz") }
    ∷ record { field = some (text "n"); value = none }
    ∷ []

abbrev answer_at : ℕ → ℕ → Answer
answer_at ready t = record {
  status = if ltb t ready then unfinished else complete;
  results = row ∷ [];
  bytes_scanned = some 900;
  records_matched = none;
}

-- A service whose state is the clock, and whose query is complete from a time on.
abbrev service : ℕ → Api ℕ
service ready = record {
  start = λ t input. (t + 10, ok (some (text "q1")));
  results = λ t id. (t + 10, ok (answer_at ready t));
  stop = λ t id. t;
  now = λ t. t;
  wait = λ t ms. t + ms;
}

abbrev found : QueryResult
found = record {
  id = text "waf";
  rows = ((text "path", text "/a") ∷ (text "n", []) ∷ []) ∷ [];
  bytes_scanned = 900;
  records_matched = 0;
  truncated = true;
  elapsed = 540;
}

-- Two waits of 250, and three requests.
answered : run_held (service 500) 250 2_000 none (text "logs") five blocked 0 ≡ (540, ok found)
unfolding program
answered = refl

gives_up :
    run_held (service 9_000) 250 2_000 none (text "logs") five blocked 0
    ≡ (2_000, err (aborted (text "waf")))
unfolding program
gives_up = refl

run_held-Answered_example :
    (id : Text) × (((service 500).start 0 (start_query (text "logs") five blocked)).1
      ≡ ok (some id))
    × (id ≢ [])
    × ((made : QueryResult) × Answered (service 500) 250 id blocked made
        × (found ≡ record made { elapsed = 540 }))
run_held-Answered_example =
    run_held-Answered (service 500) 250 2_000 none (text "logs") five blocked 0 found
      (ap (λ p. p.1) answered)

run_held_ends_example :
    (run_held (service 9_000) 250 2_000 none (text "logs") five blocked 0).1 ≢ err out_of_rounds
run_held_ends_example =
    run_held_ends (service 9_000) 250 (λ s id. omega arith) (λ s ms. omega arith) 2_000 none
      (text "logs") five blocked 0 (omega arith) (λ u i. omega arith)
