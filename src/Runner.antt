-- ===== src/Runner.antt =====
-- server/src/aws/insights.ts, `InsightsRunner`: one query, from its start to its result. The service
-- and the clock are a parameter, over a state `S` of both.
pub mod Answers
pub mod Rounds
use skills_dashboard.Common.{
  ℕ, zero, suc, ◌+◌, ◌-◌, ◌*◌, ◌/◌, ◌%◌, ◌^◌, ◌≤◌, ◌<◌, min, ◌≡◌, refl, sym, ap, ◌∙◌, subst, ◌≢◌,
  ◌↔◌, ◌⊎◌, inl, inr, Bool, true, false, ◌&&◌, ◌||◌, not, Option, none, some, List, [], ◌∷◌, ◌++◌,
  map, append-nil, append_assoc, arith, ltb, leb, ◌==◌, if◌then◌else◌, Bool-cases, Option-cases,
  length, get_elem?, set, take, drop, replicate, length-append, length-map, length-replicate,
  Listed, All, All-Listed, All-append, Result, ok, err, ◌>>=◌, ◌>>◌, >>=-eq-ok, Result-cases,
}
use skills_dashboard.Text.{Text, text, text_eq, is_empty}
use skills_dashboard.Common.{
  ℤ, pos, negsuc, pos_part, neg_part, sub_ℕ, ◌+ℤ◌, ◌-ℤ◌, ◌≤ℤ◌, ◌<ℤ◌, ltb_ℤ, eqb_ℤ, +ℤ_parts,
  -ℤ_parts, eq_of_parts, part_cases, eqb_ℤ_eq, eqb_ℤ_refl, int_laws, floor_to, trunc_div,
}
use skills_dashboard.TextMap.{put}
use skills_dashboard.Window.{Window}

pub record Query : Type 0 where
  pub id : Text
  pub words : Text
  pub limit : ℕ

pub record QueryResult : Type 0 where
  pub id : Text
  pub rows : List (List (Text × Text))
  pub bytes_scanned : ℕ
  pub records_matched : ℕ
  pub truncated : Bool
  pub elapsed : ℕ

abbrev pub insights_max_rows : ℕ
insights_max_rows = 10_000

-- What CloudWatch answers: the state of the query, and its rows and statistics so far.
pub data Status : Type 0 where
  complete failed cancelled timed_out unfinished : Status

pub record ResultField : Type 0 where
  pub field : Option Text
  pub value : Option Text

pub record Answer : Type 0 where
  pub status : Status
  pub results : List (List ResultField)
  pub bytes_scanned : Option ℕ
  pub records_matched : Option ℕ

pub data RunError : Type 0 where
  start_failed : Text → Text → RunError
  no_query_id : Text → RunError
  results_failed : Text → Text → RunError
  query_failed query_cancelled query_timed_out : Text → RunError
  aborted : Text → RunError
  out_of_rounds : RunError

abbrev or_empty : Option Text → Text
or_empty none = []
or_empty (some s) = s

abbrev or_zero : Option ℕ → ℕ
or_zero none = 0
or_zero (some n) = n

-- The loop over the fields of a row.
unfoldable pub add_fields : List ResultField → List (Text × Text) → List (Text × Text)
unfolding put
add_fields [] m = m
add_fields (f ∷ fs) m =
    let kept = add_fields fs (put (or_empty f.field) (or_empty f.value) m) in
    let skipped = add_fields fs m in
    if text_eq (or_empty f.field) (text "@ptr") then skipped else kept

unfoldable pub build_rows : List (List ResultField) → List (List (Text × Text))
unfolding add_fields
build_rows [] = []
build_rows (row ∷ rows) = add_fields row [] ∷ build_rows rows

-- The limit that a query runs under.
abbrev pub effective_limit : Query → ℕ
effective_limit q =
    if leb q.limit 0 || ltb insights_max_rows q.limit then insights_max_rows else q.limit

unfoldable pub build_result : Query → Answer → QueryResult
unfolding build_rows
build_result q a = record {
  id = q.id;
  rows = build_rows a.results;
  bytes_scanned = or_zero a.bytes_scanned;
  records_matched = or_zero a.records_matched;
  truncated = leb (effective_limit q) (length (build_rows a.results));
  elapsed = 0;
}

-- The input of `StartQueryCommand`; times are in seconds, and no limit is sent for 0.
pub record StartQuery : Type 0 where
  pub log_group : Text
  pub start_time : ℤ
  pub end_time : ℤ
  pub query_string : Text
  pub limit : Option ℕ

unfoldable pub start_query : Text → Window → Query → StartQuery
start_query log_group w q = record {
  log_group = log_group;
  start_time = trunc_div w.start 1000;
  end_time = trunc_div w.end 1000;
  query_string = q.words;
  limit = if ltb 0 q.limit then some q.limit else none;
}

-- The calls of CloudWatch, and the clock: `wait` lets the time pass that it is given.
pub record Api (S : Type 0) : Type 0 where
  pub start : S → StartQuery → S × Result Text (Option Text)
  pub results : S → Text → S × Result Text Answer
  pub stop : S → Text → S
  pub now : S → ℕ
  pub wait : S → ℕ → S

module _ {S : Type 0} (api : Api S) (interval deadline : ℕ) where
  -- `wait`, and the next round `rest` if the signal does not abort before the timer ends.
  -- `deadline` is the time at which the signal aborts.
  unfoldable pub wait_round :
      Query → S → S × Result RunError QueryResult → S × Result RunError QueryResult
  wait_round q s rest =
      if leb deadline (api.now s + interval)
      then (api.wait s (deadline - api.now s), err (aborted q.id))
      else rest

  -- The switch on the status of an answer.
  unfoldable pub on_status :
      Query
      → Answer
      → S
      → S × Result RunError QueryResult
      → Status
      → S × Result RunError QueryResult
  unfolding build_result wait_round
  on_status q a s rest complete = (s, ok (build_result q a))
  on_status q a s rest failed = (s, err (query_failed q.id))
  on_status q a s rest cancelled = (s, err (query_cancelled q.id))
  on_status q a s rest timed_out = (s, err (query_timed_out q.id))
  on_status q a s rest unfinished = wait_round q s rest

  unfoldable pub on_reply :
      Query
      → S
      → S × Result RunError QueryResult
      → Result Text Answer
      → S × Result RunError QueryResult
  unfolding on_status
  on_reply q s rest (err e) = (s, err (results_failed q.id e))
  on_reply q s rest (ok a) = on_status q a s rest a.status

  unfoldable pub poll : ℕ → Text → Query → S → S × Result RunError QueryResult
  unfolding on_reply
  poll zero id q s = (s, err out_of_rounds)
  poll (suc n) id q s =
      let reply = api.results s id in
      let rest = poll n id q (api.wait reply.0 interval) in on_reply q reply.0 rest reply.1

module _ {S : Type 0} (api : Api S) (interval timeout : ℕ) where
  -- The time at which the bounded signal of a query that starts now aborts: that of the caller, if
  -- it aborts, or the timeout.
  abbrev pub deadline_of : Option ℕ → ℕ → ℕ
  deadline_of none started = started + timeout
  deadline_of (some t) started = min t (started + timeout)

  -- Rounds that are enough for the timeout.
  abbrev pub rounds : ℕ
  rounds = suc (timeout / interval + 1)

  -- The end of `runHeld`: the time is noted on a result, and a query that failed is stopped.
  unfoldable pub finish :
      ℕ → Text → S × Result RunError QueryResult → S × Result RunError QueryResult
  finish started id (s, ok r) = (s, ok (record r { elapsed = api.now s - started }))
  finish started id (s, err e) = (api.stop s id, err e)

  unfoldable pub run_id : Option ℕ → ℕ → Query → Text → S → S × Result RunError QueryResult
  unfolding poll finish
  run_id signal started q id s =
      let ended =
        finish started id (poll api interval (deadline_of signal started) rounds id q s) in
      if is_empty id then (s, err (no_query_id q.id)) else ended

  -- What follows the answer to `StartQuery`.
  unfoldable pub on_start :
      Option ℕ → ℕ → Query → S → Result Text (Option Text) → S × Result RunError QueryResult
  unfolding run_id
  on_start signal started q s (err e) = (s, err (start_failed q.id e))
  on_start signal started q s (ok o) = run_id signal started q (or_empty o) s

  unfoldable pub run_held : Option ℕ → Text → Window → Query → S → S × Result RunError QueryResult
  unfolding on_start start_query
  run_held signal log_group w q s =
      let begun = api.start s (start_query log_group w q) in
      on_start signal (api.now s) q begun.0 begun.1
