-- ===== src/LogPanels/Runs.antt =====
-- server/src/http/panels-logs.ts, `runLogQueries`, and `runAll` of server/src/aws/insights.ts: a set of
-- queries behind the cache. The digest of a text is an argument.
use skills_dashboard.Common.{
  suc, ◌&&◌, ◌||◌, not, List, [], ◌∷◌, ◌++◌, ltb, ◌==◌, if◌then◌else◌, length, Result, ok, err,
}
use skills_dashboard.Common.{ℤ, pos, negsuc, trunc_div}
use skills_dashboard.Text.{Text, text, is_empty, join}
use skills_dashboard.TextMap.{put}
use skills_dashboard.Text.Decimal.{show}
use skills_dashboard.Catalog.Search.{sort}
use skills_dashboard.Window.{Window, period_seconds}
use skills_dashboard.Runner.{Query, QueryResult}
use skills_dashboard.LogPanels.{LogSource, LogError, no_log_group, failed}

pub record LogRun : Type 0 where
  pub results : List (Text × QueryResult)
  pub errors : List (Text × LogError)

abbrev pub empty_run : LogRun
empty_run = record { results = []; errors = [] }

-- One query of `runAll` ends.
unfoldable pub record_outcome : Query → Result Text QueryResult → LogRun → LogRun
unfolding put
record_outcome q (ok r) run = record run { results = put q.id r run.results }
record_outcome q (err message) run = record run { errors = put q.id (failed message) run.errors }

-- `runAll`, with the queries in the order in which they end and what each of them ends with.
unfoldable pub run_all : (Query → Result Text QueryResult) → List Query → LogRun → LogRun
unfolding record_outcome
run_all outcome [] run = run
run_all outcome (q ∷ qs) run = run_all outcome qs (record_outcome q (outcome q) run)

unfoldable pub show_int : ℤ → Text
unfolding show
show_int (pos n) = show n
show_int (negsuc n) = b'-' ∷ show (suc n)

unfoldable pub query_keys : (Text → Text) → List Query → List Text
unfolding show
query_keys digest [] = []
query_keys digest (q ∷ qs) =
    (q.id ++ (b':' ∷ (show q.limit ++ (b':' ∷ digest q.words)))) ∷ query_keys digest qs

-- The key under which a set of queries is kept.
unfoldable pub run_key : (Text → Text) → LogSource → Window → Text → List Query → Text
unfolding show show_int query_keys sort join
run_key digest src w name queries = join (text "|") (
    text "logs"
    ∷ name
    ∷ src.region
    ∷ src.group
    ∷ show_int (trunc_div w.start 1000)
    ∷ show_int (trunc_div w.end 1000)
    ∷ show (period_seconds w.period)
    ∷ join (text ",") (sort (query_keys digest queries))
    ∷ [])

-- What the cache hands out: a run, the signal that nothing came back, or another failure.
pub data Handed : Type 0 where
  returned : LogRun → Handed
  all_failed : LogRun → Handed
  threw : Text → Handed

-- The load that the cache makes.
unfoldable pub load_run : (Query → Result Text QueryResult) → List Query → List Query → Handed
unfolding run_all
load_run outcome queries order =
    let run : LogRun = run_all outcome order empty_run in
    if ltb 0 (length queries) && (length run.errors == length queries)
    then all_failed run
    else returned run

-- The same error for every query.
unfoldable pub all_errors : LogError → List Query → List (Text × LogError) → List (Text × LogError)
unfolding put
all_errors e [] errors = errors
all_errors e (q ∷ qs) errors = all_errors e qs (put q.id e errors)

-- `handed` is what the cache settles with for a key.
unfoldable pub run_log_queries :
    (Text → Text) → (Text → Handed) → LogSource → Window → Text → List Query → LogRun
unfolding all_errors run_key
run_log_queries digest handed src w name queries =
    if is_empty src.group || not src.has_runner
    then record { results = []; errors = all_errors no_log_group queries [] }
    else elim (handed (run_key digest src w name queries)) [
      | returned run ↦ run
      | all_failed run ↦ run
      | threw e ↦ record { results = []; errors = all_errors (failed e) queries [] }
    ]
