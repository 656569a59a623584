-- ===== src/Tests/Fetch.antt =====
-- Runs of server/src/aws/metrics.ts, and its properties at inputs.
use skills_dashboard.Fetch.{too_many_pages}
use skills_dashboard.Common.{
  ℕ, ◌+◌, ◌≡◌, refl, ap, ◌↔◌, Option, none, some, List, [], ◌∷◌, ◌++◌, map, arith, All, Result, ok,
  err,
}
use skills_dashboard.Common.{ℤ, pos, eqb_ℤ, floor_to, trunc_div}
use skills_dashboard.Text.{Text, text, join}
use skills_dashboard.Text.Decimal.{show}
use skills_dashboard.TextMap.{get, put}
use skills_dashboard.Series.{percent}
use skills_dashboard.Window.{Window, minute, align, period_seconds}
use skills_dashboard.Catalog.Search.{
  query_id, id_chars, search_expression, sort, insert, filter_terms, filter_term, expression,
  json_quote, json_chars,
}
use skills_dashboard.Metrics.{align_to_bucket, absorb, set_point}
use skills_dashboard.Fetch.{
  MetricRequest, MetricDataQuery, MetricDataResult, Page, Requests, Store, result_key, search,
  build, empty_store, series_for, add_points, label_of, add_result, absorb_for, absorb_result,
  absorb_results, max_pages,
}
use skills_dashboard.Fetch.Walk.{
  walk, fetch, fetch_chunk, fetch_chunks, reindex, index_all, index_ids, chunks,
}
use skills_dashboard.Fetch.Places.{series_of, keyed}
use skills_dashboard.Fetch.Listing.{first_names, gathered_series}
use skills_dashboard.Fetch.Collected.{Answers}
use skills_dashboard.Fetch.Pages.{heard, walk_iff}
use skills_dashboard.Fetch.Results.{fetch_iff, fetch-points}

program : Unit {0}
unfolding query_id id_chars search_expression sort insert filter_terms filter_term expression
    json_quote json_chars join show get put align period_seconds align_to_bucket absorb set_point
    result_key search build empty_store series_for add_points label_of add_result absorb_for
    absorb_result absorb_results walk fetch fetch_chunk fetch_chunks reindex index_all index_ids
    chunks heard floor_to trunc_div eqb_ℤ
program = tt

abbrev five : Window
five = record { start = pos 0; end = pos 300_000; range = 300_000; period = minute }

abbrev request : MetricRequest
request = record {
  key = none;
  spec = record {
    key = text "pod.cpu";
    label = text "CPU";
    namespace = text "ContainerInsights";
    metric_name = text "pod_cpu_utilization";
    stat = text "Average";
    measure = percent;
    color = text "systemIndigo";
    intent = none;
    dimensions = text "ClusterName" ∷ text "PodName" ∷ [];
  };
  filters = (text "ClusterName", text "prod") ∷ [];
}

abbrev query : MetricDataQuery
query = record {
  id = text "qpod_cpu";
  expression =
      text
        "SEARCH('{ContainerInsights,ClusterName,PodName} MetricName=\"pod_cpu_utilization\" ClusterName=\"prod\"', 'Average', 60)";
  period = 60;
}

built :
    build {E = Text} five (request ∷ []) [] [] ≡ ok ((text "qpod_cpu", request) ∷ [], query ∷ [])
unfolding program
built = refl

abbrev result : Text → List ℤ → List ℕ → MetricDataResult ℕ
result label stamps values = record {
  id = some (text "qpod_cpu");
  label = some label;
  stamps = stamps;
  values = values;
}

-- A service with two pages: `web-1` goes on over the page, `web-2` is on the second only.
abbrev two_pages : ℕ → List MetricDataQuery → Option Text → ℕ × Result Text (Page ℕ)
two_pages calls queries none = (
  calls + 1,
  ok (record {
    results = result (text "web-1") (pos 0 ∷ pos 60_000 ∷ []) (3 ∷ 4 ∷ []) ∷ [];
    next_token = some (text "more");
  }),
)
two_pages calls queries (some _) = (
  calls + 1,
  ok (record {
    results =
        result (text "web-1") (pos 120_000 ∷ []) (5 ∷ [])
        ∷ result (text "web-2") (pos 0 ∷ []) (9 ∷ [])
        ∷ [];
    next_token = none;
  }),
)

abbrev collected : Store ℕ
collected = record {
  heap =
      record {
        key = text "pod.cpu";
        label = text "web-1";
        points = (pos 0, 3) ∷ (pos 60, 4) ∷ (pos 120, 5) ∷ [];
      }
      ∷ record { key = text "pod.cpu"; label = text "web-2"; points = (pos 0, 9) ∷ [] }
      ∷ [];
  out = (text "pod.cpu", 0 ∷ 1 ∷ []) ∷ [];
  index = (text "pod.cpu" ++ 0 ∷ text "web-1", 0) ∷ (text "pod.cpu" ++ 0 ∷ text "web-2", 1) ∷ [];
}

fetched : fetch two_pages 500 five (request ∷ []) 0 ≡ (2, ok collected)
unfolding program
fetched = refl

-- A service that always has one page more.
abbrev endless : ℕ → List MetricDataQuery → Option Text → ℕ × Result Text (Page ℕ)
endless calls queries token =
    (calls + 1, ok (record { results = []; next_token = some (text "more") }))

gives_up : fetch endless 500 five (request ∷ []) 0 ≡ (20, err too_many_pages)
unfolding program
gives_up = refl

abbrev requests : Requests
requests = (text "qpod_cpu", request) ∷ []

fetch_iff_example :
    ((after : Store ℕ) × ((fetch two_pages 500 five (request ∷ []) 0).1 ≡ ok after)) ↔ (
      (rs : List (MetricDataResult ℕ)) × (heard two_pages max_pages (query ∷ []) none 0 ≡ some rs)
      × All (Answers requests) rs)
fetch_iff_example =
    fetch_iff two_pages 500 five (request ∷ []) 0 requests query [] built (omega arith)

fetch-points_example :
    (rs : List (MetricDataResult ℕ)) × (heard two_pages max_pages (query ∷ []) none 0 ≡ some rs)
    × (series_of (text "pod.cpu") collected
        ≡ keyed
            (text "pod.cpu")
            (map (gathered_series five requests rs) (first_names requests rs [])))
fetch-points_example =
    fetch-points two_pages (text "pod.cpu") 500 five (request ∷ []) 0 requests query [] collected
      built (omega arith) (ap (λ p. p.1) fetched)

walk_iff_example :
    ((walk two_pages 20 five requests (query ∷ []) none 0 empty_store).1 ≡ ok collected) ↔ (
      (rs : List (MetricDataResult ℕ)) × (heard two_pages 20 (query ∷ []) none 0 ≡ some rs)
      × (absorb_results {E = Text} five requests rs empty_store ≡ ok collected))
walk_iff_example = walk_iff two_pages 20 five requests (query ∷ []) none 0 empty_store collected
