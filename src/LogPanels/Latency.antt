-- ===== src/LogPanels/Latency.antt =====
-- server/src/http/panels-logs.ts, `buildPodLatencyPanel`: the latency of each application.
use skills_dashboard.Common.{ℕ, Option, none, some, List, [], ◌∷◌, ◌++◌, map, Result, ok, ◌>>=◌}
use skills_dashboard.Common.{pos}
use skills_dashboard.Text.{Text, text}
use skills_dashboard.TextMap.{get, put}
use skills_dashboard.Catalog.Search.{sort}
use skills_dashboard.Window.{Window, buckets}
use skills_dashboard.Series.{Series, Point, Measure, new_series, set_at, add_at, reduce}
use skills_dashboard.Payload.{Panel, new_panel}
use skills_dashboard.LogFormat.{LogFormat}
use skills_dashboard.Runner.{Query, QueryResult}
use skills_dashboard.Query.{QueryError}
use skills_dashboard.Query.Pods.{pod_traffic}
use skills_dashboard.LogPanels.{
  Platform, LogRow, Row, cell_or, excluded_paths, LogSource, stat, push_stats, note_query_cost,
  note_query_errors,
}
use skills_dashboard.LogPanels.Rows.{row_float, row_bucket}
use skills_dashboard.LogPanels.Runs.{LogRun}
use skills_dashboard.LogPanels.Tallies.{or_new}

-- The lines of one application.
pub record AppSeries (V : Type 0) : Type 0 where
  pub p50 : Series V
  pub p90 : Series V
  pub p99 : Series V
  pub requests : Series V

pub record Latencies (V : Type 0) : Type 0 where
  pub apps : List (Text × AppSeries V)
  pub total_requests : V
  pub total_samples : V

abbrev pub app_of : LogRow → Text
app_of row = cell_or (text "app") (text "(unknown)") row

module _ {V : Type 0} where
  unfoldable pub new_app : Window → Text → AppSeries V
  new_app w app = record {
    p50 = new_series (app ++ text " · p50") Measure.milliseconds (text "systemTeal") (buckets w);
    p90 = new_series (app ++ text " · p90") Measure.milliseconds (text "systemBlue") (buckets w);
    p99 = new_series (app ++ text " · p99") Measure.milliseconds (text "systemIndigo") (buckets w);
    requests = new_series (app ++ text " · 요청 수") Measure.count (text "systemGray") (buckets w);
  }

  abbrev pub set_if : Series V → ℕ → Option V → Series V
  set_if s i none = s
  set_if s i (some v) = set_at s (pos i) v

  abbrev pub add_if : Platform V → Series V → ℕ → Option V → Series V
  add_if p s i none = s
  add_if p s i (some v) = add_at p.plus s (pos i) v

  abbrev plus_if : Platform V → V → Option V → V
  plus_if p t none = t
  plus_if p t (some v) = p.plus t v

  unfoldable pub add_app : Platform V → LogRow → ℕ → AppSeries V → AppSeries V
  unfolding row_float
  add_app p row i a = record {
    p50 = set_if a.p50 i (row_float p row (text "p50"));
    p90 = set_if a.p90 i (row_float p row (text "p90"));
    p99 = set_if a.p99 i (row_float p row (text "p99"));
    requests = add_if p a.requests i (row_float p row (text "requests"));
  }

  unfoldable pub latency_row : Platform V → Window → LogRow → Latencies V → Latencies V
  unfolding row_bucket row_float new_app add_app get put
  latency_row p w row t = elim (row_bucket p w row) [
    | none ↦ t
    | some i ↦ record {
      apps =
          put (app_of row)
            (add_app p row i (or_new (new_app w (app_of row)) (get (app_of row) t.apps))) t.apps;
      total_requests = plus_if p t.total_requests (row_float p row (text "requests"));
      total_samples = plus_if p t.total_samples (row_float p row (text "latencySamples"));
    }
  ]

  unfoldable pub latency_rows : Platform V → Window → List LogRow → Latencies V → Latencies V
  unfolding latency_row
  latency_rows p w [] t = t
  latency_rows p w (row ∷ rows) t = latency_rows p w rows (latency_row p w row t)

  -- The applications in the order of a list.
  unfoldable pub pick_apps : List (Text × AppSeries V) → List Text → List (AppSeries V)
  unfolding get
  pick_apps m [] = []
  pick_apps m (k ∷ ks) = elim (get k m) [ none ↦ pick_apps m ks | some a ↦ a ∷ pick_apps m ks ]

  unfoldable pub app_lines : List (AppSeries V) → List (Series V)
  app_lines [] = []
  app_lines (a ∷ rest) = a.p50 ∷ a.p90 ∷ a.p99 ∷ a.requests ∷ app_lines rest

  -- `reduceAcross`
  unfoldable pub reduce_across :
      (Series V → Point V) → (V → V → V) → Option V → List (Series V) → Point V
  reduce_across f choose acc [] = acc
  reduce_across f choose acc (s ∷ ss) =
      reduce_across f choose
        (elim (f s) [
          | none ↦ acc
          | some v ↦ elim acc [ none ↦ some v | some a ↦ some (choose a v) ]
        ])
        ss

  -- `buildPodLatencyPanel` with a result.
  unfoldable pub latency_panel :
      Platform V
      → LogFormat
      → Window
      → Panel V (Row V)
      → List (Text × QueryResult)
      → QueryResult
      → Panel V (Row V)
  unfolding latency_rows pick_apps app_lines reduce_across reduce sort
  latency_panel p f w noted results res =
      let t : Latencies V =
        latency_rows p w res.rows
          (record { apps = []; total_requests = p.nought; total_samples = p.nought }) in
      let apps : List (AppSeries V) = pick_apps t.apps (sort (map (λ e. e.0) t.apps)) in
      note_query_cost p
        (push_stats (record noted { series = noted.series ++ app_lines apps })
          (stat (text "pod.p99.max") (text "최대 p99")
              (reduce_across (λ s. reduce p.greater s) p.greater none (map (λ a. a.p99) apps))
              Measure.milliseconds (f.latency_field ++ (text " 가 있는 요청, 구간 전체" ++ excluded_paths f))
              none
            ∷ stat (text "pod.requests.total") (text "요청 수") (some t.total_requests) Measure.count
                (f.status_field ++ (text " 가 있는 로그 라인" ++ excluded_paths f)) none
            ∷ stat (text "pod.latencySamples.total") (text "응답 시간 표본 수") (some t.total_samples)
                Measure.count (f.latency_field ++ (text " 가 있는 로그 라인" ++ excluded_paths f)) none
            ∷ []))
        results

  unfoldable pub build_pod_latency_panel :
      Platform V
      → LogFormat
      → Window
      → LogSource
      → (Text → List Query → LogRun)
      → Result QueryError (Panel V (Row V))
  build_pod_latency_panel p f w src ask = do
    traffic ← pod_traffic f w
    let run : LogRun = ask (text "pod-latency") (traffic ∷ [])
    let noted : Panel V (Row V) =
        note_query_errors src run.errors (new_panel (text "pod-latency") (text "팟 응답 시간"))
    elim (get (text "pod.traffic") run.results) [
      | none ↦ ok noted
      | some res ↦ ok (latency_panel p f w noted run.results res)
    ]
