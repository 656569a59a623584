-- ===== src/LogPanels/Status.antt =====
-- server/src/http/panels-logs.ts, `buildPodStatusCodePanel`: the responses that are not in order.
use skills_dashboard.Common.{
  ℕ, some, List, [], ◌∷◌, ◌++◌, map, if◌then◌else◌, length, Result, ok, ◌>>=◌,
}
use skills_dashboard.LogPanels.Tallies.{
  plain_column, copied, monospaced, number_column, hidden, Tally, tally, sorted_series,
}
use skills_dashboard.Common.{
  ℕ, some, List, [], ◌∷◌, ◌++◌, map, if◌then◌else◌, length, Result, ok, ◌>>=◌,
}
use skills_dashboard.Text.{Text, text, is_empty, starts_with, join}
use skills_dashboard.Window.{Window, buckets}
use skills_dashboard.Series.{Series, Measure, new_series}
use skills_dashboard.Payload.{Panel, Column, Intent, new_table, new_panel}
use skills_dashboard.LogFormat.{LogFormat}
use skills_dashboard.Runner.{Query}
use skills_dashboard.Query.{show_all, QueryError}
use skills_dashboard.Query.Pods.{pod_bad_status_series, pod_bad_status_list}
use skills_dashboard.LogPanels.{
  Platform, LogRow, Cell, words, Row, cell, cell_or, excluded_paths, honest_total, LogSource, stat,
  push_stats, note_query_cost, note_query_errors, warn_if_truncated, rows_of,
}
use skills_dashboard.LogPanels.Runs.{LogRun}

-- `statusColor`
unfoldable pub status_color : Text → Text
unfolding starts_with
status_color code =
    if starts_with (text "5") code
    then text "systemRed"
    else if starts_with (text "4") code
    then text "systemOrange"
    else if starts_with (text "3") code
    then text "systemYellow"
    else text "systemGray"

abbrev pub status_columns : LogFormat → List Column
status_columns f =
    monospaced (plain_column (text "timestamp") (text "시각"))
    ∷ number_column (copied (plain_column (text "status") (text "코드")))
    ∷ plain_column (text "method") (text "메소드")
    ∷ monospaced (copied (plain_column (text "target") (text "요청 대상")))
    ∷ record (number_column (plain_column (text "latencyMs") (text "응답 시간"))) {
      measure = some Measure.milliseconds;
    }
    ∷ copied (plain_column (text "app") (text "앱"))
    ∷ monospaced (copied (plain_column (text "pod") (text "팟")))
    ∷ monospaced (copied (plain_column (text "clientIp") (text "클라이언트 IP")))
    ∷ hidden (monospaced (copied (plain_column (text "container") (text "컨테이너"))))
    ∷ hidden (monospaced (copied (plain_column (text "namespace") (text "네임스페이스"))))
    ∷ (if is_empty f.user_agent_field
        then []
        else hidden (monospaced (copied (plain_column (text "userAgent") (text "User-Agent"))))
          ∷ [])

abbrev pub status_code : LogRow → Text
status_code row = cell_or (text "status") (text "(none)") row

module _ {V : Type 0} where
  abbrev status_cell : LogRow → Text → Text → Text × Cell V
  status_cell r key field = (key, words (cell field r))

  unfoldable pub status_row : LogRow → Row V
  unfolding cell
  status_row r =
      status_cell r (text "timestamp") (text "@timestamp")
      ∷ status_cell r (text "app") (text "app")
      ∷ status_cell r (text "pod") (text "pod")
      ∷ status_cell r (text "container") (text "container")
      ∷ status_cell r (text "namespace") (text "namespace")
      ∷ status_cell r (text "method") (text "method")
      ∷ status_cell r (text "path") (text "path")
      ∷ status_cell r (text "target") (text "requestTarget")
      ∷ status_cell r (text "status") (text "status")
      ∷ status_cell r (text "latencyMs") (text "latencyMs")
      ∷ status_cell r (text "clientIp") (text "clientIp")
      ∷ status_cell r (text "userAgent") (text "userAgent")
      ∷ []

  abbrev pub status_series : Window → Text → Series V
  status_series w code = new_series code Measure.count (status_color code) (buckets w)

  -- The counts of the time series of `buildPodStatusCodePanel`.
  unfoldable pub status_tally : Platform V → Window → List LogRow → Tally V
  unfolding tally
  status_tally p w rows =
      tally p w status_code (status_series w) rows (record { by_key = []; total = p.nought })

  -- `buildPodStatusCodePanel` after its queries.
  unfoldable pub status_panel :
      Platform V → LogFormat → Window → ℕ → LogSource → LogRun → Panel V (Row V)
  unfolding status_tally sorted_series
  status_panel p f w limit src run =
      let series_id : Text = text "pod.badStatus.series" in
      let noted : Panel V (Row V) = warn_if_truncated series_id run.results (
        note_query_errors src run.errors
          (new_panel (text "pod-status-codes") (text "비정상 응답 코드"))) in
      let t : Tally V = status_tally p w (rows_of series_id run.results) in
      let rows : List (Row V) = map status_row (rows_of (text "pod.badStatus.list") run.results) in
      note_query_cost p
        (push_stats
          (record noted {
            series = noted.series ++ sorted_series t.by_key;
            table = some (
                new_table (status_columns f) (some rows)
                  (honest_total (p.trunc t.total) (length rows)) limit);
          })
          (stat (text "pod.badStatus.total") (text "비정상 응답") (some t.total) Measure.count
              (text "상태 코드가 "
                ++ (join (text ", ") (show_all f.ok_statuses)
                    ++ (text " 가 아닌 요청 (집계 전체)" ++ excluded_paths f)))
              (some Intent.bad)
            ∷ []))
        run.results

  -- `buildPodStatusCodePanel`; `ask` runs a set of queries under a name.
  unfoldable pub build_pod_status_code_panel :
      Platform V
      → LogFormat
      → Window
      → ℕ
      → LogSource
      → (Text → List Query → LogRun)
      → Result QueryError (Panel V (Row V))
  unfolding pod_bad_status_series pod_bad_status_list status_panel
  build_pod_status_code_panel p f w limit src ask = do
    series ← pod_bad_status_series f w
    list ← pod_bad_status_list f limit
    ok (status_panel p f w limit src (ask (text "pod-status-codes") (series ∷ list ∷ [])))
