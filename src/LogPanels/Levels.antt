-- ===== src/LogPanels/Levels.antt =====
-- server/src/http/panels-logs.ts, `buildPodErrorPanel`: the lines of level error and warn.
use skills_dashboard.Common.{
  ℕ, none, some, List, [], ◌∷◌, ◌++◌, map, if◌then◌else◌, length, Result, ok, ◌>>=◌,
}
use skills_dashboard.Common.{pos}
use skills_dashboard.Text.{Text, text, text_eq}
use skills_dashboard.Window.{Window, buckets}
use skills_dashboard.Series.{Series, Measure, new_series, add_at}
use skills_dashboard.Payload.{Panel, Column, Intent, new_table, new_panel}
use skills_dashboard.LogFormat.{LogFormat}
use skills_dashboard.Runner.{Query}
use skills_dashboard.Query.{QueryError}
use skills_dashboard.Query.Pods.{pod_error_series, pod_error_list}
use skills_dashboard.LogPanels.{
  Platform, LogRow, words, Row, cell, cell_or, excluded_paths, honest_total, LogSource, stat,
  push_stats, note_query_cost, note_query_errors, rows_of,
}
use skills_dashboard.LogPanels.Rows.{row_float, row_bucket}
use skills_dashboard.LogPanels.Runs.{LogRun}
use skills_dashboard.LogPanels.Tallies.{plain_column, copied, monospaced}

-- The two series and their totals.
pub record Levels (V : Type 0) : Type 0 where
  pub errors : Series V
  pub warns : Series V
  pub error_total : V
  pub warn_total : V

abbrev line_columns : List Column
line_columns =
    monospaced (plain_column (text "timestamp") (text "시각"))
    ∷ copied (plain_column (text "container") (text "컨테이너"))
    ∷ monospaced (copied (plain_column (text "pod") (text "팟")))
    ∷ monospaced (copied (plain_column (text "message") (text "메시지")))
    ∷ []

module _ {V : Type 0} where
  unfoldable pub level_row : Platform V → Window → LogRow → Levels V → Levels V
  unfolding row_bucket row_float cell add_at
  level_row p w row t = elim (row_bucket p w row) [
    | none ↦ t
    | some i ↦ elim (row_float p row (text "n")) [
      | none ↦ t
      | some n ↦
          if text_eq (p.lower (cell (text "level") row)) (text "warn")
          then record t {
            warns = add_at p.plus t.warns (pos i) n;
            warn_total = p.plus t.warn_total n;
          }
          else record t {
            errors = add_at p.plus t.errors (pos i) n;
            error_total = p.plus t.error_total n;
          }
    ]
  ]

  unfoldable pub level_rows : Platform V → Window → List LogRow → Levels V → Levels V
  unfolding level_row
  level_rows p w [] t = t
  level_rows p w (row ∷ rows) t = level_rows p w rows (level_row p w row t)

  unfoldable pub no_levels : Platform V → Window → Levels V
  no_levels p w = record {
    errors = new_series (text "error") Measure.count (text "systemRed") (buckets w);
    warns = new_series (text "warn") Measure.count (text "systemOrange") (buckets w);
    error_total = p.nought;
    warn_total = p.nought;
  }

  unfoldable pub line_row : LogRow → Row V
  unfolding cell cell_or
  line_row r =
      (text "timestamp", words (cell (text "@timestamp") r))
      ∷ (text "pod", words (cell (text "pod") r))
      ∷ (text "container", words (cell (text "container") r))
      ∷ (text "message", words (cell_or (text "dashboardMessage") (cell (text "@message") r) r))
      ∷ []

  -- `buildPodErrorPanel` after its queries.
  unfoldable pub error_panel :
      Platform V → LogFormat → Window → ℕ → LogSource → LogRun → Panel V (Row V)
  unfolding level_rows no_levels line_row
  error_panel p f w limit src run =
      let noted : Panel V (Row V) =
        note_query_errors src run.errors (new_panel (text "pod-errors") (text "ERROR · WARN 로그")) in
      let t : Levels V =
        level_rows p w (rows_of (text "pod.errors.series") run.results) (no_levels p w) in
      let rows : List (Row V) = map line_row (rows_of (text "pod.errors.list") run.results) in
      note_query_cost p
        (push_stats
          (record noted {
            series = noted.series ++ (t.errors ∷ t.warns ∷ []);
            table = some (
                new_table line_columns (some rows)
                  (honest_total (p.trunc (p.plus t.error_total t.warn_total)) (length rows)) limit);
          })
          (stat (text "pod.error.total") (text "ERROR") (some t.error_total) Measure.count
              (text "level 또는 메시지 패턴이 error 계열 (집계 전체)" ++ excluded_paths f) (some Intent.bad)
            ∷ stat (text "pod.warn.total") (text "WARN") (some t.warn_total) Measure.count
                (text "level 또는 메시지 패턴이 warn 계열 (집계 전체)" ++ excluded_paths f) (some Intent.warn)
            ∷ []))
        run.results

  unfoldable pub build_pod_error_panel :
      Platform V
      → LogFormat
      → Window
      → ℕ
      → LogSource
      → (Text → List Query → LogRun)
      → Result QueryError (Panel V (Row V))
  unfolding pod_error_series pod_error_list error_panel
  build_pod_error_panel p f w limit src ask = do
    series ← pod_error_series f w
    list ← pod_error_list f limit
    ok (error_panel p f w limit src (ask (text "pod-errors") (series ∷ list ∷ [])))
