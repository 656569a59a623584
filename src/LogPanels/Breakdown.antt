-- ===== src/LogPanels/Breakdown.antt =====
-- server/src/http/panels-logs.ts, `buildPodStatusBreakdownPanel`: the paths of each status code.
use skills_dashboard.Common.{
  ℕ, Bool, false, Option, none, some, List, [], ◌∷◌, ◌++◌, map, if◌then◌else◌, length, Result, ok,
  ◌>>=◌,
}
use skills_dashboard.Text.{Text, text, is_empty}
use skills_dashboard.TextMap.{get}
use skills_dashboard.Series.{Measure}
use skills_dashboard.Payload.{Panel, Column, new_table, new_panel, warn_panel}
use skills_dashboard.LogFormat.{LogFormat}
use skills_dashboard.Runner.{Query, QueryResult}
use skills_dashboard.Query.{QueryError}
use skills_dashboard.Query.Pods.{pod_bad_status_by_path}
use skills_dashboard.LogPanels.{
  Platform, words, number, Row, excluded_paths, LogSource, stat, push_stats, note_query_cost,
  note_query_errors, warn_if_truncated, rows_of,
}
use skills_dashboard.LogPanels.Runs.{LogRun}
use skills_dashboard.LogPanels.Tallies.{plain_column, copied, monospaced, number_column, hidden}
use skills_dashboard.LogPanels.Pivots.{StatusBucket, pivot_status_paths, top_paths_note}

abbrev bucket_columns : List Column
bucket_columns =
    monospaced (copied (plain_column (text "status") (text "코드")))
    ∷ number_column (plain_column (text "count") (text "건수"))
    ∷ number_column (plain_column (text "paths") (text "경로 종류"))
    ∷ monospaced (plain_column (text "timestamp") (text "마지막 발생"))
    ∷ hidden (monospaced (copied (plain_column (text "topPaths") (text "상위 경로"))))
    ∷ []

abbrev was_truncated : Option QueryResult → Bool
was_truncated none = false
was_truncated (some res) = res.truncated

module _ {V : Type 0} where
  unfoldable pub bucket_row : Platform V → ℕ → StatusBucket V → Row V
  unfolding top_paths_note
  bucket_row p top b =
      (text "status", words b.code)
      ∷ (text "count", number b.total)
      ∷ (text "paths", number (p.of_ℕ (length b.paths)))
      ∷ (text "timestamp", words b.last_ts)
      ∷ (text "topPaths", words (top_paths_note p top b))
      ∷ []

  unfoldable pub sum_buckets : Platform V → List (StatusBucket V) → V → V
  sum_buckets p [] total = total
  sum_buckets p (b ∷ bs) total = sum_buckets p bs (p.plus total b.total)

  -- `buildPodStatusBreakdownPanel` after its query.
  unfoldable pub breakdown_panel : Platform V → LogFormat → ℕ → LogSource → LogRun → Panel V (Row V)
  unfolding pivot_status_paths bucket_row sum_buckets get
  breakdown_panel p f top src run =
      let id : Text = text "pod.badStatus.byPath" in
      let noted : Panel V (Row V) = warn_if_truncated id run.results (
        note_query_errors src run.errors
          (new_panel (text "pod-status-breakdown") (text "응답 코드별 경로"))) in
      let buckets : List (StatusBucket V) = pivot_status_paths p (rows_of id run.results) in
      let rows : List (Row V) = map (bucket_row p top) buckets in
      let cut : Bool = was_truncated (get id run.results) in
      note_query_cost p
        (push_stats
          (record noted {
            table = some (new_table bucket_columns (some rows) (length rows) top);
            bars = some (record {
              key_column = text "status";
              value_column = text "count";
              group_column = none;
            });
          })
          (stat (text "pod.badStatus.codes") (text "코드 종류") (some (p.of_ℕ (length rows)))
              Measure.count
              (text "구간 내 관측된 비정상 응답 코드"
                ++ ((if cut then text " (결과 상한에 걸려 실제보다 적을 수 있음)" else []) ++ excluded_paths f))
              none
            ∷ stat (text "pod.badStatus.byPath.total") (text "비정상 응답")
                (some (sum_buckets p buckets p.nought)) Measure.count
                ((if cut
                    then text "코드 · 경로별 집계 합계 (결과 상한에 걸려 실제 이상)"
                    else text "코드 · 경로별 집계 합계 (전체)")
                  ++ excluded_paths f)
                none
            ∷ []))
        run.results

  unfoldable pub build_pod_status_breakdown_panel :
      Platform V
      → LogFormat
      → ℕ
      → LogSource
      → (Text → List Query → LogRun)
      → Result QueryError (Panel V (Row V))
  build_pod_status_breakdown_panel p f top src ask =
      if is_empty f.path_field
      then ok (
          warn_panel (new_panel (text "pod-status-breakdown") (text "응답 코드별 경로"))
            (text "경로 필드(pathField)가 설정되지 않아 코드별 경로를 집계할 수 없습니다."))
      else pod_bad_status_by_path f >>= λ by_path.
          ok (breakdown_panel p f top src (ask (text "pod-status-breakdown") (by_path ∷ [])))
