-- ===== src/LogPanels/Fits/Waf.antt =====
-- server/src/http/panels-logs.ts: the panels of the WAF, and the breakdowns, have tables that count and a
-- value for each bucket in every series.
use skills_dashboard.Common.{ℕ, inl, inr, Option, List, [], ◌∷◌, map, Option-cases}
use skills_dashboard.Text.{Text, text}
use skills_dashboard.TextMap.{get}
use skills_dashboard.Catalog.Search.{sort}
use skills_dashboard.Window.{Window, buckets}
use skills_dashboard.Series.{Series, Measure, new_series}
use skills_dashboard.Payload.{Panel, new_panel}
use skills_dashboard.Payload.Checks.{IsAligned}
use skills_dashboard.LogFormat.{LogFormat}
use skills_dashboard.Runner.{Query, QueryResult}
use skills_dashboard.LogPanels.{
  Platform, LogRow, Row, LogSource, rows_of, note_query_errors, warn_if_truncated,
}
use skills_dashboard.LogPanels.Rows.{row_float, row_bucket}
use skills_dashboard.LogPanels.Runs.{LogRun}
use skills_dashboard.LogPanels.Tallies.{or_new}
use skills_dashboard.LogPanels.Tallies.{pick}
use skills_dashboard.LogPanels.Waf.{
  Traffic, traffic_row, traffic_rows, traffic_panel, action_label, waf_action_color,
  build_waf_blocked_panel,
}
use skills_dashboard.LogPanels.Fits.{
  Values, put-Values, or_new-Values, new_series-IsAligned, Fits, note_query_errors-Fits,
  warn_if_truncated-Fits, note_query_cost-Fits, table-Counts, add_at-IsAligned, pick-All,
  new_panel-Fits, closing-Fits,
}
use skills_dashboard.Payload.{Table, Stat, Bars}
use skills_dashboard.Payload.Checks.{TableCounts}
use skills_dashboard.LogPanels.{note_query_cost, push_stats}
use skills_dashboard.LogPanels.Fits.{rows-Counts}
use skills_dashboard.Query.Waf.{waf_blocked}
use skills_dashboard.LogPanels.Breakdown.{breakdown_panel}
use skills_dashboard.LogPanels.WafBreakdown.{HeaderQueries, waf_breakdown_panel}

module _ {V : Type 0} where
  traffic_row-Values :
      (p : Platform V) (w : Window) (row : LogRow) (t : Traffic V)
      → Values (IsAligned (buckets w)) t.by_action
      → Values (IsAligned (buckets w)) (traffic_row p w row t).by_action
  unfolding traffic_row
  traffic_row-Values p w row t v = elim (Option-cases (row_bucket p w row)) [
    | inl e ↦ rw (traffic_row, e) v
    | inr (i, e) ↦ elim (Option-cases (row_float p row (text "n"))) [
      | inl f ↦ rw (traffic_row, e, f) v
      | inr (x, f) ↦
          let n : ℕ = buckets w in
          let action : Text = action_label row in
          let start : Series V =
            new_series action Measure.count (waf_action_color (p.upper action)) n in
          rw (traffic_row, e, f)
            (put-Values (IsAligned n) action _ t.by_action
              (add_at-IsAligned p.plus n (or_new start (get action t.by_action)) i x (
                or_new-Values (IsAligned n) action start t.by_action
                  (new_series-IsAligned V action Measure.count (waf_action_color (p.upper action))
                    n)
                  v))
              v)
    ]
  ]

  traffic_rows-Values :
      (p : Platform V) (w : Window) (rows : List LogRow) (t : Traffic V)
      → Values (IsAligned (buckets w)) t.by_action
      → Values (IsAligned (buckets w)) (traffic_rows p w rows t).by_action
  unfolding traffic_rows
  traffic_rows-Values p w [] t v = v
  traffic_rows-Values p w (row ∷ rows) t v =
      traffic_rows-Values p w rows (traffic_row p w row t) (traffic_row-Values p w row t v)

  pub traffic_panel-Fits :
      (p : Platform V) (w : Window) (limit : ℕ) (src : LogSource) (run : LogRun)
      → Fits (buckets w) (traffic_panel p w limit src run)
  unfolding traffic_panel
  traffic_panel-Fits p w limit src run =
      let n : ℕ = buckets w in
      let start : Panel V (Row V) = new_panel (text "waf-traffic") (text "WAF 트래픽") in
      let none_yet : Traffic V = record { by_action = []; totals = [] } in
      let rows : List LogRow = rows_of (text "waf.action.series") run.results in
      let t : Traffic V = traffic_rows p w rows none_yet in
      let actions : List Text = sort (map (λ e. e.0) t.by_action) in
      closing-Fits n p run.results (note_query_errors src run.errors start)
        (pick t.by_action actions) _ _ _
        (note_query_errors-Fits n src run.errors start (new_panel-Fits V n _ _))
        (pick-All (IsAligned n) t.by_action actions (traffic_rows-Values p w rows none_yet tt))
        (table-Counts _ _ _ limit)

  -- A panel with a table and no series.
  table_only-Fits :
      (n : ℕ) (p : Platform V) (results : List (Text × QueryResult)) (noted : Panel V (Row V))
      (t : Option (Table (Row V))) (stats : List (Stat V)) (bars : Option Bars)
      → Fits n noted
      → TableCounts t
      → Fits n
          (note_query_cost p (push_stats (record noted { table = t; bars = bars }) stats) results)
  table_only-Fits n p results noted t stats bars (h, _) c =
      note_query_cost-Fits n p (push_stats (record noted { table = t; bars = bars }) stats) results
        (h, c)

  pub breakdown_panel-Fits :
      (n : ℕ) (p : Platform V) (f : LogFormat) (top : ℕ) (src : LogSource) (run : LogRun)
      → Fits n (breakdown_panel p f top src run)
  unfolding breakdown_panel
  breakdown_panel-Fits n p f top src run =
      let start : Panel V (Row V) = new_panel (text "pod-status-breakdown") (text "응답 코드별 경로") in
      let id : Text = text "pod.badStatus.byPath" in
      table_only-Fits n p run.results
        (warn_if_truncated id run.results (note_query_errors src run.errors start)) _ _ _
        (warn_if_truncated-Fits n id run.results (note_query_errors src run.errors start)
          (note_query_errors-Fits n src run.errors start (new_panel-Fits V n _ _)))
        (rows-Counts _ _ top)

  pub blocked_panel-Fits :
      (n : ℕ) (p : Platform V) (top : ℕ) (src : LogSource) (ask : Text → List Query → LogRun)
      → Fits n (build_waf_blocked_panel p top src ask)
  unfolding build_waf_blocked_panel
  blocked_panel-Fits n p top src ask =
      let run : LogRun = ask (text "waf-blocked") (waf_blocked top ∷ []) in
      let start : Panel V (Row V) = new_panel (text "waf-blocked") (text "차단된 요청") in
      let (lines, _) = note_query_errors-Fits n src run.errors start (new_panel-Fits V n _ _) in
      note_query_cost-Fits n p _ run.results (lines, table-Counts _ _ _ top)

  pub waf_breakdown_panel-Fits :
      (n : ℕ) (p : Platform V) (top : ℕ) (src : LogSource) (q : HeaderQueries) (run : LogRun)
      → Fits n (waf_breakdown_panel p top src q run)
  unfolding waf_breakdown_panel
  waf_breakdown_panel-Fits n p top src q run =
      let start : Panel V (Row V) = record (new_panel (text "waf-breakdown") (text "WAF 통계")) {
        warnings = q.warnings;
      } in
      table_only-Fits n p run.results (note_query_errors src run.errors start) _ _ _
        (note_query_errors-Fits n src run.errors start (new_panel-Fits V n _ _))
        (table-Counts _ _ _ top)
