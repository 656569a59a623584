-- ===== src/LogPanels/Fits/Pods.antt =====
-- server/src/http/panels-logs.ts: the panels of the pods have a value for each bucket in every series, and
-- tables that count.
use skills_dashboard.Common.{
  ℕ, ◌∙◌, inl, inr, Option, none, some, List, [], ◌∷◌, map, Bool-cases, Option-cases, All,
}
use skills_dashboard.Common.{pos}
use skills_dashboard.Text.{Text, text}
use skills_dashboard.TextMap.{get}
use skills_dashboard.Catalog.Search.{sort}
use skills_dashboard.Window.{Window, buckets}
use skills_dashboard.Series.{Series, Measure}
use skills_dashboard.Series.Writes.{length-set_at}
use skills_dashboard.Payload.{Panel, new_panel}
use skills_dashboard.Payload.Checks.{IsAligned}
use skills_dashboard.LogFormat.{LogFormat}
use skills_dashboard.Runner.{QueryResult}
use skills_dashboard.LogPanels.{
  Platform, LogRow, Row, LogSource, rows_of, note_query_errors, warn_if_truncated,
}
use skills_dashboard.LogPanels.Rows.{row_float, row_bucket}
use skills_dashboard.LogPanels.Runs.{LogRun}
use skills_dashboard.LogPanels.Tallies.{or_new, Tally, sorted_series}
use skills_dashboard.LogPanels.Status.{
  status_code, status_color, status_series, status_tally, status_panel,
}
use skills_dashboard.Text.{text_eq}
use skills_dashboard.LogPanels.{cell}
use skills_dashboard.LogPanels.Levels.{Levels, level_row, level_rows, no_levels, error_panel}
use skills_dashboard.LogPanels.Fits.{
  Values, put-Values, or_new-Values, new_series-IsAligned, Fits, note_query_errors-Fits,
  warn_if_truncated-Fits, table-Counts, add_at-IsAligned, tally-Values, pick-All, new_panel-Fits,
  closing-Fits,
}
use skills_dashboard.LogPanels.Fits.{get-Values}
use skills_dashboard.LogPanels.Latency.{
  AppSeries, Latencies, new_app, set_if, add_if, add_app, app_of, latency_row, latency_rows,
  pick_apps, app_lines, latency_panel,
}

abbrev AppAligned : {V : Type 0} → ℕ → AppSeries V → Type 0
AppAligned n a = All (IsAligned n) (a.p50 ∷ a.p90 ∷ a.p99 ∷ a.requests ∷ [])

new_app-AppAligned :
    (V : Type 0) (w : Window) (app : Text) → AppAligned (buckets w) (new_app {V = V} w app)
unfolding new_app
new_app-AppAligned V w app =
    let line =
      λ (label : Text) (m : Measure) (c : Text). new_series-IsAligned V label m c (buckets w) in
    (line _ _ _, (line _ _ _, (line _ _ _, (line _ _ _, tt))))

module _ {V : Type 0} where
  pub status_panel-Fits :
      (p : Platform V) (f : LogFormat) (w : Window) (limit : ℕ) (src : LogSource) (run : LogRun)
      → Fits (buckets w) (status_panel p f w limit src run)
  unfolding status_panel status_tally sorted_series
  status_panel-Fits p f w limit src run =
      let n : ℕ = buckets w in
      let start : Panel V (Row V) = new_panel (text "pod-status-codes") (text "비정상 응답 코드") in
      let series : Text = text "pod.badStatus.series" in
      let t : Tally V = status_tally p w (rows_of series run.results) in
      closing-Fits n p run.results
        (warn_if_truncated series run.results (note_query_errors src run.errors start))
        (sorted_series t.by_key) _ _ _
        (warn_if_truncated-Fits n series run.results (note_query_errors src run.errors start)
          (note_query_errors-Fits n src run.errors start (new_panel-Fits V n _ _)))
        (pick-All (IsAligned n) t.by_key (sort (map (λ e. e.0) t.by_key)) (
          tally-Values p w status_code (status_series w) n (rows_of series run.results)
            (record { by_key = []; total = p.nought })
            (λ code. new_series-IsAligned V code Measure.count (status_color code) n) tt))
        (table-Counts _ _ _ limit)

  level_row-Fits :
      (p : Platform V) (w : Window) (n : ℕ) (row : LogRow) (t : Levels V)
      → All (IsAligned n) (t.errors ∷ t.warns ∷ [])
      → All (IsAligned n) ((level_row p w row t).errors ∷ (level_row p w row t).warns ∷ [])
  unfolding level_row
  level_row-Fits p w n row t (a, (b, _)) = elim (Option-cases (row_bucket p w row)) [
    | inl e ↦ rw (level_row, e) (a, (b, tt))
    | inr (i, e) ↦ elim (Option-cases (row_float p row (text "n"))) [
      | inl f ↦ rw (level_row, e, f) (a, (b, tt))
      | inr (x, f) ↦ elim (Bool-cases (text_eq (p.lower (cell (text "level") row)) (text "warn"))) [
        | inl l ↦ rw (level_row, e, f, l) (a, (add_at-IsAligned p.plus n t.warns i x b, tt))
        | inr l ↦ rw (level_row, e, f, l) (add_at-IsAligned p.plus n t.errors i x a, (b, tt))
      ]
    ]
  ]

  level_rows-Fits :
      (p : Platform V) (w : Window) (n : ℕ) (rows : List LogRow) (t : Levels V)
      → All (IsAligned n) (t.errors ∷ t.warns ∷ [])
      → All (IsAligned n) ((level_rows p w rows t).errors ∷ (level_rows p w rows t).warns ∷ [])
  unfolding level_rows
  level_rows-Fits p w n [] t h = h
  level_rows-Fits p w n (row ∷ rows) t h =
      level_rows-Fits p w n rows (level_row p w row t) (level_row-Fits p w n row t h)

  no_levels-Fits :
      (p : Platform V) (w : Window)
      → All (IsAligned (buckets w)) ((no_levels p w).errors ∷ (no_levels p w).warns ∷ [])
  unfolding no_levels
  no_levels-Fits p w =
      (new_series-IsAligned V _ _ _ (buckets w), (new_series-IsAligned V _ _ _ (buckets w), tt))

  pub error_panel-Fits :
      (p : Platform V) (f : LogFormat) (w : Window) (limit : ℕ) (src : LogSource) (run : LogRun)
      → Fits (buckets w) (error_panel p f w limit src run)
  unfolding error_panel
  error_panel-Fits p f w limit src run =
      let n : ℕ = buckets w in
      let start : Panel V (Row V) = new_panel (text "pod-errors") (text "ERROR · WARN 로그") in
      let rows : List LogRow = rows_of (text "pod.errors.series") run.results in
      let t : Levels V = level_rows p w rows (no_levels p w) in
      closing-Fits n p run.results (note_query_errors src run.errors start)
        (t.errors ∷ t.warns ∷ []) _ _ _
        (note_query_errors-Fits n src run.errors start (new_panel-Fits V n _ _))
        (level_rows-Fits p w n rows (no_levels p w) (no_levels-Fits p w)) (table-Counts _ _ _ limit)

  set_if-IsAligned :
      (n : ℕ) (s : Series V) (i : ℕ) (o : Option V) → IsAligned n s → IsAligned n (set_if s i o)
  set_if-IsAligned n s i none h = h
  set_if-IsAligned n s i (some v) h = length-set_at s (pos i) v ∙ h

  add_if-IsAligned :
      (p : Platform V) (n : ℕ) (s : Series V) (i : ℕ) (o : Option V)
      → IsAligned n s
      → IsAligned n (add_if p s i o)
  add_if-IsAligned p n s i none h = h
  add_if-IsAligned p n s i (some v) h = add_at-IsAligned p.plus n s i v h

  add_app-AppAligned :
      (p : Platform V) (n : ℕ) (row : LogRow) (i : ℕ) (a : AppSeries V)
      → AppAligned n a
      → AppAligned n (add_app p row i a)
  unfolding add_app
  add_app-AppAligned p n row i a (x, (y, (z, (u, _)))) = (
    set_if-IsAligned n a.p50 i (row_float p row (text "p50")) x,
    (
      set_if-IsAligned n a.p90 i (row_float p row (text "p90")) y,
      (
        set_if-IsAligned n a.p99 i (row_float p row (text "p99")) z,
        (add_if-IsAligned p n a.requests i (row_float p row (text "requests")) u, tt),
      ),
    ),
  )

  latency_row-Values :
      (p : Platform V) (w : Window) (row : LogRow) (t : Latencies V)
      → Values (AppAligned (buckets w)) t.apps
      → Values (AppAligned (buckets w)) (latency_row p w row t).apps
  unfolding latency_row
  latency_row-Values p w row t v = elim (Option-cases (row_bucket p w row)) [
    | inl e ↦ rw (latency_row, e) v
    | inr (i, e) ↦
        let n : ℕ = buckets w in
        let app : Text = app_of row in
        rw (latency_row, e)
          (put-Values (AppAligned n) app _ t.apps
            (add_app-AppAligned p n row i (or_new (new_app w app) (get app t.apps)) (
              or_new-Values (AppAligned n) app (new_app w app) t.apps (new_app-AppAligned V w app)
                v))
            v)
  ]

  latency_rows-Values :
      (p : Platform V) (w : Window) (rows : List LogRow) (t : Latencies V)
      → Values (AppAligned (buckets w)) t.apps
      → Values (AppAligned (buckets w)) (latency_rows p w rows t).apps
  unfolding latency_rows
  latency_rows-Values p w [] t v = v
  latency_rows-Values p w (row ∷ rows) t v =
      latency_rows-Values p w rows (latency_row p w row t) (latency_row-Values p w row t v)

  app_lines-All :
      (n : ℕ) (apps : List (AppSeries V))
      → All (AppAligned n) apps
      → All (IsAligned n) (app_lines apps)
  unfolding app_lines
  app_lines-All n [] h = tt
  app_lines-All n (a ∷ apps) ((x, (y, (z, (u, _)))), hs) =
      (x, (y, (z, (u, app_lines-All n apps hs))))

  pick_apps-All :
      (n : ℕ) (m : List (Text × AppSeries V)) (ks : List Text)
      → Values (AppAligned n) m
      → All (AppAligned n) (pick_apps m ks)
  unfolding pick_apps
  pick_apps-All n m [] v = tt
  pick_apps-All n m (k ∷ ks) v = elim (Option-cases (get k m)) [
    | inl e ↦ rw (pick_apps, e) (pick_apps-All n m ks v)
    | inr (a, e) ↦ rw (pick_apps, e) (get-Values (AppAligned n) k a m v e, pick_apps-All n m ks v)
  ]

  pub latency_panel-Fits :
      (p : Platform V) (f : LogFormat) (w : Window) (noted : Panel V (Row V))
      (results : List (Text × QueryResult)) (res : QueryResult)
      → Fits (buckets w) noted
      → Fits (buckets w) (latency_panel p f w noted results res)
  unfolding latency_panel
  latency_panel-Fits p f w noted results res h =
      let n : ℕ = buckets w in
      let none_yet : Latencies V = record {
        apps = [];
        total_requests = p.nought;
        total_samples = p.nought;
      } in
      let t : Latencies V = latency_rows p w res.rows none_yet in
      let apps : List (AppSeries V) = pick_apps t.apps (sort (map (λ e. e.0) t.apps)) in
      closing-Fits n p results noted (app_lines apps) noted.table _ noted.bars h
        (app_lines-All n apps (
          pick_apps-All n t.apps (sort (map (λ e. e.0) t.apps))
            (latency_rows-Values p w res.rows none_yet tt)))
        h.1
