-- ===== src/LogPanels/Fits.antt =====
-- server/src/http/panels-logs.ts against server/src/domain/series.ts: what the panels of logs are, for the
-- check of a payload.
pub mod Pods
pub mod Waf
use skills_dashboard.Common.{
  ℕ, zero, suc, ◌+◌, ◌-◌, ◌*◌, ◌/◌, ◌%◌, ◌^◌, ◌≤◌, ◌<◌, min, ◌≡◌, refl, sym, ap, ◌∙◌, subst, ◌≢◌,
  ◌↔◌, ◌⊎◌, inl, inr, Bool, true, false, ◌&&◌, ◌||◌, not, Option, none, some, List, [], ◌∷◌, ◌++◌,
  map, append-nil, append_assoc, arith, ltb, leb, ◌==◌, if◌then◌else◌, Bool-cases, Option-cases,
  length, get_elem?, set, take, drop, replicate, length-append, length-map, length-replicate,
  Listed, All, All-Listed, All-append, Result, ok, err, ◌>>=◌, ◌>>◌, >>=-eq-ok, Result-cases,
}
use skills_dashboard.Common.{pos}
use skills_dashboard.Text.{Text, text, text_eq, is_empty}
use skills_dashboard.TextMap.{get, put}
use skills_dashboard.Catalog.Search.{sort}
use skills_dashboard.Window.{Window, buckets}
use skills_dashboard.Series.{Series, Measure, new_series, add_at, set_at}
use skills_dashboard.Series.Writes.{length-add_at, length-set_at}
use skills_dashboard.Payload.{
  Panel, Table, Column, Stat, Bars, new_table, new_panel, warn_panel, new_payload, add_panels,
  validate_payload,
}
use skills_dashboard.Payload.Checks.{
  IsAligned, Counts, TableCounts, PanelFits, validate_payload-add_panels,
}
use skills_dashboard.LogFormat.{LogFormat}
use skills_dashboard.Runner.{Query, QueryResult}
use skills_dashboard.Query.{QueryError}
use skills_dashboard.LogPanels.{
  Platform, LogRow, Row, LogSource, LogError, no_log_group, failed, honest_total, push_stats,
  note_query_cost, total_bytes_scanned, note_errors, note_query_errors, warn_if_truncated, rows_of,
}
use skills_dashboard.LogPanels.Rows.{row_float, row_bucket}
use skills_dashboard.LogPanels.Runs.{LogRun}
use skills_dashboard.LogPanels.Tallies.{or_new, Tally, tally_row, tally, pick, sorted_series}
use skills_dashboard.LogPanels.Status.{
  status_code, status_series, status_tally, status_panel, build_pod_status_code_panel,
}

-- What holds of every value of a map.
abbrev pub Values : {A : Type 0} → (A → Type 0) → List (Text × A) → Type 0
Values P m = All (λ e. P e.1) m

pub put-Values :
    {A : Type 0} (P : A → Type 0) (k : Text) (a : A) (m : List (Text × A))
    → P a
    → Values P m
    → Values P (put k a m)
unfolding put
put-Values P k a [] h v = (h, tt)
put-Values P k a ((j, b) ∷ m) h (vb, vs) = elim (Bool-cases (text_eq j k)) [
  | inl e ↦ rw e (h, vs)
  | inr e ↦ rw e (vb, put-Values P k a m h vs)
]

pub or_new-Values :
    {A : Type 0} (P : A → Type 0) (k : Text) (a : A) (m : List (Text × A))
    → P a
    → Values P m
    → P (or_new a (get k m))
unfolding get
or_new-Values P k a [] h v = h
or_new-Values P k a ((j, b) ∷ m) h (vb, vs) = elim (Bool-cases (text_eq j k)) [
  | inl e ↦ rw e vb
  | inr e ↦ rw e (or_new-Values P k a m h vs)
]

pub get-Values :
    {A : Type 0} (P : A → Type 0) (k : Text) (a : A) (m : List (Text × A))
    → Values P m
    → get k m ≡ some a
    → P a
unfolding get
get-Values P k a [] v e = cc
get-Values P k a ((j, b) ∷ m) (vb, vs) e = elim (Bool-cases (text_eq j k)) [
  | inl f ↦
      let same : b ≡ a = cc (subst (λ c. (if c then some b else get k m) ≡ some a) f e) in
      subst P same vb
  | inr f ↦ get-Values P k a m vs (subst (λ c. (if c then some b else get k m) ≡ some a) f e)
]

pub new_series-IsAligned :
    (V : Type 0) (label : Text) (measure : Measure) (color : Text) (n : ℕ)
    → IsAligned n (new_series {V = V} label measure color n)
unfolding new_series
new_series-IsAligned V label measure color n = length-replicate n none

-- A panel with nothing in it yet.
pub new_panel-Fits :
    (V : Type 0) (n : ℕ) (id title : Text) → PanelFits n (new_panel {V = V} {R = Row V} id title)
unfolding new_panel
new_panel-Fits V n id title = (tt, tt)

module _ {V : Type 0} where
  abbrev pub Fits : ℕ → Panel V (Row V) → Type 0
  Fits n panel = PanelFits n panel

  note_errors-Fits :
      (n : ℕ) (src : LogSource) (errors : List (Text × LogError)) (ids : List Text)
      (panel : Panel V (Row V))
      → Fits n panel
      → Fits n (note_errors src errors ids panel)
  unfolding note_errors
  note_errors-Fits n src errors [] panel h = h
  note_errors-Fits n src errors (id ∷ ids) panel h = elim (Option-cases (get id errors)) [
    | inl e ↦ rw (note_errors, e) (note_errors-Fits n src errors ids panel h)
    | inr (no_log_group, e) ↦ rw (note_errors, e) h
    | inr (failed m, e) ↦
        rw (note_errors, e)
          (note_errors-Fits n src errors ids
            (warn_panel panel (id ++ (text " 쿼리 실패 (" ++ (src.region ++ (text "): " ++ m))))) h)
  ]

  pub note_query_errors-Fits :
      (n : ℕ) (src : LogSource) (errors : List (Text × LogError)) (panel : Panel V (Row V))
      → Fits n panel
      → Fits n (note_query_errors src errors panel)
  unfolding note_query_errors
  note_query_errors-Fits n src errors panel h =
      note_errors-Fits n src errors (sort (map (λ e. e.0) errors)) panel h

  pub warn_if_truncated-Fits :
      (n : ℕ) (id : Text) (results : List (Text × QueryResult)) (panel : Panel V (Row V))
      → Fits n panel
      → Fits n (warn_if_truncated id results panel)
  unfolding warn_if_truncated
  warn_if_truncated-Fits n id results panel h = elim (Option-cases (get id results)) [
    | inl e ↦ rw (warn_if_truncated, e) h
    | inr (res, e) ↦ elim (Bool-cases res.truncated) [
      | inl t ↦ rw (warn_if_truncated, e, t) h
      | inr t ↦ rw (warn_if_truncated, e, t) h
    ]
  ]

  pub note_query_cost-Fits :
      (n : ℕ) (p : Platform V) (panel : Panel V (Row V)) (results : List (Text × QueryResult))
      → Fits n panel
      → Fits n (note_query_cost p panel results)
  unfolding note_query_cost
  note_query_cost-Fits n p panel results h = elim (Bool-cases (total_bytes_scanned results == 0)) [
    | inl e ↦ rw (note_query_cost, e) h
    | inr e ↦ rw (note_query_cost, e) h
  ]

  -- A table whose total is at least the number of its rows.
  pub table-Counts :
      (columns : List Column) (rows : List (Row V)) (total limit : ℕ)
      → Counts (new_table columns (some rows) (honest_total total (length rows)) limit)
  unfolding new_table honest_total
  table-Counts columns rows total limit = ground arith

  pub add_at-IsAligned :
      (plus : V → V → V) (n : ℕ) (s : Series V) (i : ℕ) (v : V)
      → IsAligned n s
      → IsAligned n (add_at plus s (pos i) v)
  add_at-IsAligned plus n s i v h = length-add_at plus s (pos i) v ∙ h

  pub tally_row-Values :
      (p : Platform V) (w : Window) (key_of : LogRow → Text) (start : Text → Series V) (n : ℕ)
      (row : LogRow) (t : Tally V)
      → ((k : Text) → IsAligned n (start k))
      → Values (IsAligned n) t.by_key
      → Values (IsAligned n) (tally_row p w key_of start row t).by_key
  unfolding tally_row
  tally_row-Values p w key_of start n row t h v = elim (Option-cases (row_bucket p w row)) [
    | inl e ↦ rw (tally_row, e) v
    | inr (i, e) ↦ elim (Option-cases (row_float p row (text "n"))) [
      | inl f ↦ rw (tally_row, e, f) v
      | inr (x, f) ↦
          rw (tally_row, e, f)
            (put-Values (IsAligned n) (key_of row) _ t.by_key
              (add_at-IsAligned p.plus n (or_new (start (key_of row)) (get (key_of row) t.by_key)) i
                x
                (or_new-Values (IsAligned n) (key_of row) (start (key_of row)) t.by_key
                  (h (key_of row)) v))
              v)
    ]
  ]

  pub tally-Values :
      (p : Platform V) (w : Window) (key_of : LogRow → Text) (start : Text → Series V) (n : ℕ)
      (rows : List LogRow) (t : Tally V)
      → ((k : Text) → IsAligned n (start k))
      → Values (IsAligned n) t.by_key
      → Values (IsAligned n) (tally p w key_of start rows t).by_key
  unfolding tally
  tally-Values p w key_of start n [] t h v = v
  tally-Values p w key_of start n (row ∷ rows) t h v =
      tally-Values p w key_of start n rows (tally_row p w key_of start row t) h
        (tally_row-Values p w key_of start n row t h v)

  pub pick-All :
      (P : Series V → Type 0) (m : List (Text × Series V)) (ks : List Text)
      → Values P m
      → All P (pick m ks)
  unfolding pick
  pick-All P m [] v = tt
  pick-All P m (k ∷ ks) v = elim (Option-cases (get k m)) [
    | inl e ↦ rw (pick, e) (pick-All P m ks v)
    | inr (s, e) ↦ rw (pick, e) (get-Values P k s m v e, pick-All P m ks v)
  ]

  pub rows-Counts :
      (columns : List Column) (rows : List (Row V)) (limit : ℕ)
      → Counts (new_table columns (some rows) (length rows) limit)
  unfolding new_table
  rows-Counts columns rows limit = ground arith

  -- The last steps of a panel: series and a table are added, then the cost is noted.
  pub closing-Fits :
      (n : ℕ) (p : Platform V) (results : List (Text × QueryResult)) (noted : Panel V (Row V))
      (ss : List (Series V)) (t : Option (Table (Row V))) (stats : List (Stat V))
      (bars : Option Bars)
      → Fits n noted
      → All (IsAligned n) ss
      → TableCounts t
      → Fits n (
          note_query_cost p
            (push_stats
              (record noted { series = noted.series ++ ss; table = t; bars = bars })
              stats)
            results)
  closing-Fits n p results noted ss t stats bars (h, _) a c =
      note_query_cost-Fits n p
        (push_stats (record noted { series = noted.series ++ ss; table = t; bars = bars }) stats)
        results (All-append (IsAligned n) noted.series ss h a, c)
