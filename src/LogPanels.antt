-- ===== src/LogPanels.antt =====
-- server/src/http/panels-logs.ts: the panels made from logs, and what they have in common. The children
-- are the reading of rows, the run of the queries, the panels, and what is proved of them. Numbers are
-- of a type `V`; the built-in functions that the source applies to numbers, dates and letters of any
-- alphabet are the record `Platform`.
pub mod Rows
pub mod Runs
pub mod Answered
pub mod Tallies
pub mod Status
pub mod Levels
pub mod Latency
pub mod Pivots
pub mod Breakdown
pub mod WafBreakdown
pub mod Waf
pub mod Fits
pub mod Accepted
pub mod Totals
use skills_dashboard.Common.{ℤ}
use skills_dashboard.Common.{
  ℕ, zero, suc, ◌+◌, ◌-◌, ◌*◌, ◌/◌, ◌%◌, ◌^◌, ◌≤◌, ◌<◌, min, ◌≡◌, refl, sym, ap, ◌∙◌, subst, ◌≢◌,
  ◌↔◌, ◌⊎◌, inl, inr, Bool, true, false, ◌&&◌, ◌||◌, not, Option, none, some, List, [], ◌∷◌, ◌++◌,
  map, append-nil, append_assoc, arith, ltb, leb, ◌==◌, if◌then◌else◌, Bool-cases, Option-cases,
  length, get_elem?, set, take, drop, replicate, length-append, length-map, length-replicate,
  Listed, All, All-Listed, All-append, Result, ok, err, ◌>>=◌, ◌>>◌, >>=-eq-ok, Result-cases,
}
use skills_dashboard.Common.{trunc_div}
use skills_dashboard.Text.{Text, text, is_empty, is_digit, span, trim, starts_with, join}
use skills_dashboard.TextMap.{get, put}
use skills_dashboard.Text.Decimal.{show}
use skills_dashboard.Catalog.Search.{sort}
use skills_dashboard.Window.{Window, index_of}
use skills_dashboard.Series.{Series, Point, Measure, add_at}
use skills_dashboard.Payload.{Panel, Stat, Intent, Table, warn_panel}
use skills_dashboard.LogFormat.{LogFormat}
use skills_dashboard.Runner.{QueryResult, insights_max_rows}

-- `Number` of a decimal, if it is finite; `Math.trunc` of a count, not below 0; how a count prints;
-- `Date` of a time in ISO form; `toUpperCase` and `toLowerCase`.
pub record Platform (V : Type 0) : Type 0 where
  pub nought : V
  pub plus : V → V → V
  pub less : V → V → Bool
  pub greater : V → V → V
  pub trunc : V → ℕ
  pub of_ℕ : ℕ → V
  pub number : Text → Option V
  pub print : V → Text
  pub date : Text → Option ℤ
  pub upper : Text → Text
  pub lower : Text → Text

-- A row of a result, and a row of a table.
abbrev pub LogRow : Type 0
LogRow = List (Text × Text)

pub data Cell (V : Type 0) : Type 0 where
  words : Text → Cell V
  number : V → Cell V

abbrev pub Row : Type 0 → Type 0
Row V = List (Text × Cell V)

abbrev pub or_nothing : Option Text → Text
or_nothing none = []
or_nothing (some v) = v

-- `row[key] ?? ''`
unfoldable pub cell : Text → LogRow → Text
unfolding get
cell key row = or_nothing (get key row)

-- The value of a key, or a name for rows without one.
unfoldable pub cell_or : Text → Text → LogRow → Text
unfolding cell
cell_or key name row = if is_empty (cell key row) then name else cell key row

unfoldable pub excluded_paths : LogFormat → Text
unfolding join
excluded_paths f = elim f.exclude_paths [
  | [] ↦ []
  | p ∷ ps ↦ text ", " ++ (join (text " · ") (p ∷ ps) ++ text " 제외")
]

unfoldable pub total_bytes_scanned : List (Text × QueryResult) → ℕ
total_bytes_scanned [] = 0
total_bytes_scanned ((_, r) ∷ rs) = r.bytes_scanned + total_bytes_scanned rs

-- The total of a table, not below the number of its rows.
unfoldable pub honest_total : ℕ → ℕ → ℕ
honest_total total rows = if ltb total rows then rows else total

-- The rows of a query, none where it has no result.
unfoldable pub rows_of : Text → List (Text × QueryResult) → List LogRow
unfolding get
rows_of id results = elim (get id results) [ none ↦ [] | some res ↦ res.rows ]

pub record LogSource : Type 0 where
  pub has_runner : Bool
  pub region : Text
  pub group : Text
  pub missing : Text

pub data LogError : Type 0 where
  no_log_group : LogError
  failed : Text → LogError

module _ {V : Type 0} where
  abbrev pub stat : Text → Text → Point V → Measure → Text → Option Intent → Stat V
  stat key label value measure basis intent = record {
    key = key;
    label = label;
    value = value;
    measure = measure;
    words = none;
    basis = some basis;
    intent = intent;
  }

  abbrev pub push_stats : Panel V (Row V) → List (Stat V) → Panel V (Row V)
  push_stats panel stats = record panel { stats = panel.stats ++ stats }

  unfoldable pub note_query_cost :
      Platform V → Panel V (Row V) → List (Text × QueryResult) → Panel V (Row V)
  unfolding total_bytes_scanned show
  note_query_cost p panel results =
      let bytes : ℕ = total_bytes_scanned results in
      if bytes == 0
      then panel
      else push_stats panel (
          stat (text "insights.bytesScanned") (text "스캔량") (some (p.of_ℕ bytes)) Measure.bytes
            (text "Logs Insights 쿼리 " ++ (show (length results) ++ text "건")) none
          ∷ [])

  -- The loop over the sorted identifiers.
  unfoldable pub note_errors :
      LogSource → List (Text × LogError) → List Text → Panel V (Row V) → Panel V (Row V)
  unfolding get warn_panel
  note_errors src errors [] panel = panel
  note_errors src errors (id ∷ ids) panel = elim (get id errors) [
    | none ↦ note_errors src errors ids panel
    | some no_log_group ↦ warn_panel panel src.missing
    | some (failed message) ↦
        note_errors src errors ids
          (warn_panel panel (id ++ (text " 쿼리 실패 (" ++ (src.region ++ (text "): " ++ message)))))
  ]

  unfoldable pub note_query_errors :
      LogSource → List (Text × LogError) → Panel V (Row V) → Panel V (Row V)
  unfolding note_errors sort
  note_query_errors src errors panel = note_errors src errors (sort (map (λ e. e.0) errors)) panel

  unfoldable pub warn_if_truncated :
      Text → List (Text × QueryResult) → Panel V (Row V) → Panel V (Row V)
  unfolding get warn_panel show
  warn_if_truncated id results panel = elim (get id results) [
    | none ↦ panel
    | some res ↦
        if res.truncated
        then warn_panel panel (
            id
            ++ (text " 집계가 Logs Insights 결과 상한("
                ++ (show insights_max_rows
                    ++ text "행)에 걸려 잘렸습니다. 값이 실제보다 작습니다 — 조회 구간을 좁히거나 네임스페이스·제외 경로를 설정하세요.")))
        else panel
  ]
