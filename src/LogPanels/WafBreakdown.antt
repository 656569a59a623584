-- ===== src/LogPanels/WafBreakdown.antt =====
-- server/src/http/panels-logs.ts, `buildWAFBreakdownPanel`: the requests by method, path and header.
use skills_dashboard.Common.{
  ℕ, ◌+◌, ◌*◌, Option, none, some, List, [], ◌∷◌, ◌++◌, map, ltb, if◌then◌else◌, length, take, ok,
  err,
}
use skills_dashboard.Text.{Text, text, is_empty}
use skills_dashboard.TextMap.{get, put}
use skills_dashboard.Catalog.Search.{sort}
use skills_dashboard.Series.{Measure}
use skills_dashboard.Payload.{Panel, Column, new_table, new_panel}
use skills_dashboard.Runner.{Query, QueryResult}
use skills_dashboard.Query.{
  QueryError, empty_field, not_configured, invalid_field, invalid_header, in_field,
}
use skills_dashboard.Query.Waf.{waf_by_method, waf_by_path, waf_by_header}
use skills_dashboard.LogPanels.{
  Platform, LogRow, words, number, Row, cell, honest_total, LogSource, stat, push_stats,
  note_query_cost, note_query_errors,
}
use skills_dashboard.LogPanels.Runs.{LogRun}
use skills_dashboard.LogPanels.Tallies.{plain_column, copied, monospaced, number_column}
use skills_dashboard.LogPanels.Pivots.{WafBucket, pivot_waf_actions}

abbrev pub action_fanout : ℕ
action_fanout = 4

-- The texts of the errors of query.ts.
unfoldable pub error_words : QueryError → Text
error_words empty_field = text "empty field reference"
error_words not_configured = text "field is not configured"
error_words (invalid_field name) = text "invalid field reference \"" ++ (name ++ text "\"")
error_words (invalid_header name) = text "invalid header name \"" ++ (name ++ text "\"")
error_words (in_field label e) = label ++ (text ": " ++ error_words e)

-- The queries on the headers, the header of each of their identifiers, and what could not be asked.
pub record HeaderQueries : Type 0 where
  pub queries : List Query
  pub headers : List (Text × Text)
  pub warnings : List Text

unfoldable pub add_header : ℕ → Text → HeaderQueries → HeaderQueries
unfolding waf_by_header put error_words
add_header fetch h q = elim (waf_by_header h fetch) [
  | ok hq ↦ record q { queries = q.queries ++ (hq ∷ []); headers = put hq.id h q.headers }
  | err e ↦ record q {
    warnings =
        q.warnings ++ ((text "헤더 \"" ++ (h ++ (text "\" 통계를 만들 수 없습니다: " ++ error_words e))) ∷ []);
  }
]

unfoldable pub add_headers : ℕ → List Text → HeaderQueries → HeaderQueries
unfolding add_header
add_headers fetch [] q = q
add_headers fetch (h ∷ hs) q = add_headers fetch hs (add_header fetch h q)

-- The key of a path: the URI, and the query after it if there is one.
unfoldable pub path_key : LogRow → Text
unfolding cell
path_key r =
    if is_empty (cell (text "args") r)
    then cell (text "uri") r
    else cell (text "uri") r ++ (b'?' ∷ cell (text "args") r)

abbrev dimension_columns : List Column
dimension_columns =
    plain_column (text "dimension") (text "구분")
    ∷ monospaced (copied (plain_column (text "key") (text "값")))
    ∷ number_column (plain_column (text "allow") (text "허용"))
    ∷ number_column (plain_column (text "block") (text "차단"))
    ∷ number_column (plain_column (text "other") (text "기타"))
    ∷ number_column (plain_column (text "count") (text "합계"))
    ∷ plain_column (text "lastAction") (text "마지막 처리")
    ∷ []

-- The rows so far, and how many keys were found.
pub record Dimensions (V : Type 0) : Type 0 where
  pub rows : List (Row V)
  pub keys_found : ℕ

module _ {V : Type 0} where
  unfoldable pub dimension_row : Text → WafBucket V → Row V
  dimension_row dimension b =
      (text "dimension", words dimension)
      ∷ (text "key", words b.key)
      ∷ (text "allow", number b.allow)
      ∷ (text "block", number b.block)
      ∷ (text "other", number b.other)
      ∷ (text "count", number b.total)
      ∷ (text "lastAction", words b.last_action)
      ∷ []

  -- `add`: the first `top` buckets become rows, and all of them are counted.
  unfoldable pub add_dimension : ℕ → Text → List (WafBucket V) → Dimensions V → Dimensions V
  unfolding dimension_row
  add_dimension top dimension list d = record {
    rows =
        d.rows
        ++ map (dimension_row dimension) (if ltb top (length list) then take top list else list);
    keys_found = d.keys_found + length list;
  }

  unfoldable pub sum_waf : Platform V → List (WafBucket V) → V → V
  sum_waf p [] total = total
  sum_waf p (b ∷ bs) total = sum_waf p bs (p.plus total b.total)

  abbrev pub add_result :
      Platform V → ℕ → Text → (LogRow → Text) → Option QueryResult → Dimensions V → Dimensions V
  add_result p top dimension key_of none d = d
  add_result p top dimension key_of (some res) d =
      add_dimension top dimension (pivot_waf_actions p key_of res.rows) d

  -- The loop over the sorted identifiers of the headers.
  unfoldable pub add_header_results :
      Platform V
      → ℕ
      → List (Text × QueryResult)
      → List (Text × Text)
      → List Text
      → Dimensions V
      → Dimensions V
  unfolding get add_dimension pivot_waf_actions cell
  add_header_results p top results headers [] d = d
  add_header_results p top results headers (id ∷ ids) d =
      let h : Text = elim (get id headers) [ none ↦ [] | some h ↦ h ] in
      add_header_results p top results headers ids
        (add_result p top (text "header:" ++ h) (cell (text "value")) (get id results) d)

  abbrev method_total : Platform V → Option QueryResult → V
  method_total p none = p.nought
  method_total p (some res) =
      sum_waf p (pivot_waf_actions p (cell (text "method")) res.rows) p.nought

  abbrev method_and_path : Platform V → ℕ → List (Text × QueryResult) → Dimensions V
  method_and_path p top results =
      add_result p top (text "path") path_key (get (text "waf.byPath") results) (
        add_result p top (text "method") (cell (text "method")) (get (text "waf.byMethod") results)
          (record { rows = []; keys_found = 0 }))

  -- `buildWAFBreakdownPanel` after its queries.
  unfoldable pub waf_breakdown_panel :
      Platform V → ℕ → LogSource → HeaderQueries → LogRun → Panel V (Row V)
  unfolding add_header_results add_dimension sum_waf pivot_waf_actions get cell path_key sort
  waf_breakdown_panel p top src q run =
      let noted : Panel V (Row V) =
        note_query_errors src run.errors
          (record (new_panel (text "waf-breakdown") (text "WAF 통계")) { warnings = q.warnings }) in
      let d : Dimensions V =
        add_header_results p top run.results q.headers (sort (map (λ e. e.0) q.headers))
          (method_and_path p top run.results) in
      note_query_cost p
        (push_stats
          (record noted {
            table = some (
                new_table dimension_columns (some d.rows)
                  (honest_total d.keys_found (length d.rows)) top);
            bars = some (record {
              key_column = text "key";
              value_column = text "count";
              group_column = some (text "dimension");
            });
          })
          (stat (text "waf.requests.total") (text "요청 수")
              (some (method_total p (get (text "waf.byMethod") run.results))) Measure.count
              (text "WAF 로그 메소드별 집계 합계 (전체)") none
            ∷ []))
        run.results

  unfoldable pub build_waf_breakdown_panel :
      Platform V → List Text → ℕ → LogSource → (Text → List Query → LogRun) → Panel V (Row V)
  unfolding waf_by_method waf_by_path add_headers waf_breakdown_panel
  build_waf_breakdown_panel p waf_headers top src ask =
      let fetch : ℕ = top * action_fanout in
      let q : HeaderQueries = add_headers fetch waf_headers (record {
        queries = waf_by_method ∷ waf_by_path fetch ∷ [];
        headers = [];
        warnings = [];
      }) in
      waf_breakdown_panel p top src q (ask (text "waf-breakdown") q.queries)
