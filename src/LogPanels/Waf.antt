-- ===== src/LogPanels/Waf.antt =====
-- server/src/http/panels-logs.ts, `buildWAFTrafficPanel` and `buildWAFBlockedPanel`.
use skills_dashboard.Common.{
  ℕ, not, Option, none, some, List, [], ◌∷◌, ◌++◌, map, if◌then◌else◌, length, Result, ok, ◌>>=◌,
}
use skills_dashboard.Common.{pos}
use skills_dashboard.Text.{Text, text, text_eq, is_empty, trim, includes}
use skills_dashboard.TextMap.{get, put}
use skills_dashboard.Catalog.Search.{sort}
use skills_dashboard.Window.{Window, buckets}
use skills_dashboard.Series.{Series, Measure, new_series, add_at}
use skills_dashboard.Payload.{Panel, Column, Stat, new_table, new_panel}
use skills_dashboard.Runner.{Query}
use skills_dashboard.Query.{QueryError}
use skills_dashboard.Query.Waf.{waf_action_series, waf_recent_list, waf_blocked}
use skills_dashboard.LogPanels.{
  Platform, LogRow, Cell, words, Row, cell, cell_or, honest_total, LogSource, stat, push_stats,
  note_query_cost, note_query_errors, rows_of,
}
use skills_dashboard.LogPanels.Rows.{row_float, row_bucket}
use skills_dashboard.LogPanels.Runs.{LogRun}
use skills_dashboard.LogPanels.Tallies.{
  plain_column, copied, monospaced, number_column, hidden, or_new, pick,
}

-- `wafResponseNote`, with the action in capital letters.
unfoldable pub waf_response_note : Text → Text → Text
unfolding includes
waf_response_note action sent =
    if not (is_empty sent)
    then sent ++ text " (WAF 사용자 지정 응답)"
    else if text_eq action (text "BLOCK")
    then text "403 · WAF 기본 차단 응답 (로그에 코드가 기록되지 않음)"
    else if includes (text "CAPTCHA" ∷ text "CHALLENGE" ∷ []) action
    then text "WAF가 CAPTCHA · Challenge 응답을 보냈습니다 (코드는 로그에 없음)"
    else text "WAF 로그에 없음 · 애플리케이션 응답 코드는 팟 로그에서 확인하세요"

-- `wafActionColor`, with the action in capital letters.
unfoldable pub waf_action_color : Text → Text
unfolding includes
waf_action_color action =
    if text_eq action (text "ALLOW")
    then text "systemGreen"
    else if text_eq action (text "BLOCK")
    then text "systemPink"
    else if includes (text "COUNT" ∷ text "EXCLUDED_AS_COUNT" ∷ []) action
    then text "systemGray"
    else if text_eq action (text "CHALLENGE")
    then text "systemOrange"
    else if text_eq action (text "CAPTCHA")
    then text "systemPurple"
    else text "systemYellow"

abbrev pub action_label : LogRow → Text
action_label row = cell_or (text "action") (text "(none)") row

abbrev traffic_columns : List Column
traffic_columns =
    monospaced (plain_column (text "timestamp") (text "시각"))
    ∷ plain_column (text "action") (text "처리")
    ∷ plain_column (text "method") (text "메소드")
    ∷ monospaced (copied (plain_column (text "uri") (text "경로")))
    ∷ monospaced (copied (plain_column (text "args") (text "쿼리")))
    ∷ monospaced (copied (plain_column (text "clientIp") (text "클라이언트")))
    ∷ plain_column (text "country") (text "국가")
    ∷ copied (plain_column (text "rule") (text "룰"))
    ∷ hidden (plain_column (text "ruleType") (text "룰 종류"))
    ∷ hidden (monospaced (copied (plain_column (text "userAgent") (text "User-Agent"))))
    ∷ hidden (plain_column (text "responseCode") (text "응답 코드"))
    ∷ []

abbrev blocked_columns : List Column
blocked_columns =
    monospaced (copied (plain_column (text "rule") (text "규칙")))
    ∷ monospaced (copied (plain_column (text "clientIp") (text "클라이언트 IP")))
    ∷ plain_column (text "country") (text "국가")
    ∷ number_column (plain_column (text "count") (text "건수"))
    ∷ []

-- The series of each action, and its total.
pub record Traffic (V : Type 0) : Type 0 where
  pub by_action : List (Text × Series V)
  pub totals : List (Text × V)

module _ {V : Type 0} where
  unfoldable pub traffic_row : Platform V → Window → LogRow → Traffic V → Traffic V
  unfolding row_bucket row_float waf_action_color get put add_at
  traffic_row p w row t = elim (row_bucket p w row) [
    | none ↦ t
    | some i ↦ elim (row_float p row (text "n")) [
      | none ↦ t
      | some v ↦
          let action : Text = action_label row in
          let start : Series V =
            new_series action Measure.count (waf_action_color (p.upper action)) (buckets w) in
          record {
            by_action =
                put action (add_at p.plus (or_new start (get action t.by_action)) (pos i) v)
                  t.by_action;
            totals = put action (p.plus (or_new p.nought (get action t.totals)) v) t.totals;
          }
    ]
  ]

  unfoldable pub traffic_rows : Platform V → Window → List LogRow → Traffic V → Traffic V
  unfolding traffic_row
  traffic_rows p w [] t = t
  traffic_rows p w (row ∷ rows) t = traffic_rows p w rows (traffic_row p w row t)

  unfoldable pub action_stat : Platform V → List (Text × V) → Text → Stat V
  unfolding get
  action_stat p totals action =
      stat (text "waf.log." ++ p.lower action) action (some (or_new p.nought (get action totals)))
        Measure.count (text "WAF 로그 action 집계 (전체)") none

  -- The sum of the totals of a list of actions.
  unfoldable pub overall : Platform V → List (Text × V) → List Text → V → V
  unfolding get
  overall p totals [] sum = sum
  overall p totals (action ∷ actions) sum =
      overall p totals actions (p.plus sum (or_new p.nought (get action totals)))

  abbrev cell_of : LogRow → Text → Text × Cell V
  cell_of r key = (key, words (cell key r))

  unfoldable pub request_row : Platform V → LogRow → Row V
  unfolding cell waf_response_note trim
  request_row p r =
      (text "timestamp", words (cell (text "@timestamp") r))
      ∷ cell_of r (text "action")
      ∷ cell_of r (text "rule")
      ∷ cell_of r (text "clientIp")
      ∷ cell_of r (text "country")
      ∷ cell_of r (text "method")
      ∷ cell_of r (text "uri")
      ∷ cell_of r (text "args")
      ∷ cell_of r (text "ruleType")
      ∷ cell_of r (text "userAgent")
      ∷ (
        text "responseCode",
        words (
            waf_response_note (p.upper (trim (cell (text "action") r)))
              (cell (text "responseCode") r)),
      )
      ∷ []

  -- `buildWAFTrafficPanel` after its queries.
  unfoldable pub traffic_panel : Platform V → Window → ℕ → LogSource → LogRun → Panel V (Row V)
  unfolding traffic_rows action_stat overall request_row pick sort
  traffic_panel p w limit src run =
      let noted : Panel V (Row V) =
        note_query_errors src run.errors (new_panel (text "waf-traffic") (text "WAF 트래픽")) in
      let t : Traffic V =
        traffic_rows p w (rows_of (text "waf.action.series") run.results)
          (record { by_action = []; totals = [] }) in
      let actions : List Text = sort (map (λ e. e.0) t.by_action) in
      let rows : List (Row V) =
        map (request_row p) (rows_of (text "waf.recent.list") run.results) in
      note_query_cost p
        (push_stats
          (record noted {
            series = noted.series ++ pick t.by_action actions;
            table = some (
                new_table traffic_columns (some rows)
                  (honest_total (p.trunc (overall p t.totals actions p.nought)) (length rows))
                  limit);
          })
          (map (action_stat p t.totals) actions))
        run.results

  unfoldable pub build_waf_traffic_panel :
      Platform V
      → Window
      → ℕ
      → LogSource
      → (Text → List Query → LogRun)
      → Result QueryError (Panel V (Row V))
  unfolding waf_action_series waf_recent_list traffic_panel
  build_waf_traffic_panel p w limit src ask = do
    recent ← waf_recent_list limit
    ok (traffic_panel p w limit src (ask (text "waf-traffic") (waf_action_series w ∷ recent ∷ [])))

  abbrev or_nought : Platform V → Option V → V
  or_nought p none = p.nought
  or_nought p (some v) = v

  unfoldable pub list_total : Platform V → List LogRow → V → V
  unfolding row_float
  list_total p [] total = total
  list_total p (r ∷ rs) total =
      list_total p rs (p.plus total (or_nought p (row_float p r (text "n"))))

  unfoldable pub blocked_row : LogRow → Row V
  unfolding cell
  blocked_row r =
      cell_of r (text "rule")
      ∷ cell_of r (text "clientIp")
      ∷ cell_of r (text "country")
      ∷ (text "count", words (cell (text "n") r))
      ∷ []

  unfoldable pub build_waf_blocked_panel :
      Platform V → ℕ → LogSource → (Text → List Query → LogRun) → Panel V (Row V)
  unfolding waf_blocked list_total blocked_row
  build_waf_blocked_panel p top src ask =
      let run : LogRun = ask (text "waf-blocked") (waf_blocked top ∷ []) in
      let noted : Panel V (Row V) =
        note_query_errors src run.errors (new_panel (text "waf-blocked") (text "차단된 요청")) in
      let found : List LogRow = rows_of (text "waf.blocked") run.results in
      let rows : List (Row V) = map blocked_row found in
      note_query_cost p
        (record noted {
          table = some (
              new_table blocked_columns (some rows)
                (honest_total (p.trunc (list_total p found p.nought)) (length rows)) top);
          bars = some (record {
            key_column = text "rule";
            value_column = text "count";
            group_column = none;
          });
        })
        run.results
