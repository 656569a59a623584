-- ===== src/Query/Waf.antt =====
-- server/src/domain/query.ts: the queries on the logs of the WAF.
use skills_dashboard.Common.{ℕ, ◌+◌, [], ◌∷◌, ◌++◌, if◌then◌else◌, Result, ok, ◌>>=◌}
use skills_dashboard.Text.{Text, text, is_upper}
use skills_dashboard.Window.{Window}
use skills_dashboard.Runner.{Query}
use skills_dashboard.Query.{QueryError, header_parse}
use skills_dashboard.Query.Pods.{query, bin, limit_line}

unfoldable pub waf_action_series : Window → Query
unfolding bin
waf_action_series w =
    query (text "waf.action.series")
      (text "fields @timestamp\n"
        ++ (text "| stats count() as n by "
            ++ (bin w ++ (text " as t, action\n" ++ text "| sort t asc"))))
      0

abbrev pub breakdown_stats : Text → Text
breakdown_stats by =
    text "stats count() as n, max(@timestamp) as lastTs by "
    ++ (by ++ text ", action\n| sort n desc\n")

unfoldable pub waf_by_method : Query
waf_by_method =
    query (text "waf.byMethod") (breakdown_stats (text "httpRequest.httpMethod as method")) 0

unfoldable pub waf_by_path : ℕ → Query
unfolding limit_line
waf_by_path limit =
    query (text "waf.byPath")
      (breakdown_stats (text "httpRequest.uri as uri, httpRequest.args as args")
        ++ limit_line limit)
      limit

unfoldable pub waf_blocked : ℕ → Query
unfolding limit_line
waf_blocked limit =
    query (text "waf.blocked")
      (text "filter action = 'BLOCK'\n"
        ++ (text
              "| stats count() as n by terminatingRuleId as rule, httpRequest.clientIp as clientIp, httpRequest.country as country\n"
            ++ (text "| sort n desc\n" ++ limit_line limit)))
      limit

unfoldable pub waf_recent_list : ℕ → Result QueryError Query
unfolding header_parse limit_line
waf_recent_list limit = do
  agent ← header_parse (text "User-Agent") (text "uaCapture")
  ok (
      query (text "waf.recent.list")
        (agent
          ++ (text "\n"
              ++ (text
                    "| fields @timestamp, action, terminatingRuleId as rule, terminatingRuleType as ruleType,\n"
                  ++ (text "       responseCodeSent as responseCode, uaCapture as userAgent,\n"
                      ++ (text "       httpRequest.clientIp as clientIp,\n"
                          ++ (text
                                "       httpRequest.country as country, httpRequest.httpMethod as method,\n"
                              ++ (text "       httpRequest.uri as uri, httpRequest.args as args\n"
                                  ++ (text "| sort @timestamp desc\n" ++ limit_line limit))))))))
        limit)

-- `toLowerCase` of a name in ASCII, as a queryable header is.
unfoldable pub to_lower : Text → Text
to_lower [] = []
to_lower (c ∷ s) = (if is_upper c then c + 32 else c) ∷ to_lower s

unfoldable pub waf_by_header : Text → ℕ → Result QueryError Query
unfolding header_parse limit_line to_lower
waf_by_header name limit = do
  parse ← header_parse name (text "headerValue")
  ok (
      query (text "waf.byHeader." ++ to_lower name)
        (parse
          ++ (text "\n"
              ++ (text "| filter ispresent(headerValue)\n"
                  ++ (text "| "
                      ++ (breakdown_stats (text "headerValue as value") ++ limit_line limit)))))
        limit)
