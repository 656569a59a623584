-- ===== src/MetricPanels/Grouped.antt =====
-- server/src/http/panels-metrics.ts: the panels that show each metric for each chosen resource.
use skills_dashboard.Common.{
  Option, none, some, List, [], ◌∷◌, ◌++◌, map, ◌==◌, if◌then◌else◌, length, Result, ok, err,
}
use skills_dashboard.Text.{Text, text}
use skills_dashboard.TextMap.{get, put}
use skills_dashboard.Catalog.{MetricSpec}
use skills_dashboard.Catalog.Specs.{target_group_metrics, rds_proxy_metrics, waf_metrics}
use skills_dashboard.Config.{Config}
use skills_dashboard.Window.{Window}
use skills_dashboard.Series.{Series, Point, Measure, reduce, last}
use skills_dashboard.Payload.{Panel, Stat, Intent, new_panel, warn_panel}
use skills_dashboard.Fetch.{MetricRequest, MetricSeries}
use skills_dashboard.LogPanels.{Row, stat}
use skills_dashboard.LogPanels.Latency.{reduce_across}
use skills_dashboard.MetricPanels.{
  Arithmetic, FilterSet, Results, PanelError, set_key, metric_requests, target_group_filter_sets,
  found, sort_series, set_series_label, to_series_list, plain_style,
}

abbrev pub Ask : Type 0 → Type 0
Ask V = Text → List MetricRequest → Result PanelError (Results V)

-- The lines so far, and those of each metric.
pub record Grouped (V : Type 0) : Type 0 where
  pub lines : List (Series V)
  pub by_key : List (Text × List (Series V))

abbrev or_no_lines : {A : Type 0} → Option (List A) → List A
or_no_lines none = []
or_no_lines (some l) = l

abbrev pub proxy_set : Text → FilterSet
proxy_set id = record { id = id; label = id; filters = (text "ProxyName", id) ∷ [] }

abbrev pub acl_set : Text → FilterSet
acl_set id = record {
  id = id;
  label = id;
  filters = (text "WebACL", id) ∷ (text "Rule", text "ALL") ∷ [];
}

module _ {V : Type 0} where
  -- The lines of a metric.
  unfoldable pub lines_of : Text → List (Text × List (Series V)) → List (Series V)
  unfolding get
  lines_of key by_key = or_no_lines (get key by_key)

  -- The body of the inner loop.
  unfoldable pub add_set :
      Arithmetic V
      → Window
      → Results V
      → List FilterSet
      → MetricSpec
      → FilterSet
      → Grouped V
      → Grouped V
  unfolding set_key found sort_series to_series_list set_series_label lines_of put
  add_set p w results sets spec fs g =
      let list : List (MetricSeries V) = sort_series (found (set_key spec fs) results) in
      let lines : List (Series V) =
        to_series_list p w list spec (set_series_label sets fs spec (length list))
          (plain_style spec) in
      record {
        lines = g.lines ++ lines;
        by_key = put spec.key (lines_of spec.key g.by_key ++ lines) g.by_key;
      }

  unfoldable pub add_sets :
      Arithmetic V
      → Window
      → Results V
      → List FilterSet
      → MetricSpec
      → List FilterSet
      → Grouped V
      → Grouped V
  unfolding add_set
  add_sets p w results sets spec [] g = g
  add_sets p w results sets spec (fs ∷ rest) g =
      add_sets p w results sets spec rest (add_set p w results sets spec fs g)

  -- The outer loop.
  unfoldable pub add_specs :
      Arithmetic V → Window → Results V → List FilterSet → List MetricSpec → Grouped V → Grouped V
  unfolding add_sets
  add_specs p w results sets [] g = g
  add_specs p w results sets (spec ∷ specs) g =
      add_specs p w results sets specs (add_sets p w results sets spec sets g)

  unfoldable pub grouped :
      Arithmetic V → Window → Results V → List FilterSet → List MetricSpec → Grouped V
  unfolding add_specs
  grouped p w results sets specs =
      add_specs p w results sets specs (record { lines = []; by_key = [] })

  unfoldable pub max_across : Arithmetic V → Text → Grouped V → Point V
  unfolding lines_of reduce_across reduce
  max_across p key g = reduce_across (reduce p.greater) p.greater none (lines_of key g.by_key)

  unfoldable pub sum_across : Arithmetic V → Text → Grouped V → Point V
  unfolding lines_of reduce_across reduce
  sum_across p key g = reduce_across (reduce p.plus) p.plus none (lines_of key g.by_key)

  unfoldable pub last_across : Arithmetic V → Text → Grouped V → Point V
  unfolding lines_of reduce_across last
  last_across p key g = reduce_across last p.plus none (lines_of key g.by_key)

  -- `buildTargetGroupPanel`; `ask` fetches requests under a name.
  unfoldable pub build_target_group_panel :
      Arithmetic V → Config → Window → Ask V → Result PanelError (Panel V (Row V))
  unfolding target_group_filter_sets metric_requests grouped max_across sum_across
  build_target_group_panel p c w ask =
      let panel : Panel V (Row V) = new_panel (text "targetgroup") (text "타겟 그룹") in
      let sets : List FilterSet = target_group_filter_sets c in
      let results : Result PanelError (Results V) =
        ask (text "targetgroup") (metric_requests target_group_metrics sets) in
      if length sets == 0
      then ok (warn_panel panel (text "타겟 그룹이 선택되지 않았습니다. 설정에서 대상을 선택하세요."))
      else elim results [
        | err e ↦ err e
        | ok found_series ↦
            let g : Grouped V = grouped p w found_series sets target_group_metrics in
            ok (record panel {
              series = g.lines;
              stats =
                  stat (text "tg.p99.max") (text "최대 응답 시간 p99") (max_across p (text "tg.p99") g)
                    Measure.seconds (text "TargetResponseTime p99, 선택 구간 전체") (some Intent.neutral)
                  ∷ stat (text "tg.4xx.total") (text "대상 4xx") (sum_across p (text "tg.4xx") g)
                      Measure.count (text "HTTPCode_Target_4XX_Count Sum") (some Intent.warn)
                  ∷ stat (text "tg.5xx.total") (text "대상 5xx") (sum_across p (text "tg.5xx") g)
                      Measure.count (text "HTTPCode_Target_5XX_Count Sum") (some Intent.bad)
                  ∷ stat (text "tg.requests.total") (text "요청 수")
                      (sum_across p (text "tg.requests") g) Measure.count (text "RequestCount Sum")
                      none
                  ∷ [];
            })
      ]

  -- `buildRDSProxyPanel`
  unfoldable pub build_rds_proxy_panel :
      Arithmetic V → Config → Window → Ask V → Result PanelError (Panel V (Row V))
  unfolding metric_requests grouped max_across last_across
  build_rds_proxy_panel p c w ask =
      let panel : Panel V (Row V) = new_panel (text "rds-proxy") (text "RDS Proxy 커넥션") in
      let sets : List FilterSet = map proxy_set c.rds_proxies in
      if length c.rds_proxies == 0
      then ok (warn_panel panel (text "RDS Proxy가 선택되지 않았습니다. 설정에서 대상을 선택하세요."))
      else elim (ask (text "rds-proxy") (metric_requests rds_proxy_metrics sets)) [
        | err e ↦ err e
        | ok results ↦
            let g : Grouped V = grouped p w results sets rds_proxy_metrics in
            ok (record panel {
              series = g.lines;
              stats =
                  stat (text "proxy.db.current") (text "DB 커넥션 (현재)")
                    (last_across p (text "proxy.db") g) Measure.connections
                    (text "DatabaseConnections Average") none
                  ∷ stat (text "proxy.db.max") (text "DB 커넥션 (최대)")
                      (max_across p (text "proxy.db") g) Measure.connections
                      (text "DatabaseConnections Average, 구간 최대") none
                  ∷ stat (text "proxy.client.current") (text "클라이언트 커넥션 (현재)")
                      (last_across p (text "proxy.client") g) Measure.connections
                      (text "ClientConnections Average") none
                  ∷ stat (text "proxy.pinned.max") (text "세션 고정 (최대)")
                      (max_across p (text "proxy.pinned") g) Measure.connections
                      (text "DatabaseConnectionsCurrentlySessionPinned") (some Intent.warn)
                  ∷ stat (text "proxy.max.allowed") (text "최대 허용 커넥션")
                      (max_across p (text "proxy.max") g) Measure.connections
                      (text "MaxDatabaseConnectionsAllowed") none
                  ∷ [];
            })
      ]

  -- The rate of blocked requests, where there are requests.
  abbrev pub blocked_rate : Arithmetic V → Point V → Point V → List (Stat V)
  blocked_rate p none blocked = []
  blocked_rate p (some a) none = []
  blocked_rate p (some a) (some b) =
      if p.less p.nought (p.plus a b)
      then stat (text "waf.blocked.rate") (text "차단 비율") (some (p.share b a)) Measure.percent
          (text "BlockedRequests / (Allowed + Blocked), 메트릭 기준") none
        ∷ []
      else []

  -- `buildWAFMetricsPanel`; `ask` goes to the region of the WAF.
  unfoldable pub build_waf_metrics_panel :
      Arithmetic V → Config → Window → Ask V → Result PanelError (Panel V (Row V))
  unfolding metric_requests grouped sum_across
  build_waf_metrics_panel p c w ask =
      let panel : Panel V (Row V) = new_panel (text "waf-metrics") (text "WAF 메트릭") in
      let sets : List FilterSet = map acl_set c.web_acls in
      if length c.web_acls == 0
      then ok (warn_panel panel (text "Web ACL이 선택되지 않았습니다. 설정에서 대상을 선택하세요."))
      else elim (ask (text "waf-metrics") (metric_requests waf_metrics sets)) [
        | err e ↦ err e
        | ok results ↦
            let g : Grouped V = grouped p w results sets waf_metrics in
            let allowed : Point V = sum_across p (text "waf.allowed") g in
            let blocked : Point V = sum_across p (text "waf.blocked") g in
            ok (
              warn_panel
                (record panel {
                  series = g.lines;
                  stats =
                      (stat (text "waf.allowed.total") (text "허용") allowed Measure.count
                          (text "AWS/WAFV2 AllowedRequests Sum") none
                        ∷ stat (text "waf.blocked.total") (text "차단") blocked Measure.count
                            (text "AWS/WAFV2 BlockedRequests Sum") none
                        ∷ [])
                      ++ blocked_rate p allowed blocked;
                })
                (text "이 값은 CloudWatch 메트릭 기준입니다. 로그 기반 통계와는 전달 지연으로 차이가 날 수 있습니다."))
      ]
