-- ===== src/Pages/Builders.antt =====
-- server/src/http/panels.ts, `panelBuilders`: what they return.
use skills_dashboard.Common.{◌≡◌, ap, [], ◌∷◌, Result, ok, err}
use skills_dashboard.Common.{pos_part}
use skills_dashboard.Text.{Text, text}
use skills_dashboard.Window.{Window, buckets}
use skills_dashboard.Config.{Config}
use skills_dashboard.Catalog.Specs.{specs_with_prefix, pod_resource_metrics, node_resource_metrics}
use skills_dashboard.Payload.{Panel}
use skills_dashboard.Payload.Checks.{PanelFits}
use skills_dashboard.LogPanels.{Row}
use skills_dashboard.LogPanels.Fits.{Values}
use skills_dashboard.LogPanels.Accepted.{Built, Built-PanelFits}
use skills_dashboard.LogPanels.Accepted.{
  latency, status_codes, status_breakdown, error_lines, waf_traffic, waf_blocked, waf_breakdown,
}
use skills_dashboard.Query.{QueryError}
use skills_dashboard.MetricPanels.{PanelError}
use skills_dashboard.MetricPanels.Cluster.{pod_resource_panel, node_resource_panel}
use skills_dashboard.MetricPanels.Accepted.{Shown, Shown-Fits}
use skills_dashboard.MetricPanels.Accepted.{
  target_groups, rds_proxies, web_acls, resources, counts, pod_status,
}
use skills_dashboard.Pages.{Engine, Builder, in_words, panel_builders}
use skills_dashboard.Requests.{Connection, pod_logs, waf_logs}

-- Whatever a builder returns is a panel that a payload may have.
abbrev pub Sound : {V : Type 0} → Builder V → Type 0
Sound {V} build =
    (w : Window) (c : Config) (panel : Panel V (Row V))
    → build w c ≡ ok panel
    → PanelFits (buckets w) panel

in_words_ok :
    {E A : Type 0} (words : E → Text) (r : Result E A) (a : A) → in_words words r ≡ ok a → r ≡ ok a
in_words_ok words (ok b) a h = let same : b ≡ a = cc h in ap ok same
in_words_ok words (err e) a h = cc

ok_same : {E A : Type 0} (a b : A) → ◌≡◌ {A = Result E A} (ok a) (ok b) → a ≡ b
ok_same a b h = cc h

module _ {V : Type 0} (e : Engine V) (conn : Connection) where
  logs-Sound :
      (words : QueryError → Text) (make : Window → Config → Result QueryError (Panel V (Row V)))
      → ((w : Window) (c : Config) (panel : Panel V (Row V))
          → make w c ≡ ok panel
          → Built e.platform w panel)
      → Sound (λ w c. in_words words (make w c))
  logs-Sound words make built w c panel h =
      Built-PanelFits e.platform w panel (built w c panel (in_words_ok words (make w c) panel h))

  metrics-Sound :
      (words : PanelError → Text) (make : Window → Config → Result PanelError (Panel V (Row V)))
      → ((w : Window) (c : Config) (panel : Panel V (Row V))
          → make w c ≡ ok panel
          → Shown e.arithmetic w panel)
      → Sound (λ w c. in_words words (make w c))
  metrics-Sound words make shown w c panel h =
      Shown-Fits e.arithmetic w panel (shown w c panel (in_words_ok words (make w c) panel h))

  pods-Shown :
      (w : Window) (c : Config) (id title prefix : Text) (panel : Panel V (Row V))
      → pod_resource_panel e.arithmetic c w id title prefix (e.ask_metrics w) ≡ ok panel
      → Shown e.arithmetic w panel
  unfolding pod_resource_panel
  pods-Shown w c id title prefix panel h =
      resources c (e.ask_metrics w) id title (specs_with_prefix pod_resource_metrics prefix)
        ((text "ClusterName", c.cluster_name) ∷ (text "Namespace", c.namespace) ∷ []) (text "팟") h

  nodes-Shown :
      (w : Window) (c : Config) (id title prefix : Text) (panel : Panel V (Row V))
      → node_resource_panel e.arithmetic c w id title prefix (e.ask_metrics w) ≡ ok panel
      → Shown e.arithmetic w panel
  unfolding node_resource_panel
  nodes-Shown w c id title prefix panel h =
      resources c (e.ask_metrics w) id title (specs_with_prefix node_resource_metrics prefix)
        ((text "ClusterName", c.cluster_name) ∷ []) (text "노드") h

  pub panel_builders-Sound : Values Sound (panel_builders e conn)
  unfolding panel_builders
  panel_builders-Sound = (
    metrics-Sound _ _ (λ w c panel h. target_groups c (e.ask_metrics w) h),
    (
      metrics-Sound _ _ (λ w c panel h. pods-Shown w c _ _ _ panel h),
      (
        metrics-Sound _ _ (λ w c panel h. pods-Shown w c _ _ _ panel h),
        (
          metrics-Sound _ _ (λ w c panel h. nodes-Shown w c _ _ _ panel h),
          (
            metrics-Sound _ _ (λ w c panel h. nodes-Shown w c _ _ _ panel h),
            (
              metrics-Sound _ _ (λ w c panel h. nodes-Shown w c _ _ _ panel h),
              (
                metrics-Sound _ _
                    (λ w c panel h. counts c (e.ask_metrics w) (e.scaling c.cluster_name) h),
                (
                  metrics-Sound _ _ (λ w c panel h. pod_status c (e.ask_metrics w) h),
                  (
                    metrics-Sound _ _ (λ w c panel h. rds_proxies c (e.ask_metrics w) h),
                    (
                      metrics-Sound _ _ (λ w c panel h. web_acls c (e.ask_metrics w) h),
                      (
                        logs-Sound _ _ (λ w c panel h.
                            latency c.log_format (pod_logs conn c) (e.ask_logs (pod_logs conn c) w)
                              h),
                        (
                          logs-Sound _ _ (λ w c panel h.
                              status_codes c.log_format (pos_part c.limits.log_rows)
                                (pod_logs conn c) (e.ask_logs (pod_logs conn c) w) h),
                          (
                            logs-Sound _ _ (λ w c panel h.
                                status_breakdown c.log_format (pos_part c.limits.top_n)
                                  (pod_logs conn c) (e.ask_logs (pod_logs conn c) w) h),
                            (
                              logs-Sound _ _ (λ w c panel h.
                                  error_lines c.log_format (pos_part c.limits.log_rows)
                                    (pod_logs conn c) (e.ask_logs (pod_logs conn c) w) h),
                              (
                                logs-Sound _ _ (λ w c panel h.
                                    waf_traffic (pos_part c.limits.log_rows) (waf_logs conn c)
                                      (e.ask_logs (waf_logs conn c) w) h),
                                (
                                  (λ w c panel h. Built-PanelFits e.platform w panel (
                                      waf_blocked (pos_part c.limits.top_n) (waf_logs conn c)
                                        (e.ask_logs (waf_logs conn c) w) (ok_same _ _ h))),
                                  (
                                    (λ w c panel h. Built-PanelFits e.platform w panel (
                                        waf_breakdown c.waf_headers (pos_part c.limits.top_n)
                                          (waf_logs conn c) (e.ask_logs (waf_logs conn c) w)
                                          (ok_same _ _ h))),
                                    tt,
                                  ),
                                ),
                              ),
                            ),
                          ),
                        ),
                      ),
                    ),
                  ),
                ),
              ),
            ),
          ),
        ),
      ),
    ),
  )
