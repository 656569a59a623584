-- ===== src/Pages.antt =====
-- server/src/http/panels.ts: which panels there are, the pages made of them, and how a request for a
-- panel or for a page is answered.
pub mod Builders
pub mod Answers
use skills_dashboard.Common.{
  ℕ, zero, suc, ◌+◌, ◌-◌, ◌*◌, ◌/◌, ◌%◌, ◌^◌, ◌≤◌, ◌<◌, min, ◌≡◌, refl, sym, ap, ◌∙◌, subst, ◌≢◌,
  ◌↔◌, ◌⊎◌, inl, inr, Bool, true, false, ◌&&◌, ◌||◌, not, Option, none, some, List, [], ◌∷◌, ◌++◌,
  map, append-nil, append_assoc, arith, ltb, leb, ◌==◌, if◌then◌else◌, Bool-cases, Option-cases,
  length, get_elem?, set, take, drop, replicate, length-append, length-map, length-replicate,
  Listed, All, All-Listed, All-append, Result, ok, err, ◌>>=◌, ◌>>◌, >>=-eq-ok, Result-cases,
}
use skills_dashboard.Common.{ℤ, pos_part}
use skills_dashboard.Text.{Text, text, text_eq, is_empty, is_lower, is_digit, trim}
use skills_dashboard.TextMap.{get}
use skills_dashboard.Window.{Window, WindowError, resolve_window}
use skills_dashboard.Config.{Config}
use skills_dashboard.LogFormat.{LogFormat}
use skills_dashboard.Payload.{
  Panel, Payload, PayloadError, new_panel, warn_panel, new_payload, add_panels, validate_payload,
}
use skills_dashboard.Runner.{Query}
use skills_dashboard.LogPanels.{Platform, Row, LogSource}
use skills_dashboard.Requests.{Connection, pod_logs, waf_logs, request_config}
use skills_dashboard.LogPanels.Runs.{LogRun}
use skills_dashboard.LogPanels.Latency.{build_pod_latency_panel}
use skills_dashboard.LogPanels.Status.{build_pod_status_code_panel}
use skills_dashboard.LogPanels.Breakdown.{build_pod_status_breakdown_panel}
use skills_dashboard.LogPanels.Levels.{build_pod_error_panel}
use skills_dashboard.LogPanels.Waf.{build_waf_traffic_panel, build_waf_blocked_panel}
use skills_dashboard.LogPanels.WafBreakdown.{error_words, build_waf_breakdown_panel}
use skills_dashboard.MetricPanels.{Arithmetic, PanelError, not_fetched, no_metric}
use skills_dashboard.MetricPanels.Grouped.{
  Ask, build_target_group_panel, build_rds_proxy_panel, build_waf_metrics_panel,
}
use skills_dashboard.MetricPanels.Cluster.{pod_resource_panel, node_resource_panel}
use skills_dashboard.MetricPanels.Status.{NodeScaling, build_counts_panel, build_pod_status_panel}

-- What the panels of a request use: how queries on a source and requests for metrics are answered.
pub record Engine (V : Type 0) : Type 0 where
  pub platform : Platform V
  pub arithmetic : Arithmetic V
  pub ask_logs : LogSource → Window → Text → List Query → LogRun
  pub ask_metrics : Window → Ask V
  pub scaling : Text → Result Text (NodeScaling V)

abbrev pub Builder : Type 0 → Type 0
Builder V = Window → Config → Result Text (Panel V (Row V))

abbrev panel_error_words : PanelError → Text
panel_error_words (not_fetched e) = e
panel_error_words (no_metric key) = key

-- What a builder throws, as its message.
abbrev pub in_words : {E A : Type 0} → (E → Text) → Result E A → Result Text A
in_words words (ok a) = ok a
in_words words (err e) = err (words e)

module _ {V : Type 0} (e : Engine V) (conn : Connection) where
  abbrev of_metrics : Result PanelError (Panel V (Row V)) → Result Text (Panel V (Row V))
  of_metrics r = in_words panel_error_words r

  -- `panelBuilders`
  unfoldable pub panel_builders : List (Text × Builder V)
  unfolding pod_logs waf_logs error_words
  panel_builders =
      (
        text "targetgroup",
        λ w c. of_metrics (build_target_group_panel e.arithmetic c w (e.ask_metrics w)),
      )
      ∷ (
        text "pod-cpu",
        λ w c. of_metrics (
            pod_resource_panel e.arithmetic c w (text "pod-cpu") (text "팟 CPU 사용률") (text "pod.cpu")
              (e.ask_metrics w)),
      )
      ∷ (
        text "pod-mem",
        λ w c. of_metrics (
            pod_resource_panel e.arithmetic c w (text "pod-mem") (text "팟 메모리 사용률") (text "pod.mem")
              (e.ask_metrics w)),
      )
      ∷ (
        text "node-cpu",
        λ w c. of_metrics (
            node_resource_panel e.arithmetic c w (text "node-cpu") (text "노드 CPU 사용률")
              (text "node.cpu") (e.ask_metrics w)),
      )
      ∷ (
        text "node-mem",
        λ w c. of_metrics (
            node_resource_panel e.arithmetic c w (text "node-mem") (text "노드 메모리 사용률")
              (text "node.mem") (e.ask_metrics w)),
      )
      ∷ (
        text "node-disk",
        λ w c. of_metrics (
            node_resource_panel e.arithmetic c w (text "node-disk") (text "노드 디스크 사용률")
              (text "node.fs") (e.ask_metrics w)),
      )
      ∷ (
        text "counts",
        λ w c.
            of_metrics
              (build_counts_panel e.arithmetic c w (e.ask_metrics w) (e.scaling c.cluster_name)),
      )
      ∷ (
        text "pod-status",
        λ w c. of_metrics (build_pod_status_panel e.arithmetic c w (e.ask_metrics w)),
      )
      ∷ (
        text "rds-proxy",
        λ w c. of_metrics (build_rds_proxy_panel e.arithmetic c w (e.ask_metrics w)),
      )
      ∷ (
        text "waf-metrics",
        λ w c. of_metrics (build_waf_metrics_panel e.arithmetic c w (e.ask_metrics w)),
      )
      ∷ (
        text "pod-latency",
        λ w c. in_words error_words (
            build_pod_latency_panel e.platform c.log_format w (pod_logs conn c)
              (e.ask_logs (pod_logs conn c) w)),
      )
      ∷ (
        text "pod-status-codes",
        λ w c. in_words error_words (
            build_pod_status_code_panel e.platform c.log_format w (pos_part c.limits.log_rows)
              (pod_logs conn c) (e.ask_logs (pod_logs conn c) w)),
      )
      ∷ (
        text "pod-status-breakdown",
        λ w c. in_words error_words (
            build_pod_status_breakdown_panel e.platform c.log_format (pos_part c.limits.top_n)
              (pod_logs conn c) (e.ask_logs (pod_logs conn c) w)),
      )
      ∷ (
        text "pod-errors",
        λ w c. in_words error_words (
            build_pod_error_panel e.platform c.log_format w (pos_part c.limits.log_rows)
              (pod_logs conn c) (e.ask_logs (pod_logs conn c) w)),
      )
      ∷ (
        text "waf-traffic",
        λ w c. in_words error_words (
            build_waf_traffic_panel e.platform w (pos_part c.limits.log_rows) (waf_logs conn c)
              (e.ask_logs (waf_logs conn c) w)),
      )
      ∷ (
        text "waf-blocked",
        λ w c. ok (
            build_waf_blocked_panel e.platform (pos_part c.limits.top_n) (waf_logs conn c)
              (e.ask_logs (waf_logs conn c) w)),
      )
      ∷ (
        text "waf-breakdown",
        λ w c. ok (
            build_waf_breakdown_panel e.platform c.waf_headers (pos_part c.limits.top_n)
              (waf_logs conn c) (e.ask_logs (waf_logs conn c) w)),
      )
      ∷ []

-- `pages`
unfoldable pub pages : List (Text × List Text)
pages =
    (
      text "overview",
      text "pod-latency"
          ∷ text "pod-status-codes"
          ∷ text "targetgroup"
          ∷ text "counts"
          ∷ text "pod-status"
          ∷ text "waf-traffic"
          ∷ [],
    )
    ∷ (
      text "pod-logs",
      text "pod-latency"
          ∷ text "pod-status-codes"
          ∷ text "pod-status-breakdown"
          ∷ text "pod-errors"
          ∷ [],
    )
    ∷ (
      text "waf",
      text "waf-traffic" ∷ text "waf-blocked" ∷ text "waf-breakdown" ∷ text "waf-metrics" ∷ [],
    )
    ∷ (text "targetgroup", text "targetgroup" ∷ [])
    ∷ (
      text "kubernetes",
      text "pod-cpu"
          ∷ text "pod-mem"
          ∷ text "node-cpu"
          ∷ text "node-mem"
          ∷ text "node-disk"
          ∷ text "counts"
          ∷ text "pod-status"
          ∷ [],
    )
    ∷ (text "database", text "rds-proxy" ∷ [])
    ∷ []

-- A request: what its address carries, and when its caller leaves or its time is up.
pub record Request : Type 0 where
  pub id : Text
  pub range : Text
  pub period : Text
  pub namespace : Option Text
  pub left : Bool
  pub aborted : Text → Bool
  pub aborted_first : Bool

-- The answers, by their status: 503, 400, 499, 502, 500 and 200.
pub data Answer (V : Type 0) : Type 0 where
  unavailable : Text → Answer V
  bad_request : Text → Answer V
  bad_window : WindowError → Answer V
  closed : Answer V
  upstream : Text → Answer V
  invalid : PayloadError → Answer V
  answered : Payload V (Row V) → Answer V

module _ {V : Type 0} where
  unfoldable pub finish : Payload V (Row V) → Answer V
  unfolding validate_payload
  finish payload = elim (validate_payload payload) [ ok _ ↦ answered payload | err e ↦ invalid e ]

  -- A panel of a page: a builder that throws leaves a panel with a warning.
  unfoldable pub panel_or_warning : Text → Result Text (Panel V (Row V)) → Panel V (Row V)
  unfolding new_panel warn_panel
  panel_or_warning id (ok panel) = panel
  panel_or_warning id (err message) = warn_panel (new_panel id id) message

  -- The panels of a page in its order, those left out that the abort of the request came before.
  unfoldable pub build_each :
      List (Text × Builder V) → (Text → Bool) → Window → Config → List Text → List (Panel V (Row V))
  unfolding get panel_or_warning
  build_each builders aborted w c [] = []
  build_each builders aborted w c (id ∷ ids) =
      let rest : List (Panel V (Row V)) = build_each builders aborted w c ids in
      elim (get id builders) [
        | none ↦ rest
        | some build ↦ if aborted id then rest else panel_or_warning id (build w c) ∷ rest
      ]

  unfoldable pub build_panels :
      List (Text × Builder V) → Request → Window → Config → List Text → List (Panel V (Row V))
  unfolding build_each
  build_panels builders r w c ids =
      if r.aborted_first then [] else build_each builders r.aborted w c ids

  -- `windowAndConfig`, and what is done with it.
  unfoldable pub with_window : ℤ → Config → Request → (Window → Config → Answer V) → Answer V
  unfolding resolve_window request_config
  with_window now c r next = elim (resolve_window now r.range r.period) [
    | err e ↦ bad_window e
    | ok w ↦ elim (request_config c r.namespace) [ err e ↦ bad_request e | ok rc ↦ next w rc ]
  ]

  unfoldable pub handle_panel : Engine V → Result Text Connection → ℤ → Config → Request → Answer V
  unfolding panel_builders get with_window finish
  handle_panel e (err denied) now c r = unavailable denied
  handle_panel e (ok conn) now c r = elim (get r.id (panel_builders e conn)) [
    | none ↦ bad_request (text "unknown panel \"" ++ (r.id ++ text "\""))
    | some build ↦ with_window now c r (λ w rc. elim (build w rc) [
      | err message ↦ if r.left then closed else upstream message
      | ok panel ↦ finish (add_panels (new_payload w) (panel ∷ []))
    ])
  ]

  unfoldable pub handle_page : Engine V → Result Text Connection → ℤ → Config → Request → Answer V
  unfolding pages panel_builders get with_window build_panels finish
  handle_page e (err denied) now c r = unavailable denied
  handle_page e (ok conn) now c r = elim (get r.id pages) [
    | none ↦ bad_request (text "unknown page \"" ++ (r.id ++ text "\""))
    | some ids ↦ with_window now c r (λ w rc.
        let panels : List (Panel V (Row V)) = build_panels (panel_builders e conn) r w rc ids in
        if r.left then closed else finish (add_panels (new_payload w) panels))
  ]
