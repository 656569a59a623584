-- ===== src/MetricPanels/Status.antt =====
-- server/src/http/panels-metrics.ts: the panels on the number of pods and nodes and on the state of pods.
use skills_dashboard.Common.{
  Bool, none, some, List, [], ◌∷◌, ◌++◌, ltb, if◌then◌else◌, length, Result, ok, err, ◌>>=◌,
}
use skills_dashboard.Text.{Text, text, text_eq, is_empty, join}
use skills_dashboard.Catalog.{MetricSpec}
use skills_dashboard.Catalog.Specs.{count_metrics, pod_status_metrics}
use skills_dashboard.Config.{Config}
use skills_dashboard.Window.{Window}
use skills_dashboard.Series.{Series, Measure, reduce, last}
use skills_dashboard.Payload.{Panel, new_panel, warn_panel}
use skills_dashboard.Fetch.{MetricRequest}
use skills_dashboard.LogPanels.{Row, stat, push_stats}
use skills_dashboard.LogPanels.Latency.{reduce_across}
use skills_dashboard.MetricPanels.{
  Arithmetic, Results, PanelError, no_metric, metric_requests, to_series_list, plain_style,
  sum_series,
}
use skills_dashboard.MetricPanels.Cluster.{cluster_sets, of_cluster, nothing_found}

-- What `clusterNodeScaling` returns.
pub record NodeScaling (V : Type 0) : Type 0 where
  pub least : V
  pub most : V
  pub groups : List Text

-- The metric with a key.
unfoldable pub find_metric : Text → List MetricSpec → Result PanelError MetricSpec
find_metric key [] = err (no_metric key)
find_metric key (spec ∷ specs) =
    let rest = find_metric key specs in if text_eq spec.key key then ok spec else rest

module _ {V : Type 0} where
  -- The lines of a metric of the cluster, each with the name of the metric.
  unfoldable pub named_lines : Arithmetic V → Window → Results V → MetricSpec → List (Series V)
  unfolding of_cluster to_series_list
  named_lines p w results spec =
      to_series_list p w (of_cluster spec results) spec (λ m. spec.label) (plain_style spec)

  -- The sum of the lines of a metric of the cluster.
  unfoldable pub summed_line : Arithmetic V → Window → Results V → MetricSpec → Text → Series V
  unfolding of_cluster to_series_list sum_series
  summed_line p w results spec label =
      sum_series p.plus w
        (to_series_list p w (of_cluster spec results) spec (λ m. m.label) (plain_style spec)) label
        spec.measure spec.color

  unfoldable pub add_scaling : Result Text (NodeScaling V) → Panel V (Row V) → Panel V (Row V)
  unfolding join warn_panel
  add_scaling (err message) panel = warn_panel panel (text "노드 최소/최대를 읽지 못했습니다: " ++ message)
  add_scaling (ok scaling) panel =
      let basis : Text =
        text "EKS 노드그룹 scalingConfig 합계"
        ++ (if ltb 0 (length scaling.groups)
            then text " (" ++ (join (text ", ") scaling.groups ++ text ")")
            else []) in
      push_stats panel (
        stat (text "nodes.min") (text "노드 (최소)") (some scaling.least) Measure.count basis none
        ∷ stat (text "nodes.max") (text "노드 (최대)") (some scaling.most) Measure.count basis none
        ∷ [])

  -- The lines and statistics of `buildCountsPanel`.
  unfoldable pub counts_panel :
      Arithmetic V
      → Window
      → Results V
      → MetricSpec
      → MetricSpec
      → MetricSpec
      → Panel V (Row V)
      → Panel V (Row V)
  unfolding named_lines summed_line last reduce reduce_across
  counts_panel p w results pod_spec node_spec failed_spec panel =
      let pods : Series V = summed_line p w results pod_spec (text "실행 중 팟") in
      let nodes : List (Series V) = named_lines p w results node_spec in
      let failures : List (Series V) = named_lines p w results failed_spec in
      let observed : Text = text "관측값 (구간 내 최소/최대)" in
      push_stats (record panel { series = panel.series ++ (pods ∷ (nodes ++ failures)) })
        (stat (text "pods.current") (text "팟 (현재)") (last pods) Measure.count
            (text "service_number_of_running_pods 합계") none
          ∷ stat (text "pods.min") (text "팟 (최소)") (reduce p.lesser pods) Measure.count observed
              none
          ∷ stat (text "pods.max") (text "팟 (최대)") (reduce p.greater pods) Measure.count observed
              none
          ∷ stat (text "nodes.current") (text "노드 (현재)") (reduce_across last p.greater none nodes)
              Measure.count (text "cluster_node_count") none
          ∷ stat (text "nodes.failed") (text "실패 노드")
              (reduce_across (reduce p.greater) p.greater none failures) Measure.count
              (text "cluster_failed_node_count Maximum, 구간 최대") failed_spec.intent
          ∷ [])

  -- `buildCountsPanel`; `scaling` is what `nodeScaling` comes to.
  unfoldable pub build_counts_panel :
      Arithmetic V
      → Config
      → Window
      → (Text → List MetricRequest → Result PanelError (Results V))
      → Result Text (NodeScaling V)
      → Result PanelError (Panel V (Row V))
  unfolding metric_requests find_metric counts_panel add_scaling
  build_counts_panel p c w ask scaling =
      let panel : Panel V (Row V) = new_panel (text "counts") (text "팟 · 노드 개수") in
      let filters : List (Text × Text) = (text "ClusterName", c.cluster_name) ∷ [] in
      let asked : Result PanelError (Results V) =
        ask (text "counts") (metric_requests count_metrics (cluster_sets c.cluster_name filters)) in
      if is_empty c.cluster_name then ok (warn_panel panel (text "클러스터가 선택되지 않았습니다.")) else do
        results ← asked
        pod_spec ← find_metric (text "count.pods") count_metrics
        node_spec ← find_metric (text "count.nodes") count_metrics
        failed_spec ← find_metric (text "count.nodes.failed") count_metrics
        ok (add_scaling scaling (counts_panel p w results pod_spec node_spec failed_spec panel))

  -- A metric of the state of pods is added to the panel.
  unfoldable pub add_status_metric :
      Arithmetic V → Window → Results V → MetricSpec → Panel V (Row V) → Panel V (Row V)
  unfolding summed_line last reduce
  add_status_metric p w results spec panel =
      let total : Series V = summed_line p w results spec spec.label in
      let restarts : Bool = text_eq spec.key (text "pod.restarts") in
      push_stats (record panel { series = panel.series ++ (total ∷ []) })
        (stat spec.key spec.label (if restarts then reduce p.plus total else last total)
            spec.measure (if restarts then spec.metric_name ++ text " 합계" else spec.metric_name)
            spec.intent
          ∷ [])

  unfoldable pub add_status_metrics :
      Arithmetic V → Window → Results V → List MetricSpec → Panel V (Row V) → Panel V (Row V)
  unfolding add_status_metric
  add_status_metrics p w results [] panel = panel
  add_status_metrics p w results (spec ∷ specs) panel =
      add_status_metrics p w results specs (add_status_metric p w results spec panel)

  -- `buildPodStatusPanel` after what was fetched.
  unfoldable pub pod_status_panel :
      Arithmetic V → Window → Results V → Panel V (Row V) → Panel V (Row V)
  unfolding add_status_metrics nothing_found warn_panel
  pod_status_panel p w results panel =
      let shown : Panel V (Row V) = add_status_metrics p w results pod_status_metrics panel in
      let warned : Panel V (Row V) =
        if nothing_found results pod_status_metrics
        then warn_panel shown (
            text
              "pod_status_* 지표가 없습니다. 이 지표는 Container Insights 확장 관찰성(amazon-cloudwatch-observability 애드온)에서만 게시됩니다.")
        else shown in
      warn_panel warned
        (text "CrashLoop은 재시작 증가로, OOM은 팟 로그의 OOMKilled 패턴으로 확인하세요. 이 패널은 OOMKilled 지표를 읽지 않습니다.")

  -- `buildPodStatusPanel`
  unfoldable pub build_pod_status_panel :
      Arithmetic V
      → Config
      → Window
      → (Text → List MetricRequest → Result PanelError (Results V))
      → Result PanelError (Panel V (Row V))
  unfolding metric_requests pod_status_panel
  build_pod_status_panel p c w ask =
      let panel : Panel V (Row V) = new_panel (text "pod-status") (text "팟 상태") in
      let filters : List (Text × Text) =
        (text "ClusterName", c.cluster_name)
        ∷ (if is_empty c.namespace then [] else (text "Namespace", c.namespace) ∷ []) in
      if is_empty c.cluster_name
      then ok (warn_panel panel (text "클러스터가 선택되지 않았습니다."))
      else elim (ask (text "pod-status")
          (metric_requests pod_status_metrics (cluster_sets c.cluster_name filters))) [
            | err e ↦ err e
            | ok results ↦ ok (pod_status_panel p w results panel)
          ]
