-- ===== src/MetricPanels/Cluster.antt =====
-- server/src/http/panels-metrics.ts: the panels on the use of pods and nodes, one color for each pod or
-- node and one dash for each metric.
use skills_dashboard.Common.{
  ℕ, ◌+◌, ◌-◌, Bool, true, ◌&&◌, Option, none, some, List, [], ◌∷◌, ◌++◌, map, ltb, ◌==◌,
  if◌then◌else◌, length, Result, ok, err,
}
use skills_dashboard.Common.{pos}
use skills_dashboard.Text.{Text, text, text_eq, is_empty}
use skills_dashboard.TextMap.{get}
use skills_dashboard.Text.Decimal.{show}
use skills_dashboard.Catalog.{MetricSpec, subject_color}
use skills_dashboard.Catalog.Search.{sort}
use skills_dashboard.Catalog.Specs.{pod_resource_metrics, node_resource_metrics, specs_with_prefix}
use skills_dashboard.Config.{Config}
use skills_dashboard.Window.{Window}
use skills_dashboard.Series.{Series, reduce, variant_dash}
use skills_dashboard.Payload.{Panel, new_panel, warn_panel}
use skills_dashboard.Fetch.{MetricRequest, MetricSeries}
use skills_dashboard.LogPanels.{Row, stat, push_stats}
use skills_dashboard.LogPanels.Latency.{reduce_across}
use skills_dashboard.MetricPanels.{
  Arithmetic, FilterSet, Results, PanelError, Style, metric_requests, found, sort_series,
  to_series_list,
}

abbrev or_zero : Option ℕ → ℕ
or_zero none = 0
or_zero (some i) = i

unfoldable resource_basis : MetricSpec → Text → ℕ → ℕ → Text
unfolding show
resource_basis spec noun shown missing =
    spec.metric_name
    ++ (b' '
        ∷ (spec.stat
            ++ (text ", "
                ++ (noun
                    ++ (b' '
                        ∷ (show shown
                            ++ (text "개"
                                ++ (if ltb 0 missing
                                    then text " (구간 내 데이터 없음 " ++ (show missing ++ text "개 제외)")
                                    else []))))))))

abbrev pub cluster_sets : Text → List (Text × Text) → List FilterSet
cluster_sets name filters = record { id = text "cluster"; label = name; filters = filters } ∷ []

module _ {V : Type 0} where
  -- `dropSilent`, the series that have points
  unfoldable pub live : List (MetricSeries V) → List (MetricSeries V)
  live [] = []
  live (m ∷ ms) = let rest = live ms in if length m.points == 0 then rest else m ∷ rest

  unfoldable pub gone : List (MetricSeries V) → ℕ
  unfolding live
  gone list = length list - length (live list)

-- A label that is new goes to the end.
unfoldable pub add_label : Text → List Text → List Text
add_label l [] = l ∷ []
add_label l (k ∷ ks) = let rest = add_label l ks in if text_eq k l then k ∷ ks else k ∷ rest

unfoldable pub add_labels : List Text → List Text → List Text
unfolding add_label
add_labels [] seen = seen
add_labels (l ∷ ls) seen = add_labels ls (add_label l seen)

unfoldable pub numbered : ℕ → List Text → List (Text × ℕ)
numbered i [] = []
numbered i (l ∷ ls) = (l, i) ∷ numbered (i + 1) ls

-- `subjectIndex`, from the labels of all the series
unfoldable pub subject_index : List Text → List (Text × ℕ)
unfolding add_labels numbered sort
subject_index labels = numbered 0 (sort (add_labels labels []))

module _ {V : Type 0} where
  -- What was fetched for a metric of the cluster.
  unfoldable pub of_cluster : MetricSpec → Results V → List (MetricSeries V)
  unfolding found
  of_cluster spec results = found (spec.key ++ text "|cluster") results

  unfoldable pub live_of : Results V → MetricSpec → List (MetricSeries V)
  unfolding of_cluster live sort_series
  live_of results spec = sort_series (live (of_cluster spec results))

  -- The labels of all lines, in order.
  unfoldable pub labels_of : Results V → List MetricSpec → List Text
  unfolding live_of
  labels_of results [] = []
  labels_of results (spec ∷ specs) =
      map (λ m. m.label) (live_of results spec) ++ labels_of results specs

  unfoldable pub subject_style : List (Text × ℕ) → ℕ → MetricSeries V → Style
  unfolding get subject_color variant_dash
  subject_style subject i m = record {
    color = subject_color (pos (or_zero (get m.label subject)));
    dash = variant_dash (pos i);
  }

  -- The lines of the metric with number `i`.
  unfoldable pub subject_lines :
      Arithmetic V → Window → Results V → List (Text × ℕ) → ℕ → MetricSpec → List (Series V)
  unfolding subject_style live_of to_series_list
  subject_lines p w results subject i spec =
      to_series_list p w (live_of results spec) spec (λ m. m.label ++ (text " · " ++ spec.label))
        (subject_style subject i)

  -- A metric is added to the panel.
  unfoldable pub add_resource :
      Arithmetic V
      → Window
      → Results V
      → List (Text × ℕ)
      → Text
      → ℕ
      → MetricSpec
      → Panel V (Row V)
      → Panel V (Row V)
  unfolding subject_lines resource_basis gone of_cluster reduce reduce_across
  add_resource p w results subject noun i spec panel =
      let lines : List (Series V) = subject_lines p w results subject i spec in
      push_stats (record panel { series = panel.series ++ lines })
        (stat (spec.key ++ text ".max") (text "최대 " ++ spec.label)
            (reduce_across (reduce p.greater) p.greater none lines) spec.measure
            (resource_basis spec noun (length lines) (gone (of_cluster spec results))) spec.intent
          ∷ [])

  unfoldable pub add_resources :
      Arithmetic V
      → Window
      → Results V
      → List (Text × ℕ)
      → Text
      → ℕ
      → List MetricSpec
      → Panel V (Row V)
      → Panel V (Row V)
  unfolding add_resource
  add_resources p w results subject noun i [] panel = panel
  add_resources p w results subject noun i (spec ∷ specs) panel =
      add_resources p w results subject noun (i + 1) specs
        (add_resource p w results subject noun i spec panel)

  -- Nothing was fetched for any of the metrics.
  unfoldable pub nothing_found : Results V → List MetricSpec → Bool
  unfolding of_cluster
  nothing_found results [] = true
  nothing_found results (spec ∷ specs) =
      (length (of_cluster spec results) == 0) && nothing_found results specs

  unfoldable pub build_resource_panel :
      Arithmetic V
      → Config
      → Window
      → Text
      → Text
      → List MetricSpec
      → List (Text × Text)
      → Text
      → (Text → List MetricRequest → Result PanelError (Results V))
      → Result PanelError (Panel V (Row V))
  unfolding metric_requests subject_index labels_of add_resources nothing_found
  build_resource_panel p c w id title specs filters noun ask =
      let panel : Panel V (Row V) = new_panel id title in
      if is_empty c.cluster_name
      then ok (warn_panel panel (text "클러스터가 선택되지 않았습니다. 설정에서 EKS 클러스터를 선택하세요."))
      else elim (ask id (metric_requests specs (cluster_sets c.cluster_name filters))) [
        | err e ↦ err e
        | ok results ↦
            let shown : Panel V (Row V) =
              add_resources p w results (subject_index (labels_of results specs)) noun 0 specs
                panel in
            ok (
              if nothing_found results specs
              then warn_panel shown
                  (text "Container Insights 지표가 없습니다. 클러스터에서 Container Insights가 활성화되어 있는지 확인하세요.")
              else shown)
      ]

  unfoldable pub pod_resource_panel :
      Arithmetic V
      → Config
      → Window
      → Text
      → Text
      → Text
      → (Text → List MetricRequest → Result PanelError (Results V))
      → Result PanelError (Panel V (Row V))
  unfolding build_resource_panel specs_with_prefix
  pod_resource_panel p c w id title prefix ask =
      build_resource_panel p c w id title (specs_with_prefix pod_resource_metrics prefix)
        ((text "ClusterName", c.cluster_name) ∷ (text "Namespace", c.namespace) ∷ []) (text "팟") ask

  unfoldable pub node_resource_panel :
      Arithmetic V
      → Config
      → Window
      → Text
      → Text
      → Text
      → (Text → List MetricRequest → Result PanelError (Results V))
      → Result PanelError (Panel V (Row V))
  unfolding build_resource_panel specs_with_prefix
  node_resource_panel p c w id title prefix ask =
      build_resource_panel p c w id title (specs_with_prefix node_resource_metrics prefix)
        ((text "ClusterName", c.cluster_name) ∷ []) (text "노드") ask
