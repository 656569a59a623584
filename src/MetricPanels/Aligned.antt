-- ===== src/MetricPanels/Aligned.antt =====
-- server/src/http/panels-metrics.ts against server/src/domain/series.ts: the lines of the panels
-- have a value or a gap for each bucket.
use skills_dashboard.Common.{ℤ}
use skills_dashboard.Common.{
  ℕ, ◌+◌, ◌≡◌, refl, ◌∙◌, none, List, [], ◌∷◌, ◌++◌, map, length, length-replicate, All, All-append,
}
use skills_dashboard.Text.{Text, text}
use skills_dashboard.Catalog.{MetricSpec}
use skills_dashboard.Window.{Window, buckets}
use skills_dashboard.Series.{Series, new_series}
use skills_dashboard.Metrics.{to_series, project, fill_at, get_point}
use skills_dashboard.Metrics.Projection.{length-fill_at}
use skills_dashboard.Payload.{Panel}
use skills_dashboard.Payload.Checks.{IsAligned, PanelFits}
use skills_dashboard.Fetch.{MetricSeries}
use skills_dashboard.LogPanels.{Row}
use skills_dashboard.LogPanels.Totals.Counted.{sort_by-All}
use skills_dashboard.MetricPanels.{
  Arithmetic, FilterSet, Results, Style, set_key, found, sort_series, set_series_label, plain_style,
  line_for, busier, to_series_list,
}
use skills_dashboard.MetricPanels.Sums.{length-sum_series}
use skills_dashboard.MetricPanels.Grouped.{Grouped, add_set, add_sets, add_specs, grouped}
use skills_dashboard.MetricPanels.Cluster.{
  of_cluster, live_of, subject_style, subject_lines, add_resource, add_resources,
}
use skills_dashboard.MetricPanels.Status.{
  named_lines, summed_line, counts_panel, add_status_metric, add_status_metrics,
}

module _ {V : Type 0} (p : Arithmetic V) (w : Window) where
  abbrev pub Aligned : List (Series V) → Type 0
  Aligned ss = All (IsAligned (buckets w)) ss

  length-project :
      (points : List (ℤ × V)) (i : ℕ) (axis : List ℤ) (s : Series V)
      → length (project points i axis s).values ≡ length s.values
  unfolding project
  length-project points i [] s = refl
  length-project points i (k ∷ axis) s =
      length-project points (i + 1) axis (fill_at s i (get_point k points))
      ∙ length-fill_at s i (get_point k points)

  lines-Aligned :
      (list : List (MetricSeries V)) (spec : MetricSpec) (label_for : MetricSeries V → Text)
      (style_for : MetricSeries V → Style)
      → Aligned (to_series_list p w list spec label_for style_for)
  unfolding to_series_list line_for to_series new_series
  lines-Aligned list spec label_for style_for =
      sort_by-All (IsAligned (buckets w)) (busier p)
        (map (line_for w spec label_for style_for) list) (each list)
    where
      each : (ms : List (MetricSeries V)) → Aligned (map (line_for w spec label_for style_for) ms)
      each [] = tt
      each (m ∷ ms) = (
        length-project m.points 0 _
              (new_series (label_for m) spec.measure (style_for m).color (buckets w))
            ∙ length-replicate (buckets w) none,
        each ms,
      )

  add_set-Aligned :
      (results : Results V) (sets : List FilterSet) (spec : MetricSpec) (fs : FilterSet)
      (g : Grouped V)
      → Aligned g.lines
      → Aligned (add_set p w results sets spec fs g).lines
  unfolding add_set
  add_set-Aligned results sets spec fs g h =
      let list : List (MetricSeries V) = sort_series (found (set_key spec fs) results) in
      All-append (IsAligned (buckets w)) g.lines
        (to_series_list p w list spec (set_series_label sets fs spec (length list))
          (plain_style spec))
        h (lines-Aligned list spec (set_series_label sets fs spec (length list)) (plain_style spec))

  add_sets-Aligned :
      (results : Results V) (sets : List FilterSet) (spec : MetricSpec) (rest : List FilterSet)
      (g : Grouped V)
      → Aligned g.lines
      → Aligned (add_sets p w results sets spec rest g).lines
  unfolding add_sets
  add_sets-Aligned results sets spec [] g h = h
  add_sets-Aligned results sets spec (fs ∷ rest) g h =
      add_sets-Aligned results sets spec rest (add_set p w results sets spec fs g)
        (add_set-Aligned results sets spec fs g h)

  add_specs-Aligned :
      (results : Results V) (sets : List FilterSet) (specs : List MetricSpec) (g : Grouped V)
      → Aligned g.lines
      → Aligned (add_specs p w results sets specs g).lines
  unfolding add_specs
  add_specs-Aligned results sets [] g h = h
  add_specs-Aligned results sets (spec ∷ specs) g h =
      add_specs-Aligned results sets specs (add_sets p w results sets spec sets g)
        (add_sets-Aligned results sets spec sets g h)

  pub grouped-Aligned :
      (results : Results V) (sets : List FilterSet) (specs : List MetricSpec)
      → Aligned (grouped p w results sets specs).lines
  unfolding grouped
  grouped-Aligned results sets specs =
      add_specs-Aligned results sets specs (record { lines = []; by_key = [] }) tt

  summed_line-IsAligned :
      (results : Results V) (spec : MetricSpec) (label : Text)
      → IsAligned (buckets w) (summed_line p w results spec label)
  unfolding summed_line
  summed_line-IsAligned results spec label =
      length-sum_series p.plus w
        (to_series_list p w (of_cluster spec results) spec (λ m. m.label) (plain_style spec)) label
        spec.measure spec.color

  abbrev pub Fits : Panel V (Row V) → Type 0
  Fits panel = PanelFits (buckets w) panel

  pub add_resources-Fits :
      (results : Results V) (subject : List (Text × ℕ)) (noun : Text) (i : ℕ)
      (specs : List MetricSpec) (panel : Panel V (Row V))
      → Fits panel
      → Fits (add_resources p w results subject noun i specs panel)
  unfolding add_resources add_resource subject_lines
  add_resources-Fits results subject noun i [] panel h = h
  add_resources-Fits results subject noun i (spec ∷ specs) panel (s, t) =
      add_resources-Fits results subject noun (i + 1) specs
        (add_resource p w results subject noun i spec panel)
        (
          All-append (IsAligned (buckets w)) panel.series (subject_lines p w results subject i spec)
              s
              (lines-Aligned (live_of results spec) spec
                (λ m. m.label ++ (text " · " ++ spec.label)) (subject_style subject i)),
          t,
        )

  pub add_status_metrics-Fits :
      (results : Results V) (specs : List MetricSpec) (panel : Panel V (Row V))
      → Fits panel
      → Fits (add_status_metrics p w results specs panel)
  unfolding add_status_metrics add_status_metric
  add_status_metrics-Fits results [] panel h = h
  add_status_metrics-Fits results (spec ∷ specs) panel (s, t) =
      add_status_metrics-Fits results specs (add_status_metric p w results spec panel) (
        All-append (IsAligned (buckets w)) panel.series
            (summed_line p w results spec spec.label ∷ []) s
            (summed_line-IsAligned results spec spec.label, tt),
        t,
      )

  pub counts_panel-Fits :
      (results : Results V) (pod_spec node_spec failed_spec : MetricSpec) (panel : Panel V (Row V))
      → Fits panel
      → Fits (counts_panel p w results pod_spec node_spec failed_spec panel)
  unfolding counts_panel named_lines
  counts_panel-Fits results pod_spec node_spec failed_spec panel (s, t) = (
    All-append (IsAligned (buckets w)) panel.series _ s (
      summed_line-IsAligned results pod_spec _,
      All-append (IsAligned (buckets w)) (named_lines p w results node_spec)
          (named_lines p w results failed_spec)
          (lines-Aligned (of_cluster node_spec results) node_spec (λ m. node_spec.label)
            (plain_style node_spec))
          (lines-Aligned (of_cluster failed_spec results) failed_spec (λ m. failed_spec.label)
            (plain_style failed_spec)),
    ),
    t,
  )
