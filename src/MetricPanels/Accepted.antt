-- ===== src/MetricPanels/Accepted.antt =====
-- server/src/http/panels-metrics.ts against server/src/domain/series.ts: every panel of metrics passes
-- the check that a payload is put through before it is written.
use skills_dashboard.Common.{
  ◌≡◌, subst, Bool, true, false, List, [], ◌∷◌, map, if◌then◌else◌, All, Result, ok, err, ◌>>=◌,
  >>=-eq-ok,
}
use skills_dashboard.Text.{Text, text}
use skills_dashboard.Catalog.{MetricSpec}
use skills_dashboard.Catalog.Specs.{
  target_group_metrics, rds_proxy_metrics, waf_metrics, count_metrics, pod_status_metrics,
}
use skills_dashboard.Config.{Config}
use skills_dashboard.Window.{Window, buckets}
use skills_dashboard.Window.Bounds.{IsValid}
use skills_dashboard.Payload.{
  Panel, new_panel, warn_panel, new_payload, add_panels, validate_payload,
}
use skills_dashboard.Payload.Checks.{PanelFits, validate_payload-add_panels}
use skills_dashboard.LogPanels.{Row}
use skills_dashboard.MetricPanels.{Arithmetic, Results, PanelError, target_group_filter_sets}
use skills_dashboard.MetricPanels.Grouped.{
  Ask, build_target_group_panel, build_rds_proxy_panel, build_waf_metrics_panel, proxy_set, acl_set,
}
use skills_dashboard.MetricPanels.Cluster.{
  build_resource_panel, nothing_found, subject_index, labels_of,
}
use skills_dashboard.MetricPanels.Status.{
  NodeScaling, find_metric, add_scaling, counts_panel, build_counts_panel, add_status_metrics,
  pod_status_panel, build_pod_status_panel,
}
use skills_dashboard.MetricPanels.Aligned.{
  Fits, grouped-Aligned, add_resources-Fits, add_status_metrics-Fits, counts_panel-Fits,
}

-- A panel of metrics for a window: what one of the builders returned, whatever was fetched.
pub data Shown {V : Type 0} (p : Arithmetic V) (w : Window) (panel : Panel V (Row V)) : Type 0 where
  target_groups :
      (c : Config) (ask : Ask V) → build_target_group_panel p c w ask ≡ ok panel → Shown p w panel
  rds_proxies :
      (c : Config) (ask : Ask V) → build_rds_proxy_panel p c w ask ≡ ok panel → Shown p w panel
  web_acls :
      (c : Config) (ask : Ask V) → build_waf_metrics_panel p c w ask ≡ ok panel → Shown p w panel
  resources :
      (c : Config) (ask : Ask V) (id title : Text) (specs : List MetricSpec)
      (filters : List (Text × Text)) (noun : Text)
      → build_resource_panel p c w id title specs filters noun ask ≡ ok panel
      → Shown p w panel
  counts :
      (c : Config) (ask : Ask V) (scaling : Result Text (NodeScaling V))
      → build_counts_panel p c w ask scaling ≡ ok panel
      → Shown p w panel
  pod_status :
      (c : Config) (ask : Ask V) → build_pod_status_panel p c w ask ≡ ok panel → Shown p w panel

module _ {V : Type 0} (p : Arithmetic V) (w : Window) where
  -- A panel that is returned early, or made of what was fetched.
  guarded :
      {A : Type 0} (early : Bool) (first : Panel V (Row V)) (asked : Result PanelError A)
      (make : A → Panel V (Row V)) (panel : Panel V (Row V))
      → Fits p w first
      → ((a : A) → Fits p w (make a))
      → ◌≡◌ {A = Result PanelError (Panel V (Row V))}
          (if early then ok first else elim asked [ err e ↦ err e | ok a ↦ ok (make a) ])
          (ok panel)
      → Fits p w panel
  guarded true first asked make panel f g h =
      let same : first ≡ panel = cc h in subst (Fits p w) same f
  guarded false first (err e) make panel f g h = cc
  guarded false first (ok a) make panel f g h =
      let same : make a ≡ panel = cc h in subst (Fits p w) same (g a)

  after_early :
      (early : Bool) (first : Panel V (Row V)) (rest : Result PanelError (Panel V (Row V)))
      (panel : Panel V (Row V))
      → Fits p w first
      → (rest ≡ ok panel → Fits p w panel)
      → ◌≡◌ {A = Result PanelError (Panel V (Row V))} (if early then ok first else rest) (ok panel)
      → Fits p w panel
  after_early true first rest panel f g h =
      let same : first ≡ panel = cc h in subst (Fits p w) same f
  after_early false first rest panel f g h = g h

  -- A panel after what was fetched and three metrics.
  after_metrics :
      (asked : Result PanelError (Results V)) (one two three : Result PanelError MetricSpec)
      (make : Results V → MetricSpec → MetricSpec → MetricSpec → Panel V (Row V))
      (panel : Panel V (Row V))
      → ((r : Results V) (x y z : MetricSpec) → Fits p w (make r x y z))
      → (asked >>= λ r. one >>= λ x. two >>= λ y. three >>= λ z. ok (make r x y z)) ≡ ok panel
      → Fits p w panel
  after_metrics asked one two three make panel fits h =
      let (r, _, h1) =
        >>=-eq-ok asked (λ r. one >>= λ x. two >>= λ y. three >>= λ z. ok (make r x y z)) h in
      let (x, _, h2) = >>=-eq-ok one (λ x. two >>= λ y. three >>= λ z. ok (make r x y z)) h1 in
      let (y, _, h3) = >>=-eq-ok two (λ y. three >>= λ z. ok (make r x y z)) h2 in
      let (z, _, h4) = >>=-eq-ok three (λ z. ok (make r x y z)) h3 in
      let same : make r x y z ≡ panel = cc h4 in subst (Fits p w) same (fits r x y z)

  -- A warning changes neither lines nor tables.
  warned_if :
      (b : Bool) (panel : Panel V (Row V)) (message : Text)
      → Fits p w panel
      → Fits p w (if b then warn_panel panel message else panel)
  unfolding warn_panel
  warned_if true panel message h = h
  warned_if false panel message h = h

  add_scaling-Fits :
      (scaling : Result Text (NodeScaling V)) (panel : Panel V (Row V))
      → Fits p w panel
      → Fits p w (add_scaling scaling panel)
  unfolding add_scaling warn_panel
  add_scaling-Fits (err message) panel h = h
  add_scaling-Fits (ok scaling) panel h = h

  pod_status_panel-Fits :
      (results : Results V) (panel : Panel V (Row V))
      → Fits p w panel
      → Fits p w (pod_status_panel p w results panel)
  unfolding pod_status_panel warn_panel
  pod_status_panel-Fits results panel h =
      warned_if (nothing_found results pod_status_metrics)
        (add_status_metrics p w results pod_status_metrics panel) _
        (add_status_metrics-Fits p w results pod_status_metrics panel h)

  pub Shown-Fits : (panel : Panel V (Row V)) → Shown p w panel → Fits p w panel
  unfolding build_target_group_panel build_rds_proxy_panel build_waf_metrics_panel
      build_resource_panel build_counts_panel build_pod_status_panel new_panel warn_panel
  Shown-Fits panel (target_groups c ask h) =
      guarded _ _ (ask _ _) _ panel (tt, tt)
        (λ r. (grouped-Aligned p w r (target_group_filter_sets c) target_group_metrics, tt)) h
  Shown-Fits panel (rds_proxies c ask h) =
      guarded _ _ (ask _ _) _ panel (tt, tt)
        (λ r. (grouped-Aligned p w r (map proxy_set c.rds_proxies) rds_proxy_metrics, tt)) h
  Shown-Fits panel (web_acls c ask h) =
      guarded _ _ (ask _ _) _ panel (tt, tt)
        (λ r. (grouped-Aligned p w r (map acl_set c.web_acls) waf_metrics, tt)) h
  Shown-Fits panel (resources c ask id title specs filters noun h) =
      guarded _ _ (ask _ _) _ panel (tt, tt)
        (λ r. warned_if (nothing_found r specs) _ _ (
          add_resources-Fits p w r (subject_index (labels_of r specs)) noun 0 specs
            (new_panel id title) (tt, tt)))
        h
  Shown-Fits panel (counts c ask scaling h) =
      after_early _ _ _ panel (tt, tt)
        (after_metrics (ask _ _) (find_metric (text "count.pods") count_metrics)
          (find_metric (text "count.nodes") count_metrics)
          (find_metric (text "count.nodes.failed") count_metrics)
          (λ r x y z.
            add_scaling scaling
              (counts_panel p w r x y z (new_panel (text "counts") (text "팟 · 노드 개수"))))
          panel
          (λ r x y z. add_scaling-Fits scaling _ (
            counts_panel-Fits p w r x y z (new_panel (text "counts") (text "팟 · 노드 개수")) (tt, tt))))
        h
  Shown-Fits panel (pod_status c ask h) =
      guarded _ _ (ask _ _) _ panel (tt, tt)
        (λ r. pod_status_panel-Fits r (new_panel (text "pod-status") (text "팟 상태")) (tt, tt)) h

  -- Whatever CloudWatch returns, a payload of panels of metrics for a valid window passes the check: each
  -- line, those that sum up lines included, has a value or a gap for each bucket.
  pub validate_payload-Shown :
      (panels : List (Panel V (Row V)))
      → IsValid w
      → All (Shown p w) panels
      → validate_payload (add_panels (new_payload w) panels) ≡ ok tt
  validate_payload-Shown panels v shown = validate_payload-add_panels w panels v (fits panels shown)
    where
      fits : (ps : List (Panel V (Row V))) → All (Shown p w) ps → All (PanelFits (buckets w)) ps
      fits [] h = tt
      fits (panel ∷ ps) (h, hs) = (Shown-Fits panel h, fits ps hs)
