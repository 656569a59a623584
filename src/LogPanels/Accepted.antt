-- ===== src/LogPanels/Accepted.antt =====
-- server/src/http/panels-logs.ts against server/src/domain/series.ts: every panel of logs passes the check
-- that a payload is put through before it is written.
use skills_dashboard.Common.{
  ℕ, ◌*◌, ◌≡◌, subst, inl, inr, Option, none, some, List, [], ◌∷◌, Bool-cases, All, Result, ok,
  ◌>>=◌, >>=-eq-ok,
}
use skills_dashboard.Text.{Text, text, is_empty}
use skills_dashboard.TextMap.{get}
use skills_dashboard.Window.{Window, buckets}
use skills_dashboard.Window.Bounds.{IsValid}
use skills_dashboard.Payload.{
  Panel, new_panel, warn_panel, new_payload, add_panels, validate_payload,
}
use skills_dashboard.Payload.Checks.{PanelFits, validate_payload-add_panels}
use skills_dashboard.LogFormat.{LogFormat}
use skills_dashboard.Runner.{Query, QueryResult}
use skills_dashboard.Query.{QueryError}
use skills_dashboard.Query.Pods.{
  pod_traffic, pod_bad_status_series, pod_bad_status_list, pod_bad_status_by_path, pod_error_series,
  pod_error_list,
}
use skills_dashboard.Query.Waf.{waf_recent_list, waf_action_series, waf_by_method, waf_by_path}
use skills_dashboard.LogPanels.{Platform, Row, LogSource, note_query_errors}
use skills_dashboard.LogPanels.Runs.{LogRun}
use skills_dashboard.LogPanels.Status.{status_panel, build_pod_status_code_panel}
use skills_dashboard.LogPanels.Levels.{error_panel, build_pod_error_panel}
use skills_dashboard.LogPanels.Latency.{latency_panel, build_pod_latency_panel}
use skills_dashboard.LogPanels.Breakdown.{breakdown_panel, build_pod_status_breakdown_panel}
use skills_dashboard.LogPanels.Waf.{traffic_panel, build_waf_traffic_panel, build_waf_blocked_panel}
use skills_dashboard.LogPanels.WafBreakdown.{
  HeaderQueries, add_headers, action_fanout, build_waf_breakdown_panel,
}
use skills_dashboard.LogPanels.Fits.{new_panel-Fits, note_query_errors-Fits}
use skills_dashboard.LogPanels.Fits.Pods.{status_panel-Fits, error_panel-Fits, latency_panel-Fits}
use skills_dashboard.LogPanels.Fits.Waf.{
  traffic_panel-Fits, breakdown_panel-Fits, blocked_panel-Fits, waf_breakdown_panel-Fits,
}

-- How a set of queries under a name is answered.
abbrev pub Ask : Type 0
Ask = Text → List Query → LogRun

-- A panel of logs for a window: what one of the builders returned, whatever its queries were answered.
pub data Built {V : Type 0} (p : Platform V) (w : Window) (panel : Panel V (Row V)) : Type 0 where
  latency :
      (f : LogFormat) (src : LogSource) (ask : Ask)
      → build_pod_latency_panel p f w src ask ≡ ok panel
      → Built p w panel
  status_codes :
      (f : LogFormat) (limit : ℕ) (src : LogSource) (ask : Ask)
      → build_pod_status_code_panel p f w limit src ask ≡ ok panel
      → Built p w panel
  status_breakdown :
      (f : LogFormat) (top : ℕ) (src : LogSource) (ask : Ask)
      → build_pod_status_breakdown_panel p f top src ask ≡ ok panel
      → Built p w panel
  error_lines :
      (f : LogFormat) (limit : ℕ) (src : LogSource) (ask : Ask)
      → build_pod_error_panel p f w limit src ask ≡ ok panel
      → Built p w panel
  waf_traffic :
      (limit : ℕ) (src : LogSource) (ask : Ask)
      → build_waf_traffic_panel p w limit src ask ≡ ok panel
      → Built p w panel
  waf_blocked :
      (top : ℕ) (src : LogSource) (ask : Ask)
      → build_waf_blocked_panel p top src ask ≡ panel
      → Built p w panel
  waf_breakdown :
      (headers : List Text) (top : ℕ) (src : LogSource) (ask : Ask)
      → build_waf_breakdown_panel p headers top src ask ≡ panel
      → Built p w panel

module _ {V : Type 0} (p : Platform V) (w : Window) where
  -- A panel after one query, and after two.
  after_one :
      {A : Type 0} (first : Result QueryError A) (make : A → Panel V (Row V))
      (panel : Panel V (Row V))
      → ((a : A) → PanelFits (buckets w) (make a))
      → (first >>= λ a. ok (make a)) ≡ ok panel
      → PanelFits (buckets w) panel
  after_one first make panel fits h =
      let (a, _, e) = >>=-eq-ok first (λ a. ok (make a)) h in
      let same : make a ≡ panel = cc e in subst (PanelFits (buckets w)) same (fits a)

  after_two :
      {A B : Type 0} (first : Result QueryError A) (second : Result QueryError B)
      (make : A → B → Panel V (Row V)) (panel : Panel V (Row V))
      → ((a : A) (b : B) → PanelFits (buckets w) (make a b))
      → (first >>= λ a. second >>= λ b. ok (make a b)) ≡ ok panel
      → PanelFits (buckets w) panel
  after_two first second make panel fits h =
      let (a, _, rest) = >>=-eq-ok first (λ a. second >>= λ b. ok (make a b)) h in
      after_one second (make a) panel (fits a) rest

  latency_found :
      (f : LogFormat) (noted panel : Panel V (Row V)) (results : List (Text × QueryResult))
      (found : Option QueryResult)
      → PanelFits (buckets w) noted
      → ◌≡◌ {A = Result QueryError (Panel V (Row V))}
          (elim found [ none ↦ ok noted | some res ↦ ok (latency_panel p f w noted results res) ])
          (ok panel)
      → PanelFits (buckets w) panel
  latency_found f noted panel results none fits h =
      let same : noted ≡ panel = cc h in subst (PanelFits (buckets w)) same fits
  latency_found f noted panel results (some res) fits h =
      let same : latency_panel p f w noted results res ≡ panel = cc h in
      subst (PanelFits (buckets w)) same (latency_panel-Fits p f w noted results res fits)

  latency-PanelFits :
      (panel : Panel V (Row V)) (f : LogFormat) (src : LogSource) (ask : Ask)
      → build_pod_latency_panel p f w src ask ≡ ok panel
      → PanelFits (buckets w) panel
  unfolding build_pod_latency_panel
  latency-PanelFits panel f src ask h =
      let (traffic, _, rest) = >>=-eq-ok (pod_traffic f w) _ h in
      let run : LogRun = ask (text "pod-latency") (traffic ∷ []) in
      let start : Panel V (Row V) = new_panel (text "pod-latency") (text "팟 응답 시간") in
      latency_found f (note_query_errors src run.errors start) panel run.results
        (get (text "pod.traffic") run.results)
        (note_query_errors-Fits (buckets w) src run.errors start (new_panel-Fits V (buckets w) _ _))
        rest

  breakdown-PanelFits :
      (panel : Panel V (Row V)) (f : LogFormat) (top : ℕ) (src : LogSource) (ask : Ask)
      → build_pod_status_breakdown_panel p f top src ask ≡ ok panel
      → PanelFits (buckets w) panel
  unfolding build_pod_status_breakdown_panel
  breakdown-PanelFits panel f top src ask h = elim (Bool-cases (is_empty f.path_field)) [
    | inl e ↦
        let start : Panel V (Row V) = new_panel (text "pod-status-breakdown") (text "응답 코드별 경로") in
        let said : Text = text "경로 필드(pathField)가 설정되지 않아 코드별 경로를 집계할 수 없습니다." in
        let same : warn_panel start said ≡ panel = cc (rw e at h) in
        subst (PanelFits (buckets w)) same (unfold warn_panel new_panel in (tt, tt))
    | inr e ↦
        after_one (pod_bad_status_by_path f)
          (λ a. breakdown_panel p f top src (ask (text "pod-status-breakdown") (a ∷ []))) panel
          (λ a.
            breakdown_panel-Fits (buckets w) p f top src
              (ask (text "pod-status-breakdown") (a ∷ [])))
          (rw e at h)
  ]

  pub Built-PanelFits : (panel : Panel V (Row V)) → Built p w panel → PanelFits (buckets w) panel
  unfolding build_pod_status_code_panel build_pod_error_panel build_waf_traffic_panel
      build_waf_breakdown_panel
  Built-PanelFits panel (latency f src ask h) = latency-PanelFits panel f src ask h
  Built-PanelFits panel (status_codes f limit src ask h) =
      after_two (pod_bad_status_series f w) (pod_bad_status_list f limit)
        (λ a b. status_panel p f w limit src (ask (text "pod-status-codes") (a ∷ b ∷ []))) panel
        (λ a b. status_panel-Fits p f w limit src (ask (text "pod-status-codes") (a ∷ b ∷ []))) h
  Built-PanelFits panel (status_breakdown f top src ask h) =
      breakdown-PanelFits panel f top src ask h
  Built-PanelFits panel (error_lines f limit src ask h) =
      after_two (pod_error_series f w) (pod_error_list f limit)
        (λ a b. error_panel p f w limit src (ask (text "pod-errors") (a ∷ b ∷ []))) panel
        (λ a b. error_panel-Fits p f w limit src (ask (text "pod-errors") (a ∷ b ∷ []))) h
  Built-PanelFits panel (waf_traffic limit src ask h) =
      after_one (waf_recent_list limit)
        (λ a. traffic_panel p w limit src (ask (text "waf-traffic") (waf_action_series w ∷ a ∷ [])))
        panel
        (λ a.
          traffic_panel-Fits p w limit src
            (ask (text "waf-traffic") (waf_action_series w ∷ a ∷ [])))
        h
  Built-PanelFits panel (waf_blocked top src ask h) =
      subst (PanelFits (buckets w)) h (blocked_panel-Fits (buckets w) p top src ask)
  Built-PanelFits panel (waf_breakdown headers top src ask h) =
      let start : HeaderQueries = record {
        queries = waf_by_method ∷ waf_by_path (top * action_fanout) ∷ [];
        headers = [];
        warnings = [];
      } in
      let q : HeaderQueries = add_headers (top * action_fanout) headers start in
      subst (PanelFits (buckets w)) h
        (waf_breakdown_panel-Fits (buckets w) p top src q (ask (text "waf-breakdown") q.queries))

  -- Whatever CloudWatch answers, and whatever fails on the way, a payload of panels of logs for a valid
  -- window passes the check: each series has a value or a gap for each bucket, and each table has a
  -- total that covers its rows and a flag that tells whether the total is larger.
  pub validate_payload-Built :
      (panels : List (Panel V (Row V)))
      → IsValid w
      → All (Built p w) panels
      → validate_payload (add_panels (new_payload w) panels) ≡ ok tt
  validate_payload-Built panels v built = validate_payload-add_panels w panels v (fits panels built)
    where
      fits : (ps : List (Panel V (Row V))) → All (Built p w) ps → All (PanelFits (buckets w)) ps
      fits [] h = tt
      fits (panel ∷ ps) (h, hs) = (Built-PanelFits panel h, fits ps hs)
