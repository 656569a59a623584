-- ===== src/Config/Reload.antt =====
-- server/src/config/config.ts: a configuration that was repaired, checked again.
use skills_dashboard.Common.{
  ◌≡◌, refl, sym, ap, ◌∙◌, subst, inl, inr, ◌&&◌, ◌||◌, not, Option, List, [], ◌∷◌, if◌then◌else◌,
  Bool-cases, ok, err, >>=-eq-ok, Result-cases,
}
use skills_dashboard.Common.{ℤ, pos, ltb_ℤ, eqb_ℤ}
use skills_dashboard.Common.{>>-eq-ok, >>-ok}
use skills_dashboard.Text.{Text, text, is_empty, includes}
use skills_dashboard.LogFormat.{
  LogFormat, CompiledLogFormat, default_log_format, validate_log_format, compile_log_format,
  compile_pattern, presets, latency_units, bad_preset, no_time_field, no_message_field,
  bad_latency_unit,
}
use skills_dashboard.Config.{
  Config, HealthCheck, default_config, fill_defaults, fill_log_format, normal_load_balancer,
  is_alb_dimension, is_queryable_header,
}
use skills_dashboard.Config.Repair.{
  Url, good_headers, unfit_headers, region_problems, load_balancer_problems, status_problems,
  header_problems, url_problems, format_problems, problems, repair_config, validate_config, verdict,
}
use skills_dashboard.Config.Mended.{
  mend_region, mend_load_balancer, mend_status, mend_check_by, mend_format_by, url_cases, mended,
  repair_config-mended,
}

region_mended : (r : Text) → region_problems (mend_region r) ≡ []
unfolding region_problems mend_region default_config
region_mended r = elim (Bool-cases (is_empty r)) [ inl e ↦ rw e | inr e ↦ rw (e, e) ]

load_balancer_mended : (s : Text) → load_balancer_problems (mend_load_balancer s) ≡ []
unfolding load_balancer_problems mend_load_balancer
load_balancer_mended s = elim (Bool-cases (not (is_empty s) && not (is_alb_dimension s))) [
  | inl e ↦ rw e
  | inr e ↦ rw (e, e)
]

status_mended : (n : ℤ) → status_problems (mend_status n) ≡ []
unfolding status_problems mend_status eqb_ℤ
status_mended n =
    elim (Bool-cases (not (eqb_ℤ n (pos 0)) && (ltb_ℤ n (pos 100) || ltb_ℤ (pos 599) n))) [
      | inl e ↦ rw e
      | inr e ↦ rw (e, e)
    ]

headers_mended : (hs : List Text) → unfit_headers (good_headers hs) ≡ []
unfolding unfit_headers good_headers
headers_mended [] = refl
headers_mended (h ∷ hs) = elim (Bool-cases (is_queryable_header h)) [
  | inl e ↦ rw (e, e, headers_mended hs)
  | inr e ↦ rw (e, headers_mended hs)
]

module _ {R : Type 0} (engine : Text → Text → Option R) (parse_url : Text → Option Url) where
  compiled_filled :
      (f : LogFormat) (x : CompiledLogFormat R)
      → compile_log_format engine f ≡ ok x
      → (y : CompiledLogFormat R) × (compile_log_format engine (fill_log_format f) ≡ ok y)
  unfolding compile_log_format fill_log_format
  compiled_filled f x h =
      let (level, hl, h1) =
        >>=-eq-ok (compile_pattern engine (text "levelPattern") f.level_pattern) _ h in
      let (words, hw, _) =
        >>=-eq-ok (compile_pattern engine (text "textPattern") f.text_pattern) _ h1 in
      (record { format = fill_log_format f; level = level; words = words }, rw (hl, hw))

  -- What `fillDefaults` does to a log format does not matter to its check.
  validate_filled :
      (f : LogFormat) (x : CompiledLogFormat R)
      → validate_log_format engine f ≡ ok x
      → (y : CompiledLogFormat R) × (validate_log_format engine (fill_log_format f) ≡ ok y)
  unfolding validate_log_format fill_log_format
  validate_filled f x h =
      let (a, h1) =
        >>-eq-ok (if includes presets f.preset then ok tt else err (bad_preset f.preset)) _ h in
      let (b, h2) = >>-eq-ok (if is_empty f.time_field then err no_time_field else ok tt) _ h1 in
      let (c, h3) =
        >>-eq-ok (if is_empty f.message_field then err no_message_field else ok tt) _ h2 in
      let (d, h4) =
        >>-eq-ok
          (if includes latency_units f.latency_unit
            then ok tt
            else err (bad_latency_unit f.latency_unit))
          _ h3 in
      let (y, hy) = compiled_filled f x h4 in
      (y, >>-ok _ _ a ∙ >>-ok _ _ b ∙ >>-ok _ _ c ∙ >>-ok _ _ d ∙ hy)

  url_mended :
      (h : HealthCheck)
      → url_problems engine parse_url (mend_check_by (url_problems engine parse_url h.url) h).url
        ≡ []
  unfolding url_problems
  url_mended h = elim (url_cases engine parse_url h.url) [ inl e ↦ rw (e, e) | inr (p, e) ↦ rw e ]

  check_mended :
      (h : HealthCheck)
      → status_problems (mend_check_by (url_problems engine parse_url h.url) h).expect_status ≡ []
  unfolding status_problems eqb_ℤ
  check_mended h = elim (url_cases engine parse_url h.url) [
    | inl e ↦ rw e (status_mended h.expect_status)
    | inr (p, e) ↦ rw e
  ]

  format_passes :
      (f : LogFormat) (x : CompiledLogFormat R)
      → validate_log_format engine f ≡ ok x
      → format_problems engine parse_url (fill_log_format f) ≡ []
  unfolding format_problems
  format_passes f x h = let (y, hy) = validate_filled f x h in rw (format_problems, hy)

  -- With a default that the engine compiles.
  module _ (x : CompiledLogFormat R)
      (default_compiles : validate_log_format engine default_log_format ≡ ok x) where
    format_mended :
        (f : LogFormat)
        → format_problems engine parse_url
            (fill_log_format (mend_format_by (format_problems engine parse_url f) f))
          ≡ []
    unfolding format_problems
    format_mended f = elim (Result-cases (validate_log_format engine f)) [
      | inl (y, e) ↦ rw (format_problems, e) (format_passes f y e)
      | inr (failure, e) ↦
          rw (format_problems, e) (format_passes default_log_format x default_compiles)
    ]

    mended-problems :
        (c : Config)
        → normal_load_balancer (mend_load_balancer c.load_balancer)
          ≡ mend_load_balancer c.load_balancer
        → problems engine parse_url (fill_defaults (mended engine parse_url c)) ≡ []
    unfolding problems fill_defaults header_problems
    mended-problems c stable = rw (
      region_mended c.region,
      stable,
      load_balancer_mended c.load_balancer,
      url_mended c.check,
      check_mended c.check,
      format_mended c.log_format,
      headers_mended c.waf_headers,
    )

    -- A configuration that was repaired is accepted when it is checked again, if the engine compiles
    -- the default pattern and the load balancer that is left does not change when it is brought into
    -- CloudWatch's spelling once more.
    pub repair_config-accepted :
        (c : Config)
        → normal_load_balancer (repair_config engine parse_url c).0.load_balancer
          ≡ (repair_config engine parse_url c).0.load_balancer
        → validate_config engine parse_url (repair_config engine parse_url c).0
          ≡ ok (fill_defaults (repair_config engine parse_url c).0)
    unfolding validate_config
    repair_config-accepted c stable =
        let left = repair_config-mended engine parse_url c in
        let passes =
          mended-problems (fill_defaults c)
            (subst (λ d. normal_load_balancer d.load_balancer ≡ d.load_balancer) left stable) in
        ap (verdict engine parse_url (fill_defaults (repair_config engine parse_url c).0))
          (subst (λ d. problems engine parse_url (fill_defaults d) ≡ []) (sym left) passes)
