-- ===== src/Config/Accepts.antt =====
-- server/src/config/config.ts, `validateConfig`: which configurations can be saved.
use skills_dashboard.Common.{
  ◌≡◌, refl, ap, ◌∙◌, ◌≢◌, ◌↔◌, ◌⊎◌, inl, inr, true, false, Option, none, some, List, [], ◌∷◌,
  if◌then◌else◌, Listed, All, ok, err, >>=-eq-ok, >>-eq-ok, Result-cases,
}
use skills_dashboard.Text.{Text, text, is_empty, includes}
use skills_dashboard.LogFormat.{
  LogFormat, CompiledLogFormat, validate_log_format, compile_log_format, compile_pattern, presets,
  latency_units, bad_preset, no_time_field, no_message_field, bad_latency_unit,
}
use skills_dashboard.Config.{Config, fill_defaults, is_queryable_header}
use skills_dashboard.Config.Repair.{
  Url, not_http, no_host, Problem, url_problem, url_problems, format_problems, problems,
  validate_config, verdict,
}
use skills_dashboard.Config.Fields.{
  BalancerFits, StatusFits, is_empty_iff, passed, stopped, includes_iff, joined, both_none,
  neither_none, web_protocol, protocol_allowed, url_problems_for-none, region_problems_iff,
  load_balancer_problems_iff, status_problems_iff, header_problems_iff,
}

module _ {R : Type 0} (engine : Text → Text → Option R) (parse_url : Text → Option Url) where
  -- An address that can be requested, or none.
  abbrev pub UrlFits : Text → Type 0
  UrlFits s =
      (s ≡ [])
      ⊎ ((u : Url) × (parse_url s ≡ some u)
          × ((u.protocol ≡ text "http:") ⊎ (u.protocol ≡ text "https:"))
          × (u.host ≢ []))

  -- A pattern that is left out, or that the engine compiles.
  abbrev pub Compiles : Text → Text → Type 0
  Compiles label pattern = (re : Option R) × (compile_pattern engine label pattern ≡ ok re)

  abbrev pub FormatFits : LogFormat → Type 0
  FormatFits f =
      Listed f.preset presets
      × (f.time_field ≢ [])
      × (f.message_field ≢ [])
      × Listed f.latency_unit latency_units
      × Compiles (text "levelPattern") f.level_pattern
      × Compiles (text "textPattern") f.text_pattern

  abbrev pub Fits : Config → Type 0
  Fits c =
      (c.region ≢ [])
      × BalancerFits c.load_balancer
      × UrlFits c.check.url
      × StatusFits c.check.expect_status
      × FormatFits c.log_format
      × All (λ h. is_queryable_header h ≡ true) c.waf_headers

  url_problem_iff :
      (s : Text) (o : Option Url)
      → (url_problem engine parse_url s o ≡ none) ↔ (
          (u : Url) × (o ≡ some u)
          × ((u.protocol ≡ text "http:") ⊎ (u.protocol ≡ text "https:"))
          × (u.host ≢ []))
  unfolding url_problem
  url_problem_iff s none = (λ h. absurd (neither_none _ no_host not_http h), λ (u, e, _, _). cc)
  url_problem_iff s (some u) = (
    λ h.
        let (allowed, hosted) = both_none _ (is_empty u.host) not_http no_host h in
        (u, refl, web_protocol u.protocol allowed, (is_empty_iff u.host).0 hosted),
    λ (v, e, p, host).
        let same : u ≡ v = cc in
        let hosted : is_empty u.host ≡ false =
          ap (λ x. is_empty x.host) same ∙ (is_empty_iff v.host).1 host in
        rw (ap (λ x. x.protocol) same, protocol_allowed v.protocol p, hosted),
  )

  url_problems_iff : (s : Text) → (url_problems engine parse_url s ≡ []) ↔ UrlFits s
  unfolding url_problems
  url_problems_iff [] = (λ h. inl refl, λ h. refl)
  url_problems_iff (c ∷ s) = (
    λ h. inr (
        (url_problem_iff (c ∷ s) (parse_url (c ∷ s))).0 (
          url_problems_for-none (c ∷ s) (url_problem engine parse_url (c ∷ s) (parse_url (c ∷ s)))
            h)),
    λ h. elim h [
      | inl e ↦ cc
      | inr fits ↦
          let none_left = (url_problem_iff (c ∷ s) (parse_url (c ∷ s))).1 fits in rw none_left
    ],
  )

  compile_log_format_iff :
      (f : LogFormat)
      → ((x : CompiledLogFormat R) × (compile_log_format engine f ≡ ok x)) ↔ (
          Compiles (text "levelPattern") f.level_pattern
          × Compiles (text "textPattern") f.text_pattern)
  unfolding compile_log_format
  compile_log_format_iff f = (
    λ (x, h).
        let (level, hl, h1) =
          >>=-eq-ok (compile_pattern engine (text "levelPattern") f.level_pattern) _ h in
        let (words, hw, _) =
          >>=-eq-ok (compile_pattern engine (text "textPattern") f.text_pattern) _ h1 in
        ((level, hl), (words, hw)),
    λ ((level, hl), (words, hw)).
        (record { format = f; level = level; words = words }, rw (hl, hw)),
  )

  validate_log_format_iff :
      (f : LogFormat)
      → ((x : CompiledLogFormat R) × (validate_log_format engine f ≡ ok x)) ↔ FormatFits f
  unfolding validate_log_format
  validate_log_format_iff f = (
    λ (x, h).
        let (a, h1) =
          >>-eq-ok (if includes presets f.preset then ok tt else err (bad_preset f.preset)) _ h in
        let (b, h2) = >>-eq-ok (if is_empty f.time_field then err no_time_field else ok tt) _ h1 in
        let (c, h3) =
          >>-eq-ok (if is_empty f.message_field then err no_message_field else ok tt) _ h2 in
        let (d, h4) =
          >>-eq-ok
            (if includes latency_units f.latency_unit
              then ok tt
              else err (bad_latency_unit f.latency_unit))
            _ h3 in
        (
          (includes_iff presets f.preset).0 (passed (includes presets f.preset) _ a),
          (is_empty_iff f.time_field).0 (stopped (is_empty f.time_field) _ b),
          (is_empty_iff f.message_field).0 (stopped (is_empty f.message_field) _ c),
          (includes_iff latency_units f.latency_unit).0
              (passed (includes latency_units f.latency_unit) _ d),
          ((compile_log_format_iff f).0 (x, h4)).0,
          ((compile_log_format_iff f).0 (x, h4)).1,
        ),
    λ (a, b, c, d, level, words).
        let (x, h) = (compile_log_format_iff f).1 (level, words) in
        let known = (includes_iff presets f.preset).1 a in
        let time = (is_empty_iff f.time_field).1 b in
        let message = (is_empty_iff f.message_field).1 c in
        let unit = (includes_iff latency_units f.latency_unit).1 d in
        (x, rw (known, time, message, unit, h)),
  )

  format_problems_iff : (f : LogFormat) → (format_problems engine parse_url f ≡ []) ↔ FormatFits f
  unfolding format_problems
  format_problems_iff f = elim (Result-cases (validate_log_format engine f)) [
    | inl (x, e) ↦ (λ h. (validate_log_format_iff f).0 (x, e), λ h. rw (format_problems, e))
    | inr (failure, e) ↦ (
      λ h. cc (rw (format_problems, e) at h),
      λ h. let (x, k) = (validate_log_format_iff f).1 h in cc,
    )
  ]

  problems_iff : (c : Config) → (problems engine parse_url c ≡ []) ↔ Fits c
  unfolding problems
  problems_iff c =
      let each = joined (region_problems_iff c.region) (
        joined (load_balancer_problems_iff c.load_balancer) (
          joined (url_problems_iff c.check.url) (
            joined (status_problems_iff c.check.expect_status)
              (joined (format_problems_iff c.log_format) (header_problems_iff c.waf_headers))))) in
      (
        λ h. let (r, (b, (u, (n, (f, hs))))) = each.0 h in (r, b, u, n, f, hs),
        λ (r, b, u, n, f, hs). each.1 (r, (b, (u, (n, (f, hs))))),
      )

  verdict_iff :
      (c d : Config) (ps : List Problem)
      → (verdict engine parse_url c ps ≡ ok d) ↔ ((ps ≡ []) × (c ≡ d))
  verdict_iff c d [] = (λ h. (refl, cc), λ (_, h). ap ok h)
  verdict_iff c d (p ∷ ps) = (λ h. cc, λ (h, _). cc)

  -- A configuration can be saved exactly when, with its defaults filled in, its region is not empty,
  -- its load balancer is empty or `app/`, a name without a slash, a slash and a hexadecimal number,
  -- its address is empty or one with a host and http or https as its protocol, its status is 0 or
  -- from 100 to 599, its log format has a known preset and unit, names the fields of the time and of
  -- the message and has patterns that compile, and every header of its list can stand in a query.
  -- What is saved is the completed configuration.
  pub validate_config_iff :
      (c d : Config)
      → (validate_config engine parse_url c ≡ ok d)
        ↔ (Fits (fill_defaults c) × (fill_defaults c ≡ d))
  unfolding validate_config
  validate_config_iff c d =
      let verdict_is =
        verdict_iff (fill_defaults c) d (problems engine parse_url (fill_defaults c)) in
      (
        λ h.
            let (none_left, same) = verdict_is.0 h in
            ((problems_iff (fill_defaults c)).0 none_left, same),
        λ (fits, same). verdict_is.1 ((problems_iff (fill_defaults c)).1 fits, same),
      )
