-- ===== src/Config/Mended.antt =====
-- server/src/config/config.ts, `repairConfig`: what is left of each field after the problems were
-- dropped one after the other.
use skills_dashboard.Common.{
  ◌≡◌, refl, sym, ap, ◌∙◌, subst, ◌⊎◌, inl, inr, ◌&&◌, ◌||◌, not, Option, List, [], ◌∷◌, ◌++◌,
  if◌then◌else◌, Bool-cases, Option-cases, Result-cases,
}
use skills_dashboard.Common.{ℤ, pos, ltb_ℤ, eqb_ℤ}
use mathlib.Core.List.{foldl}
use skills_dashboard.Text.{Text, is_empty}
use skills_dashboard.LogFormat.{LogFormat, LogFormatError, default_log_format, validate_log_format}
use skills_dashboard.Config.{
  Config, HealthCheck, default_config, fill_defaults, is_alb_dimension, is_queryable_header,
}
use skills_dashboard.Config.Repair.{
  Url, UrlProblem, Problem, bad_log_format, drop_problem, good_headers, unfit_headers,
  region_problems, load_balancer_problems, status_problems, header_problems, url_problem,
  url_problems, format_problems, problems, repair_config, bad_url, headers_problem,
}

unfoldable pub mend_region : Text → Text
unfolding default_config
mend_region r = if is_empty r then default_config.region else r

unfoldable pub mend_load_balancer : Text → Text
mend_load_balancer s = if not (is_empty s) && not (is_alb_dimension s) then [] else s

unfoldable pub mend_status : ℤ → ℤ
mend_status n =
    if not (eqb_ℤ n (pos 0)) && (ltb_ℤ n (pos 100) || ltb_ℤ (pos 599) n) then pos 0 else n

-- The region.
mended_region :
    (c : Config) (ps : List Problem)
    → foldl drop_problem c (region_problems c.region ++ ps)
      ≡ foldl drop_problem (record c { region = mend_region c.region }) ps
unfolding region_problems drop_problem mend_region
mended_region c ps = elim (Bool-cases (is_empty c.region)) [ inl e ↦ rw e | inr e ↦ rw e ]

mended_load_balancer :
    (c : Config) (ps : List Problem)
    → foldl drop_problem c (load_balancer_problems c.load_balancer ++ ps)
      ≡ foldl drop_problem (record c { load_balancer = mend_load_balancer c.load_balancer }) ps
unfolding load_balancer_problems drop_problem mend_load_balancer
mended_load_balancer c ps =
    elim (Bool-cases (not (is_empty c.load_balancer) && not (is_alb_dimension c.load_balancer))) [
      | inl e ↦ rw e
      | inr e ↦ rw e
    ]

mended_status :
    (c : Config) (ps : List Problem)
    → foldl drop_problem c (status_problems c.check.expect_status ++ ps)
      ≡ foldl drop_problem
          (record c {
            check = record { url = c.check.url; expect_status = mend_status c.check.expect_status };
          })
          ps
unfolding status_problems drop_problem mend_status
mended_status c ps =
    elim (Bool-cases (
      not (eqb_ℤ c.check.expect_status (pos 0))
      && (ltb_ℤ c.check.expect_status (pos 100) || ltb_ℤ (pos 599) c.check.expect_status))) [
        | inl e ↦ rw e
        | inr e ↦ rw e
      ]

abbrev pub mend_check_by : List Problem → HealthCheck → HealthCheck
mend_check_by [] h = record { url = h.url; expect_status = mend_status h.expect_status }
mend_check_by (_ ∷ _) h = record { url = []; expect_status = pos 0 }

abbrev pub mend_format_by : List Problem → LogFormat → LogFormat
mend_format_by [] f = f
mend_format_by (_ ∷ _) f = default_log_format

-- A status that was dropped already is not dropped again.
status_again :
    (c : Config) (n : ℤ) (ps : List Problem)
    → foldl drop_problem
        (record c { check = record { url = []; expect_status = pos 0 } })
        (status_problems n ++ ps)
      ≡ foldl drop_problem (record c { check = record { url = []; expect_status = pos 0 } }) ps
unfolding status_problems drop_problem
status_again c n ps =
    elim (Bool-cases (not (eqb_ℤ n (pos 0)) && (ltb_ℤ n (pos 100) || ltb_ℤ (pos 599) n))) [
      | inl e ↦ rw e
      | inr e ↦ rw e
    ]

good-unfit : (hs : List Text) → unfit_headers hs ≡ [] → good_headers hs ≡ hs
unfolding good_headers unfit_headers
good-unfit [] h = refl
good-unfit (x ∷ hs) h = elim (Bool-cases (is_queryable_header x)) [
  | inl e ↦ rw e (
      ap (λ l. x ∷ l)
        (good-unfit hs
          (subst (λ b. (if b then unfit_headers hs else x ∷ unfit_headers hs) ≡ []) e h)))
  | inr e ↦ cc (subst (λ b. (if b then unfit_headers hs else x ∷ unfit_headers hs) ≡ []) e h)
]

mended_headers_by :
    (c : Config) (us : List Text)
    → unfit_headers c.waf_headers ≡ us
    → foldl drop_problem c (headers_problem us)
      ≡ record c { waf_headers = good_headers c.waf_headers }
unfolding drop_problem
mended_headers_by c [] h =
    ap (λ hs. record c { waf_headers = hs }) (sym (good-unfit c.waf_headers h))
mended_headers_by c (u ∷ us) h = refl

mended_headers :
    (c : Config)
    → foldl drop_problem c (header_problems c.waf_headers)
      ≡ record c { waf_headers = good_headers c.waf_headers }
unfolding header_problems
mended_headers c = mended_headers_by c (unfit_headers c.waf_headers) refl

module _ {R : Type 0} (engine : Text → Text → Option R) (parse_url : Text → Option Url) where
  pub url_cases :
      (raw : Text)
      → (url_problems engine parse_url raw ≡ [])
        ⊎ ((p : UrlProblem) × (url_problems engine parse_url raw ≡ bad_url raw p ∷ []))
  unfolding url_problems
  url_cases [] = inl refl
  url_cases (c ∷ raw) =
      elim (Option-cases (url_problem engine parse_url (c ∷ raw) (parse_url (c ∷ raw)))) [
        | inl e ↦ inl (rw e)
        | inr (p, e) ↦ inr (p, rw e)
      ]

  pub format_cases :
      (f : LogFormat)
      → (format_problems engine parse_url f ≡ [])
        ⊎ ((e : LogFormatError) × (format_problems engine parse_url f ≡ bad_log_format e ∷ []))
  unfolding format_problems
  format_cases f = elim (Result-cases (validate_log_format engine f)) [
    | inl (x, e) ↦ inl (rw e)
    | inr (failure, e) ↦ inr (failure, rw e)
  ]

  mended_check :
      (c : Config) (ps : List Problem)
      → foldl drop_problem c (
          url_problems engine parse_url c.check.url
          ++ (status_problems c.check.expect_status ++ ps))
        ≡ foldl drop_problem
            (record c { check = mend_check_by (url_problems engine parse_url c.check.url) c.check })
            ps
  unfolding drop_problem
  mended_check c ps = elim (url_cases c.check.url) [
    | inl e ↦ rw e (mended_status c ps)
    | inr (p, e) ↦ rw e (status_again c c.check.expect_status ps)
  ]

  mended_format :
      (c : Config) (ps : List Problem)
      → foldl drop_problem c (format_problems engine parse_url c.log_format ++ ps)
        ≡ foldl drop_problem
            (record c {
              log_format =
                  mend_format_by (format_problems engine parse_url c.log_format) c.log_format;
            })
            ps
  unfolding drop_problem
  mended_format c ps = elim (format_cases c.log_format) [ inl e ↦ rw e | inr (failure, e) ↦ rw e ]

  -- The configuration that the dropped problems leave of one whose defaults are filled.
  abbrev pub mended : Config → Config
  mended c = record c {
    region = mend_region c.region;
    load_balancer = mend_load_balancer c.load_balancer;
    check = mend_check_by (url_problems engine parse_url c.check.url) c.check;
    log_format = mend_format_by (format_problems engine parse_url c.log_format) c.log_format;
    waf_headers = good_headers c.waf_headers;
  }

  dropped : (c : Config) → foldl drop_problem c (problems engine parse_url c) ≡ mended c
  unfolding problems
  dropped c =
      let headers = header_problems c.waf_headers in
      let formats = format_problems engine parse_url c.log_format ++ headers in
      let checks =
        url_problems engine parse_url c.check.url
        ++ (status_problems c.check.expect_status ++ formats) in
      let one : Config = record c { region = mend_region c.region } in
      let two : Config = record one { load_balancer = mend_load_balancer c.load_balancer } in
      let three : Config = record two {
        check = mend_check_by (url_problems engine parse_url c.check.url) c.check;
      } in
      let four : Config = record three {
        log_format = mend_format_by (format_problems engine parse_url c.log_format) c.log_format;
      } in
      mended_region c (load_balancer_problems c.load_balancer ++ checks)
      ∙ mended_load_balancer one checks
      ∙ mended_check two formats
      ∙ mended_format three headers
      ∙ mended_headers four

  pub repair_config-mended :
      (c : Config) → (repair_config engine parse_url c).0 ≡ mended (fill_defaults c)
  unfolding repair_config problems
  repair_config-mended c = dropped (fill_defaults c)
