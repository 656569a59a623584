-- ===== src/Config/Repair.antt =====
-- server/src/config/config.ts: `inspect`, and the two paths that read it: `validateConfig` before a
-- configuration is saved, and `repairConfig` when one is loaded. The texts of the messages are left
-- out: a problem carries what its message is made of.
use skills_dashboard.Common.{
  ℕ, Bool, true, false, ◌&&◌, ◌||◌, not, Option, none, some, List, [], ◌∷◌, ◌++◌, ◌==◌,
  if◌then◌else◌, Result, ok, err,
}
use skills_dashboard.Common.{ℤ, pos, ltb_ℤ, eqb_ℤ}
use mathlib.Core.List.{foldl}
use skills_dashboard.Text.{Text, text, text_eq, is_empty}
use skills_dashboard.LogFormat.{LogFormat, LogFormatError, default_log_format, validate_log_format}
use skills_dashboard.Config.{
  Config, default_config, fill_defaults, is_alb_dimension, is_queryable_header,
}

-- What `new URL` gives: `protocol` and `host`.
pub record Url : Type 0 where
  pub protocol : Text
  pub host : Text

pub data UrlProblem : Type 0 where
  not_http no_host : UrlProblem

pub data Problem : Type 0 where
  no_region : Problem
  bad_load_balancer : Text → Problem
  bad_url : Text → UrlProblem → Problem
  bad_status : ℤ → Problem
  bad_log_format : LogFormatError → Problem
  bad_headers : List Text → Problem

-- The headers that pass, and those that do not.
unfoldable pub good_headers : List Text → List Text
unfolding is_queryable_header
good_headers [] = []
good_headers (h ∷ hs) =
    let rest = good_headers hs in if is_queryable_header h then h ∷ rest else rest

unfoldable pub unfit_headers : List Text → List Text
unfolding is_queryable_header
unfit_headers [] = []
unfit_headers (h ∷ hs) =
    let rest = unfit_headers hs in if is_queryable_header h then rest else h ∷ rest

-- `problem.drop`
unfoldable pub drop_problem : Config → Problem → Config
unfolding default_config good_headers
drop_problem c no_region = record c { region = default_config.region }
drop_problem c (bad_load_balancer _) = record c { load_balancer = [] }
drop_problem c (bad_url _ _) = record c { check = record { url = []; expect_status = pos 0 } }
drop_problem c (bad_status _) = record c {
  check = record { url = c.check.url; expect_status = pos 0 };
}
drop_problem c (bad_log_format _) = record c { log_format = default_log_format }
drop_problem c (bad_headers _) = record c { waf_headers = good_headers c.waf_headers }

unfoldable pub region_problems : Text → List Problem
region_problems r = if is_empty r then no_region ∷ [] else []

unfoldable pub load_balancer_problems : Text → List Problem
unfolding is_alb_dimension
load_balancer_problems s =
    if not (is_empty s) && not (is_alb_dimension s) then bad_load_balancer s ∷ [] else []

unfoldable pub status_problems : ℤ → List Problem
status_problems n =
    if not (eqb_ℤ n (pos 0)) && (ltb_ℤ n (pos 100) || ltb_ℤ (pos 599) n)
    then bad_status n ∷ []
    else []

abbrev pub headers_problem : List Text → List Problem
headers_problem [] = []
headers_problem (h ∷ hs) = bad_headers (h ∷ hs) ∷ []

unfoldable pub header_problems : List Text → List Problem
unfolding unfit_headers
header_problems hs = headers_problem (unfit_headers hs)

-- `/^https?:/i`
abbrev any_case : Text → ℕ → Bool
any_case [] c = false
any_case (d ∷ ds) c = (d == c) || any_case ds c

abbrev starts_like : List Text → Text → Bool
starts_like [] s = true
starts_like (p ∷ ps) [] = false
starts_like (p ∷ ps) (c ∷ s) = any_case p c && starts_like ps s

abbrev http_letters : List Text
http_letters = text "hH" ∷ text "tT" ∷ text "tT" ∷ text "pP" ∷ []

abbrev says_http : Text → Bool
says_http s =
    starts_like (http_letters ++ text ":" ∷ []) s
    || starts_like (http_letters ++ text "sS" ∷ text ":" ∷ []) s

abbrev pub url_problems_for : Text → Option UrlProblem → List Problem
url_problems_for raw none = []
url_problems_for raw (some reason) = bad_url raw reason ∷ []

module _ {R : Type 0} (engine : Text → Text → Option R) (parse_url : Text → Option Url) where
  -- `checkURLProblem`, for what `new URL` gives.
  unfoldable pub url_problem : Text → Option Url → Option UrlProblem
  url_problem raw none = if says_http raw then some no_host else some not_http
  url_problem raw (some u) =
      if not (text_eq u.protocol (text "http:")) && not (text_eq u.protocol (text "https:"))
      then some not_http
      else (if is_empty u.host then some no_host else none)

  unfoldable pub url_problems : Text → List Problem
  unfolding url_problem
  url_problems raw =
      if is_empty raw then [] else url_problems_for raw (url_problem raw (parse_url raw))

  unfoldable pub format_problems : LogFormat → List Problem
  unfolding validate_log_format
  format_problems f = elim (validate_log_format engine f) [
    | err e ↦ bad_log_format e ∷ []
    | ok _ ↦ []
  ]

  -- `inspect` of a configuration whose defaults are filled.
  unfoldable pub problems : Config → List Problem
  unfolding region_problems load_balancer_problems url_problems status_problems format_problems
      header_problems
  problems c =
      region_problems c.region
      ++ (load_balancer_problems c.load_balancer
          ++ (url_problems c.check.url
              ++ (status_problems c.check.expect_status
                  ++ (format_problems c.log_format ++ header_problems c.waf_headers))))

  abbrev pub verdict : Config → List Problem → Result (List Problem) Config
  verdict c [] = ok c
  verdict c (p ∷ ps) = err (p ∷ ps)

  -- `validateConfig`; the configuration that it has completed is what it leaves to the caller.
  unfoldable pub validate_config : Config → Result (List Problem) Config
  unfolding problems fill_defaults
  validate_config c = verdict (fill_defaults c) (problems (fill_defaults c))

  -- `repairConfig`: the configuration that is left, and what was dropped.
  unfoldable pub repair_config : Config → Config × List Problem
  unfolding problems fill_defaults drop_problem
  repair_config c = (
    foldl drop_problem (fill_defaults c) (problems (fill_defaults c)),
    problems (fill_defaults c),
  )
