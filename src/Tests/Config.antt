-- ===== src/Tests/Config.antt =====
-- Runs of server/src/config/config.ts and of what it rests on, and its properties at inputs.
use skills_dashboard.Common.{
  ◌≡◌, refl, ◌↔◌, Option, none, some, [], ◌∷◌, if◌then◌else◌, drop, ok, err,
}
use skills_dashboard.Common.{pos, eqb_ℤ}
use skills_dashboard.Text.{
  Text, text, trim, trim_start, includes, starts_with, span, index_of?, join,
}
use skills_dashboard.Dimensions.{
  load_balancer_dimension, target_group_dimension, friendly_target_group_name, split,
}
use skills_dashboard.GoRegexp.{
  compile_go_regexp, take_flags, leading_flags, add_flags, rename_groups, unsupported_flag,
}
use skills_dashboard.LogFormat.{
  CompiledLogFormat, default_log_format, validate_log_format, compile_log_format, compile_pattern,
}
use skills_dashboard.Config.{
  Config, default_config, fill_defaults, fill_limits, fill_log_format, normal_load_balancer,
  normal_target_group, is_alb_dimension, is_queryable_header,
}
use skills_dashboard.Config.Repair.{
  Url, drop_problem, good_headers, unfit_headers, region_problems, load_balancer_problems,
  status_problems, header_problems, url_problem, url_problems, format_problems, problems,
  repair_config, validate_config, no_region, bad_load_balancer, bad_url, bad_status, bad_headers,
  not_http,
}
use skills_dashboard.Config.Reload.{repair_config-accepted}
use skills_dashboard.Config.Accepts.{Fits, validate_config_iff}

program : Unit {0}
unfolding trim trim_start includes starts_with span index_of? join load_balancer_dimension
    target_group_dimension friendly_target_group_name split compile_go_regexp take_flags
    leading_flags add_flags rename_groups default_log_format validate_log_format compile_log_format
    compile_pattern default_config fill_defaults fill_limits fill_log_format normal_load_balancer
    normal_target_group is_alb_dimension is_queryable_header drop_problem good_headers unfit_headers
    region_problems load_balancer_problems status_problems header_problems url_problem url_problems
    format_problems problems repair_config validate_config eqb_ℤ
program = tt

-- An engine that compiles every pattern to itself, and addresses of one scheme.
abbrev engine : Text → Text → Option (Text × Text)
engine body flags = some (body, flags)

abbrev parse_url : Text → Option Url
parse_url raw =
    if starts_with (text "https://") raw
    then some (record { protocol = text "https:"; host = drop 8 raw })
    else none

named_group :
    compile_go_regexp engine (text "textPattern") (text "(?is)(?P<status>a+)")
    ≡ ok (text "(?<status>a+)", text "is")
unfolding program
named_group = refl

no_flag :
    compile_go_regexp engine (text "textPattern") (text "(?iU)a")
    ≡ err (unsupported_flag (text "textPattern") b'U')
unfolding program
no_flag = refl

from_arn :
    load_balancer_dimension (text "arn:aws:elasticloadbalancing:ap:1:loadbalancer/app/my-alb/50dc")
    ≡ text "app/my-alb/50dc"
unfolding program
from_arn = refl

friendly : friendly_target_group_name (text "k8s-default-product-d6d507c878") ≡ text "product"
unfolding program
friendly = refl

abbrev broken : Config
broken = record default_config {
  region = [];
  load_balancer = text " my-alb ";
  waf_headers = text "Host" ∷ text "a b" ∷ [];
  check = record { url = text "file:///etc/passwd"; expect_status = pos 999 };
}

dropped :
    (repair_config engine parse_url broken).1
    ≡ no_region
      ∷ bad_load_balancer (text "my-alb")
      ∷ bad_url (text "file:///etc/passwd") not_http
      ∷ bad_status (pos 999)
      ∷ bad_headers (text "a b" ∷ [])
      ∷ []
unfolding program
dropped = refl

abbrev compiled : CompiledLogFormat (Text × Text)
compiled = record {
  format = default_log_format;
  level = some (text "\\b(error|err|fatal|panic|warn|warning|oomkilled)\\b", text "i");
  words = none;
}

default_compiles : validate_log_format engine default_log_format ≡ ok compiled
unfolding program
default_compiles = refl

settled_load_balancer :
    normal_load_balancer (repair_config engine parse_url broken).0.load_balancer
    ≡ (repair_config engine parse_url broken).0.load_balancer
unfolding program
settled_load_balancer = refl

repair_config-accepted_example :
    validate_config engine parse_url (repair_config engine parse_url broken).0
    ≡ ok (fill_defaults (repair_config engine parse_url broken).0)
repair_config-accepted_example =
    repair_config-accepted engine parse_url compiled default_compiles broken settled_load_balancer

-- A configuration with a load balancer and an address to check.
abbrev checked : Config
checked = record default_config {
  load_balancer = text "app/web/50dc6c";
  check = record { url = text "https://shop/health"; expect_status = pos 204 };
}

validate_config_iff_example :
    (validate_config engine parse_url checked ≡ ok (fill_defaults checked)) ↔ (
      Fits engine parse_url (fill_defaults checked)
      × (fill_defaults checked ≡ fill_defaults checked))
validate_config_iff_example = validate_config_iff engine parse_url checked (fill_defaults checked)

accepted_checked : validate_config engine parse_url checked ≡ ok (fill_defaults checked)
unfolding program
accepted_checked = refl

-- A value that holds the marker twice is accepted when it is saved, and dropped when it is loaded.
abbrev twice : Config
twice = record default_config { load_balancer = text "x:loadbalancer/app/y:loadbalancer/ab" }

abbrev saved : Config
saved = record default_config { load_balancer = text "app/y:loadbalancer/ab" }

saved_once : validate_config engine parse_url twice ≡ ok saved
unfolding program
saved_once = refl

lost_on_load : (repair_config engine parse_url saved).1 ≡ bad_load_balancer (text "ab") ∷ []
unfolding program
lost_on_load = refl
