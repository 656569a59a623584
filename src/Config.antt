-- ===== src/Config.antt =====
-- server/src/config/config.ts: what the dashboard watches, how a stored configuration is completed,
-- what is wrong with it, and what is done about that. Parsing an address, `new URL`, is a parameter:
-- it gives the scheme and the host, or throws.
pub mod Repair
pub mod Mended
pub mod Reload
pub mod Fields
pub mod Dimension
pub mod Accepts
use skills_dashboard.Common.{
  ℕ, zero, suc, ◌+◌, ◌-◌, ◌*◌, ◌/◌, ◌%◌, ◌^◌, ◌≤◌, ◌<◌, min, ◌≡◌, refl, sym, ap, ◌∙◌, subst, ◌≢◌,
  ◌↔◌, ◌⊎◌, inl, inr, Bool, true, false, ◌&&◌, ◌||◌, not, Option, none, some, List, [], ◌∷◌, ◌++◌,
  map, append-nil, append_assoc, arith, ltb, leb, ◌==◌, if◌then◌else◌, Bool-cases, Option-cases,
  length, get_elem?, set, take, drop, replicate, length-append, length-map, length-replicate,
  Listed, All, All-Listed, All-append, Result, ok, err, ◌>>=◌, ◌>>◌, >>=-eq-ok, Result-cases,
}
use skills_dashboard.Common.{
  ℤ, pos, negsuc, pos_part, neg_part, sub_ℕ, ◌+ℤ◌, ◌-ℤ◌, ◌≤ℤ◌, ◌<ℤ◌, ltb_ℤ, eqb_ℤ, +ℤ_parts,
  -ℤ_parts, eq_of_parts, part_cases, eqb_ℤ_eq, eqb_ℤ_refl, int_laws, floor_to, trunc_div,
}
use skills_dashboard.Text.{
  Text, text, text_eq, is_empty, trim, starts_with, span, all, is_alnum, is_digit, join,
}
use skills_dashboard.Dimensions.{load_balancer_dimension, target_group_dimension}
use skills_dashboard.LogFormat.{LogFormat, LogFormatError, default_log_format, validate_log_format}

pub record Limits : Type 0 where
  pub log_rows : ℤ
  pub top_n : ℤ
  pub insights_concurrency : ℤ
  pub query_timeout_seconds : ℤ
  pub cache_ttl_seconds : ℤ

pub record HealthCheck : Type 0 where
  pub url : Text
  pub expect_status : ℤ

pub record Config : Type 0 where
  pub region : Text
  pub waf_region : Text
  pub cluster_name : Text
  pub namespace : Text
  pub pod_log_group : Text
  pub waf_log_group : Text
  pub load_balancer : Text
  pub target_groups : List Text
  pub rds_proxies : List Text
  pub web_acls : List Text
  pub waf_headers : List Text
  pub log_format : LogFormat
  pub limits : Limits
  pub check : HealthCheck

abbrev pub default_limits : Limits
default_limits = record {
  log_rows = pos 300;
  top_n = pos 20;
  insights_concurrency = pos 8;
  query_timeout_seconds = pos 45;
  cache_ttl_seconds = pos 60;
}

abbrev pub default_waf_headers : List Text
default_waf_headers = text "Host" ∷ text "User-Agent" ∷ []

abbrev no_check : HealthCheck
no_check = record { url = []; expect_status = pos 0 }

unfoldable pub default_config : Config
unfolding default_log_format
default_config = record {
  region = text "ap-northeast-2";
  waf_region = text "us-east-1";
  cluster_name = [];
  namespace = text "default";
  pod_log_group = [];
  waf_log_group = [];
  load_balancer = [];
  target_groups = [];
  rds_proxies = [];
  web_acls = [];
  waf_headers = default_waf_headers;
  log_format = default_log_format;
  limits = default_limits;
  check = no_check;
}

unfoldable pub pod_log_group_or_default : Config → Text
pod_log_group_or_default c =
    if not (is_empty c.pod_log_group)
    then c.pod_log_group
    else (if is_empty c.cluster_name
        then []
        else text "/aws/containerinsights/" ++ c.cluster_name ++ text "/application")

-- `checkOK`
unfoldable pub check_ok : HealthCheck → ℤ → Bool
check_ok h status =
    if ltb_ℤ (pos 0) h.expect_status
    then eqb_ℤ status h.expect_status
    else not (ltb_ℤ status (pos 200)) && ltb_ℤ status (pos 300)

-- `isQueryableHeader` of server/src/domain/query.ts.
abbrev pub is_header_char : ℕ → Bool
is_header_char c =
    is_alnum c
    || (c == b'!')
    || (leb b'#' c && leb c b'\'')
    || (c == b'*')
    || (c == b'+')
    || (c == b'-')
    || (c == b'.')
    || (leb b'^' c && leb c b'`')
    || (c == b'|')
    || (c == b'~')

unfoldable pub is_queryable_header : Text → Bool
is_queryable_header s = not (is_empty s) && all is_header_char s

-- `albDimensionRe`: `app/`, a name, `/` and a hexadecimal number.
abbrev pub is_hex : ℕ → Bool
is_hex c = is_digit c || (leb b'a' c && leb c b'f') || (leb b'A' c && leb c b'F')

unfoldable pub is_alb_dimension : Text → Bool
unfolding starts_with span
is_alb_dimension s =
    let found = span (λ c. not (c == b'/')) (drop 4 s) in
    let id = drop 1 found.1 in
    starts_with (text "app/") s
    && not (is_empty found.0)
    && starts_with (text "/") found.1
    && not (is_empty id)
    && all is_hex id

-- `normaliseDimensions`
unfoldable pub normal_load_balancer : Text → Text
unfolding trim load_balancer_dimension
normal_load_balancer s = load_balancer_dimension (trim s)

unfoldable pub normal_target_group : Text → Text
unfolding trim target_group_dimension
normal_target_group s = target_group_dimension (trim s)

-- `if (!(n > 0)) n = d`
abbrev positive_or : ℤ → ℤ → ℤ
positive_or d n = if ltb_ℤ (pos 0) n then n else d

unfoldable pub fill_limits : Limits → Limits
fill_limits l = record {
  log_rows = positive_or (pos 300) l.log_rows;
  top_n = positive_or (pos 20) l.top_n;
  insights_concurrency = positive_or (pos 8) l.insights_concurrency;
  query_timeout_seconds = positive_or (pos 45) l.query_timeout_seconds;
  cache_ttl_seconds = if ltb_ℤ l.cache_ttl_seconds (pos 0) then pos 60 else l.cache_ttl_seconds;
}

abbrev statuses_or : List ℕ → List ℕ → List ℕ
statuses_or d [] = d
statuses_or d (n ∷ ns) = n ∷ ns

unfoldable pub fill_log_format : LogFormat → LogFormat
unfolding default_log_format trim
fill_log_format f = record f {
  ok_statuses = statuses_or default_log_format.ok_statuses f.ok_statuses;
  exclude_paths = map trim f.exclude_paths;
}

-- `fillDefaults`; the lists of a configuration are never missing here.
unfoldable pub fill_defaults : Config → Config
unfolding fill_limits fill_log_format normal_load_balancer normal_target_group
fill_defaults c = record c {
  waf_region = if is_empty c.waf_region then text "us-east-1" else c.waf_region;
  limits = fill_limits c.limits;
  log_format = fill_log_format c.log_format;
  load_balancer = normal_load_balancer c.load_balancer;
  target_groups = map normal_target_group c.target_groups;
}
