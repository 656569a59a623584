-- ===== src/Requests.antt =====
-- server/src/http/panels.ts, `requestConfig`: the configuration of a request; server/src/http/panels-logs.ts,
-- `podLogs` and `wafLogs`: where its queries go.
use skills_dashboard.Common.{
  ℕ, Bool, true, false, ◌&&◌, ◌||◌, not, Option, none, some, [], ◌∷◌, ◌++◌, ltb, ◌==◌,
  if◌then◌else◌, length, Result, ok, err,
}
use skills_dashboard.Text.{Text, text, text_eq, is_lower, is_digit, trim}
use skills_dashboard.Config.{Config, pod_log_group_or_default}
use skills_dashboard.LogPanels.{LogSource}

-- The connection of a request: which runners of queries there are, and the regions.
pub record Connection : Type 0 where
  pub has_insights : Bool
  pub has_insights_global : Bool
  pub region : Text
  pub waf_region : Text

unfoldable pub pod_logs : Connection → Config → LogSource
unfolding pod_log_group_or_default
pod_logs conn c = record {
  has_runner = conn.has_insights;
  region = conn.region;
  group = pod_log_group_or_default c;
  missing = text "팟 로그 그룹이 설정되지 않았습니다. 설정에서 클러스터 또는 로그 그룹을 지정하세요.";
}

unfoldable pub waf_logs : Connection → Config → LogSource
waf_logs conn c = record {
  has_runner = conn.has_insights_global || conn.has_insights;
  region = conn.waf_region;
  group = c.waf_log_group;
  missing =
      text "WAF 로그 그룹이 설정되지 않았습니다. CLOUDFRONT 스코프 WAF는 "
      ++ (conn.waf_region ++ text "에만 로그를 남기므로, 설정에서 해당 리전의 aws-waf-logs-* 그룹을 지정하세요.");
}

-- `namespaceRe`
abbrev is_name_char : ℕ → Bool
is_name_char c = is_lower c || is_digit c

unfoldable pub ends_name : Text → Bool
ends_name [] = true
ends_name (c ∷ []) = is_name_char c
ends_name (c ∷ d ∷ s) = (is_name_char c || (c == b'-')) && ends_name (d ∷ s)

unfoldable pub is_namespace : Text → Bool
unfolding ends_name
is_namespace [] = false
is_namespace (c ∷ s) = is_name_char c && ends_name s

abbrev with_namespace : Config → Text → Config
with_namespace c namespace = record c { log_format = record c.log_format { namespace = namespace } }

-- `requestConfig`, for the parameter `namespace` of the address.
unfoldable pub request_config : Config → Option Text → Result Text Config
unfolding is_namespace trim
request_config c none = ok (with_namespace c c.namespace)
request_config c (some given) =
    let namespace : Text = trim given in
    if text_eq namespace (text "*")
    then ok (with_namespace c [])
    else if ltb 63 (length namespace) || not (is_namespace namespace)
    then err (text "namespace \"" ++ (namespace ++ text "\"는 올바른 Kubernetes namespace 이름이 아닙니다"))
    else ok (with_namespace c namespace)
