-- ===== src/Tests/Query.antt =====
-- Runs of server/src/domain/query.ts, and its properties at inputs.
use skills_dashboard.Query.Pods.{pod_bad_status_list}
use skills_dashboard.Query.Pods.{pod_error_list}
use skills_dashboard.Query.Pods.{pod_error_series}
use skills_dashboard.Query.Pods.{pod_bad_status_by_path}
use skills_dashboard.Common.{pos}
use skills_dashboard.Common.{◌≡◌, refl, ◌↔◌, some, [], ◌∷◌, ◌++◌, arith, All, ok, err}
use skills_dashboard.Text.{Text, text, join}
use skills_dashboard.TextMap.{get, put}
use skills_dashboard.Text.Decimal.{show}
use skills_dashboard.Window.{Window, minute}
use skills_dashboard.Config.{is_queryable_header}
use skills_dashboard.LogFormat.{LogFormat, default_log_format}
use skills_dashboard.Query.{
  in_field, invalid_field, quote, quote_char, quote_meta, meta_char, header_parse, field, is_field,
  idents, processed_field, probes,
}
use skills_dashboard.Query.Preamble.{
  access_preamble, json_fields, add_fields_from, preamble_of, common_fields, coalesce_expr,
  coalesce_kept, kept,
}
use skills_dashboard.Query.Pods.{pod_traffic, pod_bad_status_series}
use skills_dashboard.Query.Waf.{waf_by_header, to_lower}
use skills_dashboard.Query.Pods.{limit_line}
use skills_dashboard.Query.Quoting.{
  read_meta, Excludes, nonempty, probes-Excludes, read_meta-quote_meta,
}
use skills_dashboard.Query.Headers.{OnePattern, NotSlash, pattern, header_parse-OnePattern}
use skills_dashboard.Query.Accepted.{Returns, CanAsk, Usable, pod_queries_iff}
use mathlib.Core.List.{flat_map}

abbrev five : Window
five = record { start = pos 0; end = pos 300_000; range = 300_000; period = minute }

-- A namespace that tries to end its literal and to add a command.
abbrev hostile : Text
hostile = text "a' or 1 = 1\n| delete"

quoted : quote hostile ≡ text "'a\\' or 1 = 1\\n| delete'"
unfolding quote quote_char flat_map
quoted = refl

no_probes : LogFormat
unfolding default_log_format
no_probes = record default_log_format { exclude_paths = text "/a" ∷ [] ∷ hostile ∷ [] }

probes-Excludes_example :
    Excludes (probes no_probes) (nonempty no_probes.exclude_paths) (text "| sort")
probes-Excludes_example = probes-Excludes no_probes (text "| sort")

read_meta-quote_meta_example : read_meta (quote_meta (text "x-a.b*")) ≡ some (text "x-a.b*")
read_meta-quote_meta_example = read_meta-quote_meta (text "x-a.b*")

field_refused : field (text "x | delete") ≡ err (invalid_field (text "x | delete"))
unfolding field is_field idents
field_refused = refl

abbrev host_command : Text
host_command = text "parse @message /\"name\":\"(?i)Host\",\"value\":\"(?<headerValue>[^\"]*)\"/"

host_parse : header_parse (text "Host") (text "headerValue") ≡ ok host_command
unfolding header_parse is_queryable_header quote_meta meta_char flat_map
host_parse = refl

abbrev capture_NotSlash : All NotSlash (text "headerValue")
capture_NotSlash = (
  λ e. omega arith,
  (
    λ e. omega arith,
    (
      λ e. omega arith,
      (
        λ e. omega arith,
        (
          λ e. omega arith,
          (
            λ e. omega arith,
            (
              λ e. omega arith,
              (λ e. omega arith, (λ e. omega arith, (λ e. omega arith, (λ e. omega arith, tt)))),
            ),
          ),
        ),
      ),
    ),
  ),
)

header_parse-OnePattern_example :
    OnePattern host_command (pattern (text "Host") (text "headerValue"))
header_parse-OnePattern_example =
    header_parse-OnePattern (text "Host") (text "headerValue") host_command capture_NotSlash
      host_parse

header_words :
    waf_by_header (text "Host") 5
    ≡ ok (record {
      id = text "waf.byHeader.host";
      words =
          host_command
          ++ text
              "\n| filter ispresent(headerValue)\n| stats count() as n, max(@timestamp) as lastTs by headerValue as value, action\n| sort n desc\n| limit 5";
      limit = 5;
    })
unfolding waf_by_header header_parse is_queryable_header quote_meta meta_char flat_map to_lower
    limit_line show
header_words = refl

-- The fields of a log in JSON, and a query on it.
json_format : LogFormat
unfolding default_log_format
json_format = record default_log_format {
  preset = text "json";
  namespace = [];
  exclude_paths = [];
  processed_field = [];
}

preamble_words :
    access_preamble json_format
    ≡ ok (
        text
          "fields @timestamp, coalesce(log, @message) as dashboardMessage\n| fields latency_ms as jsonLatencyMs\n| fields coalesce(app, kubernetes.container_name) as app, status as status, jsonLatencyMs as latencyMs, method as method, path as requestTarget, client_ip as clientIp, coalesce(level, '') as rawLevel\n| parse requestTarget /^(?<requestPath>[^?]*)/\n| fields coalesce(requestPath, requestTarget) as path\n")
unfolding json_format default_log_format access_preamble field is_field idents json_fields
    add_fields_from processed_field put preamble_of common_fields coalesce_expr coalesce_kept kept
    get join
preamble_words = refl

wrong_field :
    access_preamble (record json_format { status_field = text "a b" })
    ≡ err (in_field (text "statusField") (invalid_field (text "a b")))
unfolding json_format default_log_format access_preamble field is_field idents json_fields
    add_fields_from processed_field put
wrong_field = refl

pod_queries_iff_example :
    (Returns (pod_traffic json_format five) ↔ CanAsk json_format)
    × (Returns (pod_bad_status_series json_format five) ↔ CanAsk json_format)
    × (Returns (pod_bad_status_by_path json_format) ↔ CanAsk json_format)
    × (Returns (pod_error_series json_format five) ↔ CanAsk json_format)
    × (Returns (pod_error_list json_format 9) ↔ CanAsk json_format)
    × (Returns (pod_bad_status_list json_format 9) ↔ (
        CanAsk json_format × Usable json_format (text "userAgent", json_format.user_agent_field)))
pod_queries_iff_example = pod_queries_iff json_format five 9
