-- ===== src/Query/Preamble.antt =====
-- server/src/domain/query.ts, `accessPreamble` and `accessFields` of `LogQueries`: one set of names for
-- the lines in JSON and the access lines of Gin.
use skills_dashboard.Common.{
  Bool, Option, none, some, List, [], ◌∷◌, ◌++◌, ◌==◌, if◌then◌else◌, Result, ok, err, ◌>>=◌,
}
use skills_dashboard.Text.{Text, text, text_eq, is_empty, join}
use skills_dashboard.TextMap.{get, put}
use skills_dashboard.LogFormat.{LogFormat}
use skills_dashboard.Query.{QueryError, in_field, backslash, field, processed_field}

abbrev gin_insights_pattern : Text
gin_insights_pattern =
    text
      "(?:\\x1b\\[[0-9;]*m)*\\[GIN\\]\\s+\\d{4}/\\d{2}/\\d{2}\\s+-\\s+\\d{2}:\\d{2}:\\d{2}\\s+\\|(?:\\x1b\\[[0-9;]*m)*\\s*(?<ginStatus>\\d{3})\\s*(?:\\x1b\\[[0-9;]*m)*\\|(?:\\x1b\\[[0-9;]*m)*\\s*(?:(?<ginHours>\\d+)h)?(?:(?<ginMinutes>\\d+)m)?(?<ginLatency>[\\d.]+)(?<ginLatencyUnit>ns|µs|μs|us|ms|s)\\s*(?:\\x1b\\[[0-9;]*m)*\\|\\s*(?<ginClientIp>\\S+)\\s*\\|(?:\\x1b\\[[0-9;]*m)*\\s*(?<ginMethod>[A-Z]+)\\s*(?:\\x1b\\[[0-9;]*m)*\\s+\"?(?<ginTarget>(?:\\.|[^\"\\s])+?)\"?(?:\\s|$)"

-- `split('/').join('\/')`
unfoldable pub escape_slashes : Text → Text
escape_slashes [] = []
escape_slashes (c ∷ s) =
    let rest = escape_slashes s in if c == b'/' then backslash ∷ c ∷ rest else c ∷ rest

-- The error of a field, under its label.
abbrev pub labelled : {A : Type 0} → Text → Result QueryError A → Result QueryError A
labelled label (ok a) = ok a
labelled label (err e) = err (in_field label e)

abbrev pub sources : LogFormat → List (Text × Text)
sources f =
    (text "app", f.app_field)
    ∷ (text "latency", f.latency_field)
    ∷ (text "status", f.status_field)
    ∷ (text "method", f.method_field)
    ∷ (text "target", f.path_field)
    ∷ (text "level", f.level_field)
    ∷ (text "clientIp", f.client_ip_field)
    ∷ []

-- The loop that fills `jsonFields`.
unfoldable pub add_fields_from :
    LogFormat → List (Text × Text) → List (Text × Text) → Result QueryError (List (Text × Text))
unfolding processed_field put
add_fields_from f [] fields = ok fields
add_fields_from f ((key, name) ∷ rest) fields =
    let skipped = add_fields_from f rest fields in
    if is_empty name
    then skipped
    else labelled (key ++ text "Field") (processed_field f name) >>= λ value.
        add_fields_from f rest (put key value fields)

abbrev pub is_preset : LogFormat → Text → Bool
is_preset f p = text_eq f.preset p

unfoldable pub json_fields : LogFormat → Result QueryError (List (Text × Text))
unfolding add_fields_from
json_fields f = if is_preset f (text "gin") then ok [] else add_fields_from f (sources f) []

-- `values.filter(…)` of `coalesceExpr`
unfoldable pub kept : List (Option Text) → List Text
kept [] = []
kept (none ∷ vs) = kept vs
kept (some v ∷ vs) = let rest = kept vs in if is_empty v then rest else v ∷ rest

unfoldable pub coalesce_kept : List Text → Text
unfolding join
coalesce_kept [] = text "''"
coalesce_kept (v ∷ []) = v
coalesce_kept (v ∷ w ∷ vs) = text "coalesce(" ++ (join (text ", ") (v ∷ w ∷ vs) ++ text ")")

unfoldable pub coalesce_expr : Option Text → Option Text → Text
unfolding kept coalesce_kept
coalesce_expr a b = coalesce_kept (kept (a ∷ b ∷ []))

abbrev pub alias_expr : Text → Text → Text
alias_expr expr alias = expr ++ (text " as " ++ alias)

abbrev pub gin_field : LogFormat → Text → Text
gin_field f name = if is_preset f (text "json") then [] else name

-- The JSON latency, in milliseconds.
abbrev pub json_latency : LogFormat → Option Text → List Text
json_latency f none = []
json_latency f (some source) =
    if is_empty source
    then []
    else alias_expr
        (if text_eq f.latency_unit (text "s")
          then text "(" ++ (source ++ text " * 1000)")
          else source)
        (text "jsonLatencyMs")
      ∷ []

abbrev gin_latency : Text
gin_latency =
    text "case(ispresent(ginHours), ginHours * 3600000, 0) + "
    ++ (text "case(ispresent(ginMinutes), ginMinutes * 60000, 0) + "
        ++ (text "case(ginLatencyUnit = 's', ginLatency * 1000, "
            ++ (text "ginLatencyUnit in ['µs', 'μs', 'us'], ginLatency / 1000, "
                ++ text "ginLatencyUnit = 'ns', ginLatency / 1000000, ginLatency)")))

abbrev pub calculated : LogFormat → Option Text → List Text
calculated f latency =
    json_latency f latency
    ++ (if is_preset f (text "json")
        then []
        else alias_expr (text "(ginStatus * 1)") (text "ginStatusNumber")
          ∷ alias_expr gin_latency (text "ginLatencyMs")
          ∷ [])

-- The name that the JSON latency has, if there is one.
abbrev pub latency_name : List Text → Text
latency_name [] = []
latency_name (_ ∷ _) = text "jsonLatencyMs"

-- The aliases that every query reads.
unfoldable pub common_fields : LogFormat → List (Text × Text) → List Text
unfolding coalesce_expr get
common_fields f fields =
    alias_expr (coalesce_expr (get (text "app") fields) (some (text "kubernetes.container_name")))
      (text "app")
    ∷ alias_expr
        (coalesce_expr (get (text "status") fields) (some (gin_field f (text "ginStatusNumber"))))
        (text "status")
    ∷ alias_expr
        (coalesce_expr (some (latency_name (json_latency f (get (text "latency") fields))))
          (some (gin_field f (text "ginLatencyMs"))))
        (text "latencyMs")
    ∷ alias_expr
        (coalesce_expr (get (text "method") fields) (some (gin_field f (text "ginMethod"))))
        (text "method")
    ∷ alias_expr
        (coalesce_expr (get (text "target") fields) (some (gin_field f (text "ginTarget"))))
        (text "requestTarget")
    ∷ alias_expr
        (coalesce_expr (get (text "clientIp") fields) (some (gin_field f (text "ginClientIp"))))
        (text "clientIp")
    ∷ alias_expr (coalesce_expr (get (text "level") fields) (some (text "''"))) (text "rawLevel")
    ∷ []

abbrev calculated_line : List Text → Text
calculated_line [] = []
calculated_line (e ∷ es) = text "| fields " ++ (join (text ", ") (e ∷ es) ++ text "\n")

abbrev gin_line : LogFormat → Text
gin_line f =
    if is_preset f (text "json")
    then []
    else text "| parse dashboardMessage /" ++ (escape_slashes gin_insights_pattern ++ text "/\n")

-- The preamble, from the fields that were accepted.
unfoldable pub preamble_of : LogFormat → Text → List (Text × Text) → Text
unfolding common_fields escape_slashes get join
preamble_of f msg fields =
    text "fields @timestamp, coalesce("
    ++ (msg
        ++ (text ", @message) as dashboardMessage\n"
            ++ (gin_line f
                ++ (calculated_line (calculated f (get (text "latency") fields))
                    ++ (text "| fields "
                        ++ (join (text ", ") (common_fields f fields)
                            ++ (text "\n"
                                ++ (text "| parse requestTarget /^(?<requestPath>[^?]*)/"
                                    ++ (text "\n"
                                        ++ text
                                            "| fields coalesce(requestPath, requestTarget) as path\n")))))))))

unfoldable pub access_preamble : LogFormat → Result QueryError Text
unfolding field json_fields preamble_of
access_preamble f = do
  msg ← labelled (text "messageField") (field f.message_field)
  fields ← json_fields f
  ok (preamble_of f msg fields)

-- `accessFields`: the fields that the list defines, and the columns that it shows.
unfoldable pub access_fields : LogFormat → Result QueryError (List Text × List Text)
access_fields f =
    let fields : List Text =
      text "kubernetes.pod_name as pod"
      ∷ text "kubernetes.container_name as container"
      ∷ text "kubernetes.namespace_name as namespace"
      ∷ [] in
    let columns : List Text =
      text "@timestamp"
      ∷ text "pod"
      ∷ text "container"
      ∷ text "namespace"
      ∷ text "app"
      ∷ text "method"
      ∷ text "path"
      ∷ text "requestTarget"
      ∷ text "status"
      ∷ text "latencyMs"
      ∷ text "clientIp"
      ∷ [] in
    if is_empty f.user_agent_field
    then ok (fields, columns)
    else labelled (text "userAgentField") (processed_field f f.user_agent_field) >>= λ agent.
        ok (fields ++ ((agent ++ text " as userAgent") ∷ []), columns ++ (text "userAgent" ∷ []))
