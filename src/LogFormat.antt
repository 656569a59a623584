-- ===== src/LogFormat.antt =====
-- server/src/domain/logfmt.ts: the configurable format of a pod log, its defaults and its check. The
-- engine of the patterns is the parameter of GoRegexp.
use skills_dashboard.Common.{
  ℕ, Bool, false, ◌||◌, not, Option, none, some, List, [], ◌∷◌, ◌==◌, if◌then◌else◌, Result, ok,
  err, ◌>>=◌, ◌>>◌,
}
use skills_dashboard.Text.{Text, text, is_empty, includes}
use skills_dashboard.GoRegexp.{RegexError, compile_go_regexp}

pub record LogFormat : Type 0 where
  pub preset : Text
  pub time_field : Text
  pub message_field : Text
  pub processed_field : Text
  pub stream_field : Text
  pub app_field : Text
  pub latency_field : Text
  pub latency_unit : Text
  pub status_field : Text
  pub method_field : Text
  pub path_field : Text
  pub level_field : Text
  pub client_ip_field : Text
  pub user_agent_field : Text
  pub text_pattern : Text
  pub level_pattern : Text
  pub namespace : Text
  pub ok_statuses : List ℕ
  pub exclude_paths : List Text

abbrev pub default_exclude_paths : List Text
default_exclude_paths = text "/health" ∷ text "/healthcheck" ∷ []

unfoldable pub default_log_format : LogFormat
default_log_format = record {
  preset = text "auto";
  time_field = text "time";
  message_field = text "log";
  processed_field = text "log_processed";
  stream_field = text "stream";
  app_field = text "app";
  latency_field = text "latency_ms";
  latency_unit = text "ms";
  status_field = text "status";
  method_field = text "method";
  path_field = text "path";
  level_field = text "level";
  client_ip_field = text "client_ip";
  user_agent_field = [];
  text_pattern = [];
  level_pattern = text "(?i)\\b(error|err|fatal|panic|warn|warning|oomkilled)\\b";
  namespace = text "default";
  ok_statuses = 200 ∷ 201 ∷ [];
  exclude_paths = default_exclude_paths;
}

abbrev pub presets : List Text
presets = text "auto" ∷ text "gin" ∷ text "json" ∷ []

abbrev pub latency_units : List Text
latency_units = text "ms" ∷ text "s" ∷ [] ∷ []

pub data LogFormatError : Type 0 where
  bad_preset : Text → LogFormatError
  no_time_field no_message_field : LogFormatError
  bad_latency_unit : Text → LogFormatError
  bad_pattern : RegexError → LogFormatError

pub record CompiledLogFormat (R : Type 0) : Type 0 where
  pub format : LogFormat
  pub level : Option R
  pub words : Option R

module _ {R : Type 0} (engine : Text → Text → Option R) where
  -- A pattern that is left out, or a compiled one.
  unfoldable pub compile_pattern : Text → Text → Result LogFormatError (Option R)
  unfolding compile_go_regexp
  compile_pattern label pattern =
      if is_empty pattern then ok none else elim (compile_go_regexp engine label pattern) [
        | err e ↦ err (bad_pattern e)
        | ok re ↦ ok (some re)
      ]

  unfoldable pub compile_log_format : LogFormat → Result LogFormatError (CompiledLogFormat R)
  unfolding compile_pattern
  compile_log_format f = do
    level ← compile_pattern (text "levelPattern") f.level_pattern
    words ← compile_pattern (text "textPattern") f.text_pattern
    ok (record { format = f; level = level; words = words })

  unfoldable pub validate_log_format : LogFormat → Result LogFormatError (CompiledLogFormat R)
  unfolding compile_log_format includes
  validate_log_format f = do
    if includes presets f.preset then ok tt else err (bad_preset f.preset)
    if is_empty f.time_field then err no_time_field else ok tt
    if is_empty f.message_field then err no_message_field else ok tt
    if includes latency_units f.latency_unit then ok tt else err (bad_latency_unit f.latency_unit)
    compile_log_format f

unfoldable pub is_excluded_path : LogFormat → Text → Bool
unfolding includes
is_excluded_path f path = if is_empty path then false else includes f.exclude_paths path

abbrev holds_status : ℕ → List ℕ → Bool
holds_status n [] = false
holds_status n (m ∷ ms) = (m == n) || holds_status n ms

unfoldable pub is_bad_status : LogFormat → ℕ → Bool
is_bad_status f status = if status == 0 then false else not (holds_status status f.ok_statuses)
