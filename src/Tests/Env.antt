-- ===== src/Tests/Env.antt =====
-- Runs of server/src/config/env.ts, and its properties at inputs.
use skills_dashboard.Common.{
  ◌≡◌, refl, ◌↔◌, false, Option, none, some, List, [], ◌∷◌, ◌++◌, ok, err,
}
use skills_dashboard.Text.{Text, text, trim, trim_start, index_of?, starts_with, includes, join}
use skills_dashboard.TextMap.{get, put}
use skills_dashboard.Env.{
  Credentials, redacted, redacted_id, validate_credentials, missing, missing_names, complain,
  env_file_candidates, add_candidates, first_existing, resolve_env_file, not_found, split_lines,
  env_value, strip_export, parse_assignment, parse_trimmed, parse_env_line, add_lines, no_name,
  content, load_env_file, load_credentials,
}
use skills_dashboard.Env.Files.{write_file, newest, load_env_file-write_file}
use skills_dashboard.Env.Stored.{
  assignments, with_token, Complete, validate_credentials_iff, load_credentials-write_file,
}

-- A value with both escapes, a comment sign and spaces.
abbrev awkward : Text
awkward = text " a\\\"#\n "

shell_line : parse_env_line (text "export A = b c # note") ≡ some (text "A", text "b c")
unfolding parse_env_line trim trim_start parse_trimmed strip_export starts_with parse_assignment
    index_of? env_value
shell_line = refl

single_quoted : parse_env_line (text "A='b\\n'") ≡ some (text "A", text "b\\n")
unfolding parse_env_line trim trim_start parse_trimmed strip_export starts_with parse_assignment
    index_of? env_value
single_quoted = refl

comment_line : parse_env_line (text "  # A=b") ≡ none
unfolding parse_env_line trim trim_start parse_trimmed starts_with
comment_line = refl

abbrev crlf : Text
crlf = text "A=1" ++ (0x0d ∷ 0x0a ∷ text "=2")

nameless : load_env_file (λ p. content crlf) (text "f") ≡ err (no_name 2)
unfolding load_env_file split_lines add_lines parse_env_line trim trim_start parse_trimmed
    strip_export starts_with parse_assignment index_of? env_value put
nameless = refl

abbrev twice : List (Text × Text)
twice = (text "A", text "1") ∷ (text "B", awkward) ∷ (text "A", text "2") ∷ []

load_env_file-write_file_example :
    (vals : List (Text × Text)) × (load_env_file (λ p. content (write_file twice)) (text "f")
      ≡ ok vals)
    × ((k : Text) → get k vals ≡ newest k twice)
load_env_file-write_file_example =
    load_env_file-write_file (λ p. content (write_file twice)) (text "f") twice refl refl
      ((refl, (refl, tt)), ((refl, (refl, tt)), ((refl, (refl, tt)), tt)))

abbrev keys : Credentials
keys = record {
  access_key_id = text "AKIA\"7";
  secret_access_key = text "s#cret/=";
  session_token = [];
  region = text "eu-west-1";
}

abbrev no_env : Text → Option Text
no_env k = none

keys_valid : validate_credentials keys ≡ ok tt
unfolding validate_credentials missing_names complain
keys_valid = refl

validate_credentials_iff_example : (validate_credentials keys ≡ ok tt) ↔ Complete keys
validate_credentials_iff_example = validate_credentials_iff keys

load_credentials-write_file_example :
    load_credentials (λ p. content (write_file (assignments keys))) no_env (text "f")
    ≡ ok (with_token no_env keys)
load_credentials-write_file_example =
    load_credentials-write_file (λ p. content (write_file (assignments keys))) no_env (text "f")
      keys refl refl keys_valid

keys-redacted : redacted keys ≡ text "AccessKeyId=…IA\"7 Region=eu-west-1 SessionToken=false"
unfolding redacted redacted_id
keys-redacted = refl

all_missing :
    validate_credentials
      (record { access_key_id = []; secret_access_key = []; session_token = []; region = [] })
    ≡ err (missing (text "AWS_ACCESS_KEY_ID, AWS_SECRET_ACCESS_KEY, AWS_REGION"))
unfolding validate_credentials missing_names complain join
all_missing = refl

abbrev in_dir : Text → Text
in_dir dir = dir ++ text "/.env"

one_place : env_file_candidates in_dir (text "/a") (text "/a") ≡ text "/a/.env" ∷ []
unfolding env_file_candidates add_candidates includes
one_place = refl

typo : resolve_env_file (λ p. false) (λ p. p) [] (text "/x") ≡ err (not_found (text "/x"))
unfolding resolve_env_file first_existing
typo = refl
