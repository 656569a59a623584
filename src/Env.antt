-- ===== src/Env.antt =====
-- server/src/config/env.ts: the file `.env` and the credentials that are read from it. Paths, the
-- file system and the environment of the process are arguments.
pub mod Lines
pub mod Files
pub mod Stored
use skills_dashboard.Common.{
  ℕ, zero, suc, ◌+◌, ◌-◌, ◌*◌, ◌/◌, ◌%◌, ◌^◌, ◌≤◌, ◌<◌, min, ◌≡◌, refl, sym, ap, ◌∙◌, subst, ◌≢◌,
  ◌↔◌, ◌⊎◌, inl, inr, Bool, true, false, ◌&&◌, ◌||◌, not, Option, none, some, List, [], ◌∷◌, ◌++◌,
  map, append-nil, append_assoc, arith, ltb, leb, ◌==◌, if◌then◌else◌, Bool-cases, Option-cases,
  length, get_elem?, set, take, drop, replicate, length-append, length-map, length-replicate,
  Listed, All, All-Listed, All-append, Result, ok, err, ◌>>=◌, ◌>>◌, >>=-eq-ok, Result-cases,
}
use skills_dashboard.Text.{
  Text, text, text_eq, is_empty, starts_with, index_of?, trim, includes, join,
}
use skills_dashboard.TextMap.{get, put}

pub record Credentials : Type 0 where
  pub access_key_id : Text
  pub secret_access_key : Text
  pub session_token : Text
  pub region : Text

-- `slice(-4)` of an identifier that is longer.
unfoldable pub redacted_id : Text → Text
redacted_id id = if ltb 4 (length id) then text "…" ++ drop (length id - 4) id else id

unfoldable pub redacted : Credentials → Text
unfolding redacted_id
redacted c =
    text "AccessKeyId="
    ++ (redacted_id c.access_key_id
        ++ (text " Region="
            ++ (c.region
                ++ (text " SessionToken="
                    ++ (if is_empty c.session_token then text "false" else text "true")))))

abbrev if_missing : Text → Text → List Text
if_missing value name = if is_empty value then name ∷ [] else []

unfoldable pub missing_names : Credentials → List Text
missing_names c =
    if_missing c.access_key_id (text "AWS_ACCESS_KEY_ID")
    ++ (if_missing c.secret_access_key (text "AWS_SECRET_ACCESS_KEY")
        ++ if_missing c.region (text "AWS_REGION"))

pub data EnvError : Type 0 where
  missing : Text → EnvError
  not_found : Text → EnvError
  no_name : ℕ → EnvError
  unreadable : Text → EnvError

unfoldable pub complain : List Text → Result EnvError (Unit {0})
unfolding join
complain [] = ok tt
complain (n ∷ ns) = err (missing (join (text ", ") (n ∷ ns)))

unfoldable pub validate_credentials : Credentials → Result EnvError (Unit {0})
unfolding missing_names complain
validate_credentials c = complain (missing_names c)

-- The `.env` files of the directories, with `path` for the path of the file in a directory.
unfoldable pub add_candidates : (Text → Text) → List Text → List Text → List Text
unfolding includes
add_candidates path [] out = out
add_candidates path (dir ∷ dirs) out =
    add_candidates path dirs
      (if is_empty dir || includes out (path dir) then out else out ++ (path dir ∷ []))

unfoldable pub env_file_candidates : (Text → Text) → Text → Text → List Text
unfolding add_candidates
env_file_candidates path exe_dir home_dir = add_candidates path (exe_dir ∷ home_dir ∷ []) []

pub record ResolvedEnv : Type 0 where
  pub path : Text
  pub tried : List Text

unfoldable pub first_existing : (Text → Bool) → List Text → Text
first_existing exists [] = []
first_existing exists (p ∷ ps) = if exists p then p else first_existing exists ps

-- `absolute` makes a named path absolute.
unfoldable pub resolve_env_file :
    (Text → Bool) → (Text → Text) → List Text → Text → Result EnvError ResolvedEnv
unfolding first_existing
resolve_env_file exists absolute candidates named =
    if is_empty named
    then ok (record { path = first_existing exists candidates; tried = candidates })
    else if exists (absolute named)
    then ok (record { path = named; tried = named ∷ [] })
    else err (not_found named)

abbrev pub cons_first : ℕ → List Text → List Text
cons_first c [] = (c ∷ []) ∷ []
cons_first c (l ∷ ls) = (c ∷ l) ∷ ls

abbrev pub starts_line : Text → Bool
starts_line [] = false
starts_line (c ∷ s) = c == 0x0a

-- `split(/\r?\n/)`
unfoldable pub split_lines : Text → List Text
split_lines [] = [] ∷ []
split_lines (c ∷ s) =
    let rest = split_lines s in
    if c == 0x0a
    then [] ∷ rest
    else if starts_line s && (c == 0x0d)
    then rest
    else cons_first c rest

-- The character that a backslash before it stands for, if it is one of the three.
abbrev pub env_escape : ℕ → Option ℕ
env_escape d = if d == b'n' then some 0x0a else if (d == b'"') || (d == 0x5c) then some d else none

unfoldable pub unescape_double_quoted : Text → Text
unescape_double_quoted [] = []
unescape_double_quoted (c ∷ []) = c ∷ []
unescape_double_quoted (c ∷ d ∷ s) =
    let plain = c ∷ unescape_double_quoted (d ∷ s) in
    let rest = unescape_double_quoted s in
    if c == 0x5c then elim (env_escape d) [ none ↦ plain | some e ↦ e ∷ rest ] else plain

abbrev pub last_is : ℕ → Text → Bool
last_is q [] = false
last_is q (c ∷ []) = c == q
last_is q (c ∷ d ∷ s) = last_is q (d ∷ s)

-- At least two characters, and a quotation mark at both ends.
abbrev pub quoted_by : ℕ → Text → Bool
quoted_by q [] = false
quoted_by q (c ∷ s) = (c == q) && last_is q s

-- `slice(1, -1)`
abbrev pub inner : Text → Text
inner value = take (length value - 2) (drop 1 value)

unfoldable pub env_value : Text → Text
unfolding unescape_double_quoted index_of? trim
env_value value =
    if quoted_by b'"' value
    then unescape_double_quoted (inner value)
    else if quoted_by b'\'' value
    then inner value
    else elim (index_of? (text " #") value) [ none ↦ value | some i ↦ trim (take i value) ]

unfoldable pub strip_export : Text → Text
unfolding starts_with
strip_export s = if starts_with (text "export ") s then drop 7 s else s

-- A line that is not empty and no comment.
unfoldable pub parse_assignment : Text → Option (Text × Text)
parse_assignment s = elim (index_of? (text "=") s) [
  | none ↦ none
  | some i ↦ some (trim (take i s), env_value (trim (drop (i + 1) s)))
]

unfoldable pub parse_trimmed : Text → Option (Text × Text)
unfolding strip_export
parse_trimmed s =
    if is_empty s || starts_with (text "#") s then none else parse_assignment (strip_export s)

unfoldable pub parse_env_line : Text → Option (Text × Text)
parse_env_line raw = parse_trimmed (trim raw)

-- The loop of `loadEnvFile`, from the line of number `n`.
unfoldable pub add_lines : ℕ → List Text → List (Text × Text) → Result EnvError (List (Text × Text))
unfolding parse_env_line put
add_lines n [] out = ok out
add_lines n (l ∷ ls) out =
    let skipped = add_lines (n + 1) ls out in
    elim (parse_env_line l) [
      | none ↦ skipped
      | some (key, value) ↦
          let added = add_lines (n + 1) ls (put key value out) in
          if is_empty key then err (no_name n) else added
    ]

-- What reading a file gives.
pub data FileText : Type 0 where
  absent : FileText
  failure : Text → FileText
  content : Text → FileText

unfoldable pub load_env_file : (Text → FileText) → Text → Result EnvError (List (Text × Text))
unfolding split_lines add_lines
load_env_file read path = if is_empty path then ok [] else elim (read path) [
  | absent ↦ ok []
  | failure e ↦ err (unreadable e)
  | content s ↦ add_lines 1 (split_lines s) []
]

abbrev pub or_empty : Option Text → Text
or_empty none = []
or_empty (some v) = v

-- What the file says, or the environment where it is silent.
unfoldable pub lookup_env : List (Text × Text) → (Text → Option Text) → Text → Text
unfolding get
lookup_env vals env key =
    let stored : Text = or_empty (get key vals) in
    if is_empty stored then or_empty (env key) else stored

unfoldable pub credentials_from : List (Text × Text) → (Text → Option Text) → Credentials
unfolding lookup_env
credentials_from vals env =
    let region : Text = lookup_env vals env (text "AWS_REGION") in
    record {
      access_key_id = lookup_env vals env (text "AWS_ACCESS_KEY_ID");
      secret_access_key = lookup_env vals env (text "AWS_SECRET_ACCESS_KEY");
      session_token = lookup_env vals env (text "AWS_SESSION_TOKEN");
      region = if is_empty region then lookup_env vals env (text "AWS_DEFAULT_REGION") else region;
    }

unfoldable pub load_credentials :
    (Text → FileText) → (Text → Option Text) → Text → Result EnvError Credentials
unfolding load_env_file credentials_from
load_credentials read env path = do vals ← load_env_file read path; ok (credentials_from vals env)
