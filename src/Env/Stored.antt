-- ===== src/Env/Stored.antt =====
-- server/src/config/env.ts, `loadCredentials` and `validateCredentials`: what a file of credentials
-- gives, and what the environment of the process adds.
use skills_dashboard.Common.{
  ◌≡◌, refl, ap, ◌↔◌, inl, inr, true, false, Option, List, [], ◌∷◌, arith, if◌then◌else◌,
  Bool-cases, All, ok,
}
use skills_dashboard.Text.{Text, text, is_empty, all}
use skills_dashboard.TextMap.{get, put}
use skills_dashboard.Env.{
  Credentials, missing_names, complain, validate_credentials, FileText, content, or_empty,
  lookup_env, credentials_from, load_credentials,
}
use skills_dashboard.Env.Lines.{is_name_char}
use skills_dashboard.Env.Files.{write_file, put_all, Named, load_env_file-put_all}

-- The four assignments of credentials.
abbrev pub assignments : Credentials → List (Text × Text)
assignments c =
    (text "AWS_ACCESS_KEY_ID", c.access_key_id)
    ∷ (text "AWS_SECRET_ACCESS_KEY", c.secret_access_key)
    ∷ (text "AWS_SESSION_TOKEN", c.session_token)
    ∷ (text "AWS_REGION", c.region)
    ∷ []

named : (s : Text) → all is_name_char s ≡ true → All (λ c. is_name_char c ≡ true) s
named [] h = tt
named (c ∷ s) h = (ground arith, named s (ground arith))

assignments-Named : (c : Credentials) → All Named (assignments c)
assignments-Named c = (
  (refl, named (text "AWS_ACCESS_KEY_ID") refl),
  (
    (refl, named (text "AWS_SECRET_ACCESS_KEY") refl),
    ((refl, named (text "AWS_SESSION_TOKEN") refl), ((refl, named (text "AWS_REGION") refl), tt)),
  ),
)

-- What the three required values are.
abbrev pub Complete : Credentials → Type 0
Complete c =
    (is_empty c.access_key_id ≡ false)
    × (is_empty c.secret_access_key ≡ false)
    × (is_empty c.region ≡ false)

-- `validateCredentials` accepts exactly the credentials with a key, a secret and a region.
pub validate_credentials_iff : (c : Credentials) → (validate_credentials c ≡ ok tt) ↔ Complete c
unfolding validate_credentials missing_names
validate_credentials_iff c = (
  λ h. elim (Bool-cases (is_empty c.access_key_id)) [
    | inl a ↦ cc (rw (validate_credentials, missing_names, a, complain) at h)
    | inr a ↦ elim (Bool-cases (is_empty c.secret_access_key)) [
      | inl s ↦ cc (rw (validate_credentials, missing_names, a, s, complain) at h)
      | inr s ↦ elim (Bool-cases (is_empty c.region)) [
        | inl r ↦ cc (rw (validate_credentials, missing_names, a, s, r, complain) at h)
        | inr r ↦ (a, s, r)
      ]
    ]
  ],
  λ (a, s, r). rw (validate_credentials, missing_names, a, s, r, complain) refl,
)

-- The credentials with the session token of the environment, if they have none.
abbrev pub with_token : (Text → Option Text) → Credentials → Credentials
with_token env c = record c {
  session_token =
      if is_empty c.session_token
      then or_empty (env (text "AWS_SESSION_TOKEN"))
      else c.session_token;
}

from_assignments :
    (c : Credentials) (env : Text → Option Text)
    → Complete c
    → credentials_from (put_all (assignments c) []) env ≡ with_token env c
unfolding credentials_from lookup_env put_all get put
from_assignments c env (a, s, r) = rw (credentials_from, lookup_env, a, s, r) (rw r refl)

-- Credentials that are accepted and stand in a file, one line for each value between double quotation
-- marks, are read back from it exactly, whatever characters they hold and whatever the environment of
-- the process says, but for a session token: where the file has none, the one of the environment is
-- taken.
pub load_credentials-write_file :
    (read : Text → FileText) (env : Text → Option Text) (path : Text) (c : Credentials)
    → is_empty path ≡ false
    → read path ≡ content (write_file (assignments c))
    → validate_credentials c ≡ ok tt
    → load_credentials read env path ≡ ok (with_token env c)
unfolding load_credentials
load_credentials-write_file read env path c e found valid =
    rw
      (
        load_credentials,
        load_env_file-put_all read path (assignments c) e found (assignments-Named c),
      )
      (ap ok (from_assignments c env ((validate_credentials_iff c).0 valid)))
