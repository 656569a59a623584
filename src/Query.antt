-- ===== src/Query.antt =====
-- server/src/domain/query.ts: field references, string literals and patterns of a log query, and the
-- texts that `LogQueries` contributes to each query. The children are the queries themselves and
-- what is proved of them.
pub mod Preamble
pub mod Pods
pub mod Waf
pub mod Fields
pub mod Quoting
pub mod Accepted
pub mod Headers
use skills_dashboard.Common.{
  ℕ, zero, suc, ◌+◌, ◌-◌, ◌*◌, ◌/◌, ◌%◌, ◌^◌, ◌≤◌, ◌<◌, min, ◌≡◌, refl, sym, ap, ◌∙◌, subst, ◌≢◌,
  ◌↔◌, ◌⊎◌, inl, inr, Bool, true, false, ◌&&◌, ◌||◌, not, Option, none, some, List, [], ◌∷◌, ◌++◌,
  map, append-nil, append_assoc, arith, ltb, leb, ◌==◌, if◌then◌else◌, Bool-cases, Option-cases,
  length, get_elem?, set, take, drop, replicate, length-append, length-map, length-replicate,
  Listed, All, All-Listed, All-append, Result, ok, err, ◌>>=◌, ◌>>◌, >>=-eq-ok, Result-cases,
}
use skills_dashboard.Text.{Text, text, is_empty, all, is_digit, is_lower, is_upper, is_alnum, join}
use skills_dashboard.Text.Decimal.{show}
use skills_dashboard.LogFormat.{LogFormat}
use skills_dashboard.Config.{is_queryable_header}
use mathlib.Core.List.{flat_map}

pub data QueryError : Type 0 where
  empty_field not_configured : QueryError
  invalid_field : Text → QueryError
  invalid_header : Text → QueryError
  in_field : Text → QueryError → QueryError

abbrev pub is_ident_start : ℕ → Bool
is_ident_start c = is_lower c || is_upper c || (c == b'_')

abbrev pub is_ident_char : ℕ → Bool
is_ident_char c = is_alnum c || (c == b'_')

-- `fieldRe` after the `@`; the first argument says that an identifier begins here.
unfoldable pub idents : Bool → Text → Bool
idents begins [] = not begins
idents begins (c ∷ s) =
    (if begins then is_ident_start c else is_ident_char c || (c == b'.'))
    && idents (not begins && (c == b'.')) s

-- `fieldRe.test`
unfoldable pub is_field : Text → Bool
unfolding idents
is_field [] = false
is_field (c ∷ s) = if c == b'@' then idents true s else idents true (c ∷ s)

unfoldable pub field : Text → Result QueryError Text
unfolding is_field
field name = do
  if is_empty name then err empty_field else ok tt
  if is_field name then ok name else err (invalid_field name)

abbrev pub backslash : ℕ
backslash = 0x5c

-- `quoteEscapes[ch] ?? ch`
unfoldable pub quote_char : ℕ → Text
quote_char c =
    if c == backslash
    then backslash ∷ backslash ∷ []
    else if c == b'\''
    then backslash ∷ b'\'' ∷ []
    else if c == 0x0a
    then backslash ∷ b'n' ∷ []
    else if c == 0x0d
    then backslash ∷ b'r' ∷ []
    else c ∷ []

unfoldable pub quote : Text → Text
unfolding quote_char flat_map
quote s = b'\'' ∷ (flat_map quote_char s ++ (b'\'' ∷ []))

abbrev pub specials : Text
specials = text ".+*?()|[]{}^$\\"

abbrev pub has_char : ℕ → Text → Bool
has_char c [] = false
has_char c (d ∷ s) = (d == c) || has_char c s

-- What one round of `quoteMeta` appends.
unfoldable pub meta_char : ℕ → Text
meta_char c = if has_char c specials then backslash ∷ c ∷ [] else c ∷ []

unfoldable pub quote_meta : Text → Text
unfolding meta_char flat_map
quote_meta s = flat_map meta_char s

unfoldable pub header_parse : Text → Text → Result QueryError Text
unfolding is_queryable_header quote_meta
header_parse name alias =
    if is_queryable_header name
    then ok (
        text "parse @message /\"name\":\"(?i)"
        ++ (quote_meta name ++ (text "\",\"value\":\"(?<" ++ (alias ++ text ">[^\"]*)\"/"))))
    else err (invalid_header name)

-- The filters that `LogQueries` adds.
unfoldable pub namespace_filter : LogFormat → Text
unfolding quote
namespace_filter f =
    if is_empty f.namespace
    then []
    else text "| filter kubernetes.namespace_name = " ++ (quote f.namespace ++ text "\n")

unfoldable pub quoted_paths : List Text → List Text
unfolding quote
quoted_paths [] = []
quoted_paths (p ∷ ps) = let rest = quoted_paths ps in if is_empty p then rest else quote p ∷ rest

-- The filter for a list of literals.
unfoldable pub not_in_paths : List Text → Text
unfolding join
not_in_paths [] = []
not_in_paths (p ∷ ps) =
    text "| filter not ispresent(path) or path not in ["
    ++ (join (text ", ") (p ∷ ps) ++ text "]\n")

unfoldable pub probes : LogFormat → Text
unfolding not_in_paths quoted_paths
probes f = not_in_paths (quoted_paths f.exclude_paths)

abbrev pub level_filter : Text
level_filter =
    text "| fields tolower(rawLevel) as lvl\n"
    ++ (text "| filter lvl in ['error', 'err', 'fatal', 'panic', 'warn', 'warning']\n"
        ++ (text
              "    or (lvl = '' and not ispresent(status) and dashboardMessage like /(?i)\\b(error|fatal|panic|warn|warning|oomkilled)\\b/)"
            ++ (text "\n"
                ++ (text
                      "| fields if(lvl in ['warn', 'warning'] or (lvl = '' and not ispresent(status) and dashboardMessage like /(?i)\\b(warn|warning)\\b/), 'warn', 'error') as level"
                    ++ text "\n"))))

unfoldable pub show_all : List ℕ → List Text
unfolding show
show_all [] = []
show_all (n ∷ ns) = show n ∷ show_all ns

unfoldable pub not_in_statuses : Text → List ℕ → Text
unfolding show_all join
not_in_statuses name [] = text "1 = 1"
not_in_statuses name (n ∷ ns) =
    name ++ (text " not in [" ++ (join (text ", ") (show_all (n ∷ ns)) ++ text "]"))

unfoldable pub processed_field : LogFormat → Text → Result QueryError Text
unfolding field
processed_field f name = do
  if is_empty name then err not_configured else ok tt
  if is_empty f.processed_field then field name else field (f.processed_field ++ (b'.' ∷ name))
