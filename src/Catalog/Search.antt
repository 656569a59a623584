-- ===== src/Catalog/Search.antt =====
-- server/src/domain/catalog.ts, `searchExpression` and `queryID`: the texts that a metric request
-- sends to CloudWatch.
use skills_dashboard.Common.{
  ℕ, ◌+◌, ◌-◌, ◌/◌, ◌%◌, Bool, true, false, ◌&&◌, ◌||◌, not, Option, none, some, List, [], ◌∷◌,
  ◌++◌, ltb, leb, ◌==◌, if◌then◌else◌, Result, ok, err, ◌>>=◌,
}
use mathlib.Core.List.{foldr}
use skills_dashboard.Text.{Text, text, text_eq, is_empty, is_alnum, is_lower, all, join}
use skills_dashboard.Text.Decimal.{show}
use skills_dashboard.Catalog.{MetricSpec}

-- `searchValueRe`: a character of it, and the whole.
abbrev pub is_search_char : ℕ → Bool
is_search_char c =
    is_alnum c
    || (c == b' ')
    || (c == b'.')
    || (c == b'_')
    || (c == b':')
    || (c == b'/')
    || (c == b'+')
    || (c == b'=')
    || (c == b'@')
    || (c == b'-')

abbrev pub is_search_value : Text → Bool
is_search_value s = not (is_empty s) && all is_search_char s

-- A hexadecimal digit, and `\u` with four of them.
abbrev hex_digit : ℕ → ℕ
hex_digit d = if ltb d 10 then b'0' + d else b'a' + (d - 10)

abbrev unicode_escape : ℕ → Text
unicode_escape c =
    text "\\u"
    ++ hex_digit (c / 4096)
      ∷ hex_digit (c / 256 % 16)
      ∷ hex_digit (c / 16 % 16)
      ∷ hex_digit (c % 16)
      ∷ []

abbrev pub is_high : ℕ → Bool
is_high c = leb 0xd800 c && leb c 0xdbff

abbrev pub is_low : ℕ → Bool
is_low c = leb 0xdc00 c && leb c 0xdfff

-- One code unit in `JSON.stringify`, surrogates aside.
abbrev pub json_char : ℕ → Text
json_char c =
    if c == b'"'
    then text "\\\""
    else (if c == b'\\'
        then text "\\\\"
        else (if c == 8
            then text "\\b"
            else (if c == 9
                then text "\\t"
                else (if c == 10
                    then text "\\n"
                    else (if c == 12
                        then text "\\f"
                        else (if c == 13
                            then text "\\r"
                            else (if ltb c 32 then unicode_escape c else c ∷ [])))))))

-- The inside of `JSON.stringify`: a pair of surrogates stands as it is, a lone one is escaped.
unfoldable pub json_chars : Text → Text
json_chars [] = []
json_chars (c ∷ []) = if is_high c || is_low c then unicode_escape c else json_char c
json_chars (c ∷ d ∷ s) =
    let paired = json_chars s in
    let rest = json_chars (d ∷ s) in
    if is_high c && is_low d
    then c ∷ d ∷ paired
    else (if is_high c || is_low c then unicode_escape c ++ rest else json_char c ++ rest)

-- `JSON.stringify` of a string.
unfoldable pub json_quote : Text → Text
unfolding json_chars
json_quote s = b'"' ∷ json_chars s ++ text "\""

-- The order in which `sort` puts strings: by code units.
abbrev pub text_leb : Text → Text → Bool
text_leb [] t = true
text_leb (x ∷ s) [] = false
text_leb (x ∷ s) (y ∷ t) = ltb x y || ((x == y) && text_leb s t)

unfoldable pub insert : Text → List Text → List Text
insert k [] = k ∷ []
insert k (j ∷ js) = let rest = insert k js in if text_leb k j then k ∷ j ∷ js else j ∷ rest

-- `keys.sort()`
unfoldable pub sort : List Text → List Text
unfolding insert
sort ks = foldr insert [] ks

-- The object `filters`, as the list of its fields: `Object.keys(filters)` and `filters[k]`.
abbrev pub keys : List (Text × Text) → List Text
keys [] = []
keys ((k, v) ∷ fs) = k ∷ keys fs

abbrev pub field : Text → List (Text × Text) → Option Text
field k [] = none
field k ((j, v) ∷ fs) = if text_eq j k then some v else field k fs

pub data SearchError : Type 0 where
  missing_name : Text → SearchError
  not_embeddable : Text → Text → SearchError

-- The body of the loop over the keys: the terms that it pushes.
unfoldable pub filter_term : Text → Option Text → Result SearchError (List Text)
unfolding json_quote
filter_term k none = ok []
filter_term k (some v) =
    if is_empty v
    then ok []
    else (if is_search_value k && is_search_value v
        then ok ((k ++ text "=" ++ json_quote v) ∷ [])
        else err (not_embeddable k v))

unfoldable pub filter_terms : List (Text × Text) → List Text → Result SearchError (List Text)
unfolding filter_term
filter_terms filters [] = ok []
filter_terms filters (k ∷ ks) = do
  term ← filter_term k (field k filters)
  rest ← filter_terms filters ks
  ok (term ++ rest)

-- The template at the end of `searchExpression`.
unfoldable pub expression : MetricSpec → List Text → ℕ → Text
unfolding join show json_quote
expression spec terms period =
    text "SEARCH('{"
    ++ join (text ",") (spec.namespace ∷ spec.dimensions)
    ++ text "} "
    ++ join (text " ") ((text "MetricName=" ++ json_quote spec.metric_name) ∷ terms)
    ++ text "', '"
    ++ spec.stat
    ++ text "', "
    ++ show period
    ++ text ")"

unfoldable pub search_expression : MetricSpec → List (Text × Text) → ℕ → Result SearchError Text
unfolding sort filter_terms expression
search_expression spec filters period =
    if is_empty spec.namespace || is_empty spec.metric_name
    then err (missing_name spec.key)
    else (do terms ← filter_terms filters (sort (keys filters)); ok (expression spec terms period))

-- `queryIDRe`
abbrev pub is_id_char : ℕ → Bool
is_id_char c = is_alnum c || (c == b'_')

abbrev pub is_query_id : Text → Bool
is_query_id [] = false
is_query_id (c ∷ s) = is_lower c && all is_id_char s

-- The loop of `queryID`, which goes by code points: a pair of surrogates is one of them.
unfoldable pub id_chars : Text → Text
id_chars [] = []
id_chars (c ∷ []) = (if is_alnum c then c else b'_') ∷ []
id_chars (c ∷ d ∷ s) =
    let paired = id_chars s in
    let rest = id_chars (d ∷ s) in
    if is_high c && is_low d then b'_' ∷ paired else (if is_alnum c then c else b'_') ∷ rest

unfoldable pub query_id : Text → Text
unfolding id_chars
query_id key = let id = b'q' ∷ id_chars key in if is_query_id id then id else text "q"
