-- ===== src/Env/Lines.antt =====
-- server/src/config/env.ts, `parseEnvLine`: a line that assigns a quoted value is read back.
use skills_dashboard.Common.{
  ℕ, suc, ◌+◌, ◌-◌, ◌≡◌, refl, sym, ap, ◌∙◌, subst, Bool, true, false, ◌||◌, some, [], ◌∷◌, ◌++◌,
  append_assoc, arith, ◌==◌, if◌then◌else◌, length, take, drop, length-append, All, All-append,
}
use skills_dashboard.Text.{
  Text, text, is_empty, is_space, is_upper, is_digit, starts_with, index_of?, trim_start, trim,
}
use skills_dashboard.Env.{
  unescape_double_quoted, last_is, inner, env_value, strip_export, parse_assignment, parse_trimmed,
  parse_env_line,
}
use mathlib.Core.List.{flat_map, reverse, reverse-cons, reverse-append, reverse-reverse}

-- How a value is written between double quotation marks.
unfoldable pub write_char : ℕ → Text
write_char c =
    if c == 0x5c
    then 0x5c ∷ 0x5c ∷ []
    else if c == b'"'
    then 0x5c ∷ b'"' ∷ []
    else if c == 0x0a
    then 0x5c ∷ b'n' ∷ []
    else c ∷ []

unfoldable pub write_value : Text → Text
unfolding write_char flat_map
write_value v = flat_map write_char v

-- A line that assigns a value to a name.
unfoldable pub write_line : Text → Text → Text
unfolding write_value
write_line name v = name ++ (b'=' ∷ b'"' ∷ (write_value v ++ (b'"' ∷ [])))

abbrev pub is_name_char : ℕ → Bool
is_name_char c = is_upper c || is_digit c || (c == b'_')

-- Capital letters, digits and underscores, at least one, as in `AWS_REGION`.
abbrev pub IsName : Text → Type 0
IsName name = (is_empty name ≡ false) × All (λ c. is_name_char c ≡ true) name

unescape-write_char :
    (c : ℕ) (s : Text) → unescape_double_quoted (write_char c ++ s) ≡ c ∷ unescape_double_quoted s
unfolding unescape_double_quoted write_char
unescape-write_char c [] = ground arith
unescape-write_char c (d ∷ s) = ground arith

pub unescape-write_value : (v : Text) → unescape_double_quoted (write_value v) ≡ v
unfolding unescape_double_quoted write_value flat_map
unescape-write_value [] = refl
unescape-write_value (c ∷ v) =
    unescape-write_char c (write_value v) ∙ ap (λ s. c ∷ s) (unescape-write_value v)

abbrev NotSpace : ℕ → Type 0
NotSpace c = is_space c ≡ false

All-reverse : (P : ℕ → Type 0) (s : Text) → All P s → All P (reverse s)
All-reverse P [] h = tt
All-reverse P (c ∷ s) (h, hs) =
    subst (All P) (sym (reverse-cons c s))
      (All-append P (reverse s) (c ∷ []) (All-reverse P s hs) (h, tt))

trim_start-All : (s : Text) → All NotSpace s → trim_start s ≡ s
unfolding trim_start
trim_start-All [] h = refl
trim_start-All (c ∷ s) (h, _) = rw h refl

trim-All : (s : Text) → All NotSpace s → trim s ≡ s
unfolding trim
trim-All s h =
    rw (trim_start-All s h, trim_start-All (reverse s) (All-reverse NotSpace s h))
      (reverse-reverse s)

trim_start_first : (c : ℕ) (s : Text) → NotSpace c → trim_start (c ∷ s) ≡ c ∷ s
unfolding trim_start
trim_start_first c s h = rw h refl

-- Only the ends of a text matter.
trim_ends :
    (c d : ℕ) (m : Text)
    → NotSpace c
    → NotSpace d
    → trim (c ∷ (m ++ (d ∷ []))) ≡ c ∷ (m ++ (d ∷ []))
unfolding trim
trim_ends c d m hc hd =
    let s : Text = c ∷ (m ++ (d ∷ [])) in
    let turned : reverse s ≡ d ∷ reverse (c ∷ m) = reverse-append (c ∷ m) (d ∷ []) in
    rw (trim_start_first c (m ++ (d ∷ [])) hc) (
      ap (λ t. reverse (trim_start t)) turned
      ∙ ap reverse (trim_start_first d (reverse (c ∷ m)) hd ∙ sym turned)
      ∙ reverse-reverse s)

index-name :
    (name rest : Text)
    → All (λ c. is_name_char c ≡ true) name
    → index_of? (text "=") (name ++ (b'=' ∷ rest)) ≡ some (length name)
unfolding index_of? starts_with
index-name [] rest h = refl
index-name (c ∷ s) rest (h, hs) =
    let other : (b'=' == c) ≡ false = ground arith in rw (other, index-name s rest hs) refl

take-name : (name rest : Text) → take (length name) (name ++ rest) ≡ name
take-name [] rest = refl
take-name (c ∷ s) rest = ap (λ t. c ∷ t) (take-name s rest)

drop-name :
    (name : Text) (c : ℕ) (rest : Text) → drop (suc (length name)) (name ++ (c ∷ rest)) ≡ rest
drop-name [] c rest = refl
drop-name (d ∷ s) c rest = drop-name s c rest

last_is-append : (q : ℕ) (w : Text) → last_is q (w ++ (q ∷ [])) ≡ true
last_is-append q [] = ground arith
last_is-append q (c ∷ []) = last_is-append q []
last_is-append q (c ∷ d ∷ w) = last_is-append q (d ∷ w)

inner-append : (q r : ℕ) (w : Text) → inner (q ∷ (w ++ (r ∷ []))) ≡ w
inner-append q r w =
    let size : suc (length (w ++ (r ∷ []))) - 2 ≡ length w =
      omega (arith, length-append w (r ∷ [])) in
    rw size (take-name w (r ∷ []))

env_value_lem : (v : Text) → env_value (b'"' ∷ (write_value v ++ (b'"' ∷ []))) ≡ v
unfolding env_value
env_value_lem v =
    rw (last_is-append b'"' (write_value v))
      (ap unescape_double_quoted (inner-append b'"' b'"' (write_value v)) ∙ unescape-write_value v)

name-NotSpace : (s : Text) → All (λ c. is_name_char c ≡ true) s → All NotSpace s
name-NotSpace [] h = tt
name-NotSpace (c ∷ s) (h, hs) = (ground arith, name-NotSpace s hs)

parse_assignment_lem :
    (name v : Text)
    → All (λ c. is_name_char c ≡ true) name
    → parse_assignment (write_line name v) ≡ some (name, v)
unfolding parse_assignment write_line
parse_assignment_lem name v h =
    let rest : Text = b'"' ∷ (write_value v ++ (b'"' ∷ [])) in
    let one_more : length name + 1 ≡ suc (length name) = omega arith in
    let key : trim (take (length name) (name ++ (b'=' ∷ rest))) ≡ name =
      ap trim (take-name name (b'=' ∷ rest)) ∙ trim-All name (name-NotSpace name h) in
    let behind : drop (length name + 1) (name ++ (b'=' ∷ rest)) ≡ rest =
      rw one_more (drop-name name b'=' rest) in
    let value : env_value (trim (drop (length name + 1) (name ++ (b'=' ∷ rest)))) ≡ v =
      ap (λ t. env_value (trim t)) behind
      ∙ ap env_value (trim_ends b'"' b'"' (write_value v) refl refl)
      ∙ env_value_lem v in
    rw (parse_assignment, index-name name rest h) (λ i. some (key i, value i))

-- A line that begins with the first character of a name is neither empty nor a comment, and has no
-- `export` before the name.
parse_trimmed_name :
    (c : ℕ) (s : Text) → is_name_char c ≡ true → parse_trimmed (c ∷ s) ≡ parse_assignment (c ∷ s)
unfolding parse_trimmed strip_export starts_with
parse_trimmed_name c s h =
    let mark : (b'#' == c) ≡ false = ground arith in
    let letter : (b'e' == c) ≡ false = ground arith in rw (mark, letter) refl

trim-write_line :
    (c : ℕ) (s v : Text)
    → is_name_char c ≡ true
    → trim (write_line (c ∷ s) v) ≡ write_line (c ∷ s) v
unfolding write_line
trim-write_line c s v h =
    let before : Text = s ++ (b'=' ∷ b'"' ∷ write_value v) in
    let whole : c ∷ (before ++ (b'"' ∷ [])) ≡ write_line (c ∷ s) v =
      ap (λ t. c ∷ t) (append_assoc s (b'=' ∷ b'"' ∷ write_value v) (b'"' ∷ [])) in
    subst (λ t. trim t ≡ t) whole (trim_ends c b'"' before (ground arith) refl)

-- A line that assigns a value between double quotation marks is read as its name and its value,
-- whatever the value is: quotation marks, backslashes, line ends, `#` and white space at its ends
-- included.
pub parse_env_line-write_line :
    (name v : Text) → IsName name → parse_env_line (write_line name v) ≡ some (name, v)
unfolding parse_env_line write_line
parse_env_line-write_line [] v (e, _) = cc
parse_env_line-write_line (c ∷ s) v (_, (h, hs)) =
    ap parse_trimmed (trim-write_line c s v h)
    ∙ parse_trimmed_name c (s ++ (b'=' ∷ b'"' ∷ (write_value v ++ (b'"' ∷ [])))) h
    ∙ parse_assignment_lem (c ∷ s) v (h, hs)
