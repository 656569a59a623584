-- ===== src/Query/Headers.antt =====
-- server/src/domain/query.ts, `headerParse`: the pattern that it puts into a query ends where it should.
use skills_dashboard.Common.{
  ℕ, ◌≡◌, refl, sym, ap, ◌∙◌, ◌≢◌, inl, inr, Bool, true, false, ◌&&◌, not, [], ◌∷◌, ◌++◌,
  append_assoc, arith, Bool-cases, All, All-append, ok,
}
use skills_dashboard.Text.{Text, text, is_empty, all}
use skills_dashboard.Config.{is_header_char, is_queryable_header}
use skills_dashboard.Query.{specials, has_char, meta_char, quote_meta, header_parse}
use mathlib.Core.List.{flat_map}

abbrev pub NotSlash : ℕ → Type 0
NotSlash c = c ≢ b'/'

header_char-NotSlash : (c : ℕ) → is_header_char c ≡ true → NotSlash c
header_char-NotSlash c h same = ground arith

meta_char-NotSlash : (c : ℕ) → NotSlash c → All NotSlash (meta_char c)
unfolding meta_char
meta_char-NotSlash c h = elim (Bool-cases (has_char c specials)) [
  | inl b ↦ rw b ((λ e. omega arith), (h, tt))
  | inr b ↦ rw b (h, tt)
]

both : (a b : Bool) → (a && b) ≡ true → (a ≡ true) × (b ≡ true)
both true b h = (refl, h)
both false b h = cc

quote_meta-NotSlash : (s : Text) → all is_header_char s ≡ true → All NotSlash (quote_meta s)
unfolding quote_meta flat_map
quote_meta-NotSlash [] h = tt
quote_meta-NotSlash (c ∷ s) h =
    let (allowed, rest) = both (is_header_char c) (all is_header_char s) h in
    All-append NotSlash (meta_char c) (quote_meta s)
      (meta_char-NotSlash c (header_char-NotSlash c allowed)) (quote_meta-NotSlash s rest)

fixed_NotSlash : (s : Text) → has_char b'/' s ≡ false → All NotSlash s
fixed_NotSlash [] h = tt
fixed_NotSlash (c ∷ s) h = (λ e. ground arith, fixed_NotSlash s (ground arith))

-- The pattern between its slashes, for a header and the name of the capture.
abbrev pub pattern : Text → Text → Text
pattern name alias =
    text "\"name\":\"(?i)"
    ++ (quote_meta name ++ (text "\",\"value\":\"(?<" ++ (alias ++ text ">[^\"]*)\"")))

pattern-NotSlash :
    (name alias : Text)
    → all is_header_char name ≡ true
    → All NotSlash alias
    → All NotSlash (pattern name alias)
pattern-NotSlash name alias h a =
    let start = fixed_NotSlash (text "\"name\":\"(?i)") refl in
    let middle = fixed_NotSlash (text "\",\"value\":\"(?<") refl in
    let end = fixed_NotSlash (text ">[^\"]*)\"") refl in
    All-append NotSlash (text "\"name\":\"(?i)")
      (quote_meta name ++ (text "\",\"value\":\"(?<" ++ (alias ++ text ">[^\"]*)\""))) start
      (All-append NotSlash (quote_meta name)
        (text "\",\"value\":\"(?<" ++ (alias ++ text ">[^\"]*)\"")) (quote_meta-NotSlash name h)
        (All-append NotSlash (text "\",\"value\":\"(?<") (alias ++ text ">[^\"]*)\"") middle
          (All-append NotSlash alias (text ">[^\"]*)\"") a end)))

pattern_end :
    (name alias : Text)
    → pattern name alias ++ (b'/' ∷ [])
      ≡ text "\"name\":\"(?i)"
        ++ (quote_meta name ++ (text "\",\"value\":\"(?<" ++ (alias ++ text ">[^\"]*)\"/")))
pattern_end name alias =
    ap (λ t. text "\"name\":\"(?i)" ++ t)
      (append_assoc (quote_meta name) (text "\",\"value\":\"(?<" ++ (alias ++ text ">[^\"]*)\""))
          (b'/' ∷ [])
        ∙ ap (λ t. quote_meta name ++ (text "\",\"value\":\"(?<" ++ t))
            (append_assoc alias (text ">[^\"]*)\"") (b'/' ∷ [])))

made :
    (name alias command : Text)
    → is_queryable_header name ≡ true
    → header_parse name alias ≡ ok command
    → text "parse @message /\"name\":\"(?i)"
        ++ (quote_meta name ++ (text "\",\"value\":\"(?<" ++ (alias ++ text ">[^\"]*)\"/")))
      ≡ command
unfolding header_parse
made name alias command b h = cc (rw b at h)

-- A command with one pattern, and no slash but the two around it.
abbrev pub OnePattern : Text → Text → Type 0
OnePattern command body =
    (command ≡ text "parse @message /" ++ (body ++ (b'/' ∷ []))) × All NotSlash body

-- For a name of a capture with no slash in it, the command for a header that is accepted has one pattern,
-- which the two slashes around it delimit: no name that an operator configures can end it early.
pub header_parse-OnePattern :
    (name alias command : Text)
    → All NotSlash alias
    → header_parse name alias ≡ ok command
    → OnePattern command (pattern name alias)
unfolding header_parse is_queryable_header
header_parse-OnePattern name alias command a h = elim (Bool-cases (is_queryable_header name)) [
  | inl b ↦ (
    sym (made name alias command b h)
        ∙ ap (λ t. text "parse @message /" ++ t) (sym (pattern_end name alias)),
    pattern-NotSlash name alias (both (not (is_empty name)) (all is_header_char name) b).1 a,
  )
  | inr b ↦ cc (h, b)
]
