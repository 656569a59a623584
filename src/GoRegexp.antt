-- ===== src/GoRegexp.antt =====
-- server/src/domain/goregexp.ts: patterns in the syntax of Go, turned into JavaScript's. The engine,
-- `new RegExp(body, flags)`, is a parameter: it gives a matcher or throws.
use skills_dashboard.Common.{
  ℕ, zero, suc, Bool, false, ◌&&◌, ◌||◌, not, Option, none, some, [], ◌∷◌, ◌++◌, ltb, ◌==◌,
  if◌then◌else◌, length, drop, Result, ok, err, ◌>>=◌,
}
use skills_dashboard.Text.{Text, text, is_lower, is_upper, is_empty, span, starts_with}

abbrev pub max_pattern_length : ℕ
max_pattern_length = 1_024

pub data RegexError : Type 0 where
  too_long : Text → ℕ → RegexError
  unsupported_flag : Text → ℕ → RegexError
  invalid : Text → RegexError

abbrev is_letter : ℕ → Bool
is_letter c = is_lower c || is_upper c

-- `leadingFlags`: the letters of a `(?…)` at the head of the text, and what follows it.
unfoldable pub leading_flags : Text → Option (Text × Text)
unfolding starts_with span
leading_flags s =
    let found = span is_letter (drop 2 s) in
    if starts_with (text "(?") s && not (is_empty found.0) && starts_with (text ")") found.1
    then some (found.0, drop 1 found.1)
    else none

abbrev is_supported : ℕ → Bool
is_supported c = (c == b'i') || (c == b's') || (c == b'm')

abbrev holds_char : ℕ → Text → Bool
holds_char c [] = false
holds_char c (d ∷ s) = (d == c) || holds_char c s

-- The loop over the letters of one group.
unfoldable pub add_flags : Text → Text → Text → Result RegexError Text
add_flags label [] flags = ok flags
add_flags label (c ∷ cs) flags =
    let more = add_flags label cs (if holds_char c flags then flags else flags ++ c ∷ []) in
    if is_supported c then more else err (unsupported_flag label c)

-- The loop over the groups; every group takes four characters at least, so the length of the pattern
-- is fuel enough.
unfoldable pub take_flags : ℕ → Text → Text → Text → Result RegexError (Text × Text)
unfolding leading_flags add_flags
take_flags zero label body flags = ok (body, flags)
take_flags (suc n) label body flags = elim (leading_flags body) [
  | none ↦ ok (body, flags)
  | some (letters, rest) ↦ elim (add_flags label letters flags) [
    | err e ↦ err e
    | ok more ↦ take_flags n label rest more
  ]
]

-- `body.replace(/\(\?P</g, '(?<')`
unfoldable pub rename_groups : Text → Text
unfolding starts_with
rename_groups [] = []
rename_groups (c ∷ s) =
    let rest = rename_groups s in
    let there = starts_with (text "(?P<") (c ∷ s) in
    if there then text "(?" ++ drop 2 rest else c ∷ rest

module _ {R : Type 0} (engine : Text → Text → Option R) where
  unfoldable pub compile_go_regexp : Text → Text → Result RegexError R
  unfolding take_flags rename_groups
  compile_go_regexp label pattern =
      if ltb max_pattern_length (length pattern) then err (too_long label (length pattern)) else (do
        parts ← take_flags (length pattern) label pattern []
        elim (engine (rename_groups parts.0) parts.1) [
          | none ↦ err (invalid label)
          | some re ↦ ok re
        ])
