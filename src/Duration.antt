-- ===== src/Duration.antt =====
-- server/src/domain/logfmt.ts, `parseGoDuration`: Go duration strings such as `1h2m3.5s`.
use skills_dashboard.Common.{
  ℕ, zero, suc, ◌+◌, ◌*◌, ◌^◌, Bool, ◌&&◌, Option, none, some, List, [], ◌∷◌, ◌++◌, ltb,
  if◌then◌else◌, length, drop,
}
use skills_dashboard.Text.{Text, text, is_empty, starts_with, span, trim, is_digit}
use skills_dashboard.Text.Decimal.{read}

-- A non-negative decimal fraction, `digits / 10 ^ places`. The source holds a double; here the
-- value is exact.
pub record Fraction : Type 0 where
  pub digits : ℕ
  pub places : ℕ

abbrev pub plus : Fraction → Fraction → Fraction
plus a b = record {
  digits = a.digits * 10 ^ b.places + b.digits * 10 ^ a.places;
  places = a.places + b.places;
}

-- `a > n` for a whole number n.
abbrev pub exceeds : Fraction → ℕ → Bool
exceeds a n = ltb (n * 10 ^ a.places) a.digits

-- `durationUnits`, in the order in which `durationPart` tries the spellings.
abbrev pub duration_units : List (Text × ℕ)
duration_units =
    (text "ns", 1)
    ∷ (text "us", 1_000)
    ∷ (text "µs", 1_000)
    ∷ (text "μs", 1_000)
    ∷ (text "ms", 1_000_000)
    ∷ (text "s", 1_000_000_000)
    ∷ (text "m", 60_000_000_000)
    ∷ (text "h", 3_600_000_000_000)
    ∷ []

-- The unit at the head of the text: its scale, and what follows.
take_unit : List (Text × ℕ) → Text → Option (ℕ × Text)
unfolding starts_with
take_unit [] s = none
take_unit ((name, scale) ∷ units) s =
    if starts_with name s then some (scale, drop (length name) s) else take_unit units s

-- `(\d+(?:\.\d*)?|\.\d+)` at the head of the text: the number, and what follows.
take_number : Text → Option (Fraction × Text)
unfolding span read
take_number s =
    let whole = span is_digit s in
    let part = span is_digit (drop 1 whole.1) in
    let fraction : Fraction = record {
      digits = read (whole.0 ++ part.0);
      places = length part.0;
    } in
    let plain : Fraction = record { digits = read whole.0; places = 0 } in
    if starts_with (text ".") whole.1
    then (if is_empty whole.0 && is_empty part.0 then none else some (fraction, part.1))
    else (if is_empty whole.0 then none else some (plain, whole.1))

-- One match of `durationPart` at the place where the last one ended.
take_part : Text → Option (Fraction × Text)
unfolding take_number take_unit
take_part s = elim (take_number s) [
  | none ↦ none
  | some (number, rest) ↦ elim (take_unit duration_units rest) [
    | none ↦ none
    | some (scale, rest') ↦
        some (record { digits = number.digits * scale; places = number.places }, rest')
  ]
]

-- The loop: the fuel is the length of the text, and every part takes a character at least.
take_parts : ℕ → Fraction → Text → Option Fraction
unfolding take_part
take_parts fuel total [] = some total
take_parts zero total (c ∷ s) = none
take_parts (suc fuel) total (c ∷ s) = elim (take_part (c ∷ s)) [
  | none ↦ none
  | some (value, rest) ↦ take_parts fuel (plus total value) rest
]

-- The duration in nanoseconds, or `none` for `null`.
unfoldable pub parse_go_duration : Text → Option Fraction
unfolding trim take_parts
parse_go_duration raw =
    let t = trim raw in
    if is_empty t then none else take_parts (length t) (record { digits = 0; places = 0 }) t
