-- ===== src/LogPanels/Rows.antt =====
-- server/src/http/panels-logs.ts: the times and the numbers in the rows of a result.
use skills_dashboard.Common.{ℤ}
use skills_dashboard.Common.{
  ℕ, Bool, true, false, ◌&&◌, ◌||◌, not, Option, none, some, [], ◌∷◌, ◌++◌, ◌==◌, if◌then◌else◌,
  take,
}
use skills_dashboard.Text.{Text, text, is_empty, is_digit, span, trim}
use skills_dashboard.Window.{Window, index_of}
use skills_dashboard.LogPanels.{Platform, LogRow, cell}

abbrev drop_sign : Text → Text
drop_sign [] = []
drop_sign (c ∷ s) = if (c == b'+') || (c == b'-') then s else c ∷ s

-- `(?:[eE][+-]?\d+)?$`
unfoldable pub is_exponent : Text → Bool
unfolding span
is_exponent [] = true
is_exponent (c ∷ s) =
    ((c == b'e') || (c == b'E'))
    && not (is_empty (span is_digit (drop_sign s)).0)
    && is_empty (span is_digit (drop_sign s)).1

-- The digits after a point, with what follows them; `needed` says that there has to be one.
unfoldable pub is_fraction : Bool → Text → Bool
unfolding span is_exponent
is_fraction needed s =
    not (needed && is_empty (span is_digit s).0) && is_exponent (span is_digit s).1

-- What follows the digits before the point.
unfoldable pub is_decimal_rest : Bool → Text → Bool
unfolding is_fraction is_exponent
is_decimal_rest no_digits [] = not no_digits
is_decimal_rest no_digits (c ∷ s) =
    if c == b'.' then is_fraction no_digits s else not no_digits && is_exponent (c ∷ s)

-- `decimalRe.test`
unfoldable pub is_decimal : Text → Bool
unfolding span is_decimal_rest
is_decimal s =
    let digits = span is_digit (drop_sign s) in is_decimal_rest (is_empty digits.0) digits.1

-- A text of a shape, in which `d` stands for a digit; what follows it.
unfoldable pub eat : Text → Text → Option Text
eat [] s = some s
eat (q ∷ qs) [] = none
eat (q ∷ qs) (c ∷ s) = if (if q == b'd' then is_digit c else c == q) then eat qs s else none

-- `(\.\d+)?`: the fraction, and what follows it.
unfoldable pub take_fraction : Text → Text × Text
unfolding span
take_fraction [] = ([], [])
take_fraction (c ∷ s) =
    if (c == b'.') && not (is_empty (span is_digit s).0)
    then (c ∷ (span is_digit s).0, (span is_digit s).1)
    else ([], c ∷ s)

abbrev ends : Option Text → Bool
ends none = false
ends (some s) = is_empty s

-- `(Z|[+-]\d{2}:?\d{2})?$`, with `Z` where it is missing.
unfoldable pub zone : Text → Option Text
unfolding eat
zone [] = some (text "Z")
zone (c ∷ s) =
    if (c == b'Z') && is_empty s
    then some (c ∷ s)
    else if ((c == b'+') || (c == b'-'))
        && (ends (eat (text "dd:dd") s) || ends (eat (text "dddd") s))
    then some (c ∷ s)
    else none

-- The time after the separator.
unfoldable pub iso_time : Text → Option Text
unfolding eat take_fraction zone
iso_time s = elim (eat (text "dd:dd:dd") s) [
  | none ↦ none
  | some rest ↦ elim (zone (take_fraction rest).1) [
    | none ↦ none
    | some z ↦ some (take 8 s ++ ((take_fraction rest).0 ++ z))
  ]
]

abbrev after_day : Text → Text → Option Text
after_day day [] = none
after_day day (c ∷ s) =
    if (c == b'T') || (c == b' ')
    then elim (iso_time s) [ none ↦ none | some t ↦ some (day ++ (b'T' ∷ t)) ]
    else none

-- `insightsTimeRe`, with the text that is handed to `Date`.
unfoldable pub iso_of : Text → Option Text
unfolding eat iso_time
iso_of s = elim (eat (text "dddd-dd-dd") s) [ none ↦ none | some rest ↦ after_day (take 10 s) rest ]

module _ {V : Type 0} where
  unfoldable pub row_float : Platform V → LogRow → Text → Option V
  unfolding trim is_decimal cell
  row_float p row key =
      let t : Text = trim (cell key row) in
      if is_empty (cell key row) then none else if is_decimal t then p.number t else none

  unfoldable pub parse_insights_time : Platform V → Text → Option ℤ
  unfolding trim iso_of
  parse_insights_time p s = elim (iso_of (trim s)) [ none ↦ none | some iso ↦ p.date iso ]

  -- The bucket of a row: what every loop over a time series asks for first.
  unfoldable pub row_bucket : Platform V → Window → LogRow → Option ℕ
  unfolding parse_insights_time index_of cell
  row_bucket p w row = elim (parse_insights_time p (cell (text "t") row)) [
    | none ↦ none
    | some t ↦ index_of w t
  ]
