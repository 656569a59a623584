-- ===== src/Window/Choices.antt =====
-- The ranges and periods that can be asked for: what `parseRange` and `parsePeriod` read, what
-- `periodsFor` offers, and the windows of `resolveWindow`.
use skills_dashboard.Common.{
  ℕ, ◌≡◌, refl, sym, ◌↔◌, ◌⊎◌, inl, inr, true, some, List, [], ◌∷◌, arith, Bool-cases, Listed, All,
  All-Listed,
}
use skills_dashboard.Text.{Text, text_eq}
use skills_dashboard.Text.Laws.{text_eq-eq}
use skills_dashboard.Window.{
  validate_window, bucket_count, fits, filter_fits, periods_for, all_ranges, all_periods,
  find_spelled, parse_range, parse_period, compact_duration, default_period,
}
use skills_dashboard.Common.{ok}
use skills_dashboard.Window.Bounds.{Compatible, validate_window_iff}

find_spelled_sound :
    (s : Text) (rs : List ℕ) (r : ℕ)
    → find_spelled s rs ≡ some r
    → Listed r rs × (compact_duration r ≡ s)
unfolding find_spelled
find_spelled_sound s [] r h = cc
find_spelled_sound s (x ∷ xs) r h = elim (Bool-cases (text_eq (compact_duration x) s)) [
  | inl e ↦ let same : x ≡ r = ground arith in (inl (sym same), rw (← same) (text_eq-eq _ s e))
  | inr e ↦ let (l, q) = find_spelled_sound s xs r (ground arith) in (inr l, q)
]

-- No two of a list are spelled alike.
abbrev SpelledApart : List ℕ → Type 0
SpelledApart rs = All (λ r. find_spelled (compact_duration r) rs ≡ some r) rs

ranges-SpelledApart : SpelledApart all_ranges
unfolding find_spelled compact_duration
ranges-SpelledApart = (refl, (refl, (refl, (refl, (refl, tt)))))

periods-SpelledApart : SpelledApart all_periods
unfolding find_spelled compact_duration
periods-SpelledApart = (refl, (refl, (refl, (refl, tt))))

find_spelled_iff :
    (s : Text) (rs : List ℕ) (r : ℕ)
    → SpelledApart rs
    → (find_spelled s rs ≡ some r) ↔ (Listed r rs × (compact_duration r ≡ s))
find_spelled_iff s rs r apart = (
  find_spelled_sound s rs r,
  λ (l, e). rw (← e) (All-Listed (λ r. find_spelled (compact_duration r) rs ≡ some r) rs r apart l),
)

parse_range-find_spelled :
    (s : Text) (r : ℕ) → (parse_range s ≡ ok r) ↔ (find_spelled s all_ranges ≡ some r)
unfolding parse_range
parse_range-find_spelled s r = ground arith

parse_period-find_spelled :
    (s : Text) (p : ℕ) → (parse_period s ≡ ok p) ↔ (find_spelled s all_periods ≡ some p)
unfolding parse_period
parse_period-find_spelled s p = ground arith

-- `parseRange` reads a range from exactly the text that `compactDuration` writes for it, and only
-- the five listed ranges.
pub parse_range_iff :
    (s : Text) (r : ℕ) → (parse_range s ≡ ok r) ↔ (Listed r all_ranges × (compact_duration r ≡ s))
parse_range_iff s r =
    let a = parse_range-find_spelled s r in
    let b = find_spelled_iff s all_ranges r ranges-SpelledApart in
    (λ h. b.0 (a.0 h), λ h. a.1 (b.1 h))

pub parse_period_iff :
    (s : Text) (p : ℕ) → (parse_period s ≡ ok p) ↔ (Listed p all_periods × (compact_duration p ≡ s))
parse_period_iff s p =
    let a = parse_period-find_spelled s p in
    let b = find_spelled_iff s all_periods p periods-SpelledApart in
    (λ h. b.0 (a.0 h), λ h. a.1 (b.1 h))

filter_fits_sound :
    (r p : ℕ) (ps : List ℕ) → Listed p (filter_fits r ps) → Listed p ps × (fits r p ≡ true)
unfolding filter_fits
filter_fits_sound r p [] h = absurd h
filter_fits_sound r p (x ∷ ps) h = elim (Bool-cases (fits r x)) [
  | inl e ↦
      let h' : (p ≡ x) ⊎ Listed p (filter_fits r ps) = rw (e, filter_fits) at h in
      elim h' [
        | inl q ↦ (inl q, rw q e)
        | inr l ↦ let (k, f) = filter_fits_sound r p ps l in (inr k, f)
      ]
  | inr e ↦ let (k, f) = filter_fits_sound r p ps (rw (e, filter_fits) at h) in (inr k, f)
]

filter_fits_complete :
    (r p : ℕ) (ps : List ℕ) → Listed p ps → fits r p ≡ true → Listed p (filter_fits r ps)
unfolding filter_fits
filter_fits_complete r p [] l f = absurd l
filter_fits_complete r p (x ∷ ps) (inl q) f = rw (← q, f) (inl refl)
filter_fits_complete r p (x ∷ ps) (inr l) f = elim (Bool-cases (fits r x)) [
  | inl e ↦ rw e (inr (filter_fits_complete r p ps l f))
  | inr e ↦ rw e (filter_fits_complete r p ps l f)
]

fits_of_Compatible : (r p : ℕ) → Compatible r p → fits r p ≡ true
unfolding fits bucket_count
fits_of_Compatible r p c = ground arith

-- What a listed range and a listed period that fit have in common.
abbrev Accepted : ℕ → ℕ → Type 0
Accepted r p = fits r p ≡ true → validate_window r p ≡ ok tt

listed-Accepted : All (λ r. All (Accepted r) all_periods) all_ranges
unfolding fits bucket_count validate_window
listed-Accepted = (
  ((λ h. refl), ((λ h. cc), ((λ h. cc), ((λ h. cc), tt)))),
  (
    ((λ h. refl), ((λ h. refl), ((λ h. cc), ((λ h. cc), tt)))),
    (
      ((λ h. refl), ((λ h. refl), ((λ h. refl), ((λ h. cc), tt)))),
      (
        ((λ h. refl), ((λ h. refl), ((λ h. refl), ((λ h. cc), tt)))),
        (((λ h. refl), ((λ h. refl), ((λ h. refl), ((λ h. refl), tt)))), tt),
      ),
    ),
  ),
)

-- For a range that can be asked for, `periodsFor` offers exactly the listed periods that
-- `validateWindow` accepts with it.
pub periods_for_iff :
    (r p : ℕ)
    → Listed r all_ranges
    → Listed p (periods_for r) ↔ (Listed p all_periods × (validate_window r p ≡ ok tt))
unfolding periods_for
periods_for_iff r p l = (
  λ h.
      let (k, f) = filter_fits_sound r p all_periods h in
      (
        k,
        All-Listed (Accepted r) all_periods p
            (All-Listed (λ x. All (Accepted x) all_periods) all_ranges r listed-Accepted l) k f,
      ),
  λ (k, v).
      filter_fits_complete r p all_periods k
        (fits_of_Compatible r p ((validate_window_iff r p).0 v)),
)

abbrev HasDefault : ℕ → Type 0
HasDefault r = Listed (default_period r) (periods_for r)

listed-HasDefault : All HasDefault all_ranges
unfolding default_period periods_for filter_fits fits bucket_count
listed-HasDefault = (inl refl, (inl refl, (inl refl, (inl refl, (inr (inl refl), tt)))))

-- The default period of a range that can be asked for is among the periods that are offered.
pub default_period-offered :
    (r : ℕ) → Listed r all_ranges → Listed (default_period r) (periods_for r)
default_period-offered r l = All-Listed HasDefault all_ranges r listed-HasDefault l
