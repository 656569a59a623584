-- ===== src/TimeRange/Server.antt =====
-- web/src/lib/timerange.svelte.ts against server/src/domain/window.ts: the table that the browser falls
-- back on, and what the server makes of a selection from it.
use skills_dashboard.Common.{get_or}
use skills_dashboard.Common.{
  ℕ, ◌/◌, ◌≡◌, refl, sym, subst, inl, inr, true, false, ◌||◌, Option, none, some, List, [], ◌∷◌,
  map, ltb, if◌then◌else◌, Bool-cases, All, ok,
}
use skills_dashboard.Common.{ℤ, pos, ◌-ℤ◌, floor_to}
use skills_dashboard.Text.{Text, text_eq, includes}
use skills_dashboard.Text.Laws.{text_eq-eq}
use skills_dashboard.Text.Decimal.{show}
use skills_dashboard.Window.{
  Window, all_ranges, compact_duration, periods_for, default_period, filter_fits, fits,
  bucket_count, chosen_range, chosen_period, parse_range, parse_period, find_spelled,
  validate_window, new_window, resolve_window,
}
use skills_dashboard.TimeRange.{
  RangeChoice, TimeRange, max_range_seconds, fallback, find_range, entry, accepts, is_valid,
}

-- The entry that the server's own rules give for a range.
abbrev pub server_choice : ℕ → RangeChoice
server_choice r = record {
  range = compact_duration r;
  seconds = r / 1000;
  periods = map compact_duration (periods_for r);
  default_period = compact_duration (default_period r);
}

-- The table that the browser falls back on is the one that the server's rules give: the same ranges,
-- and for each the periods that fit it and its default.
pub fallback-server : fallback ≡ map server_choice all_ranges
unfolding compact_duration show periods_for default_period filter_fits fits bucket_count
fallback-server = refl

-- The server makes a window of the two texts.
abbrev pub Resolves : ℤ → Text → Text → Type 0
Resolves now range period = (w : Window) × (resolve_window now range period ≡ ok w)

abbrev AllResolve : ℤ → RangeChoice → Type 0
AllResolve now e = All (Resolves now e.range) e.periods

abbrev blank : RangeChoice
blank = record { range = []; seconds = 0; periods = []; default_period = [] }

window_of : ℤ → ℕ → ℕ → Window
unfolding floor_to ◌-ℤ◌
window_of now r p = record {
  start = floor_to now p -ℤ pos r;
  end = floor_to now p;
  range = r;
  period = p;
}

fallback-AllResolve : (now : ℤ) → All (AllResolve now) fallback
unfolding resolve_window chosen_range chosen_period parse_range parse_period find_spelled
    compact_duration show validate_window new_window bucket_count window_of
fallback-AllResolve now =
    let w = window_of now in
    let quarter : AllResolve now (get_or fallback 0 blank) = ((w 900000 60000, refl), tt) in
    let half : AllResolve now (get_or fallback 1 blank) =
      ((w 1800000 60000, refl), ((w 1800000 300000, refl), tt)) in
    let hour : AllResolve now (get_or fallback 2 blank) =
      ((w 3600000 60000, refl), ((w 3600000 300000, refl), ((w 3600000 600000, refl), tt))) in
    let two : AllResolve now (get_or fallback 3 blank) =
      ((w 7200000 60000, refl), ((w 7200000 300000, refl), ((w 7200000 600000, refl), tt))) in
    let four : AllResolve now (get_or fallback 4 blank) = (
      (w 14400000 60000, refl),
      ((w 14400000 300000, refl), ((w 14400000 600000, refl), ((w 14400000 3600000, refl), tt))),
    ) in
    (quarter, (half, (hour, (two, (four, tt)))))

find_range-All :
    (P : RangeChoice → Type 0) (a : Text) (es : List RangeChoice) (e : RangeChoice)
    → All P es
    → find_range a es ≡ some e
    → P e × (e.range ≡ a)
unfolding find_range
find_range-All P a [] e h f = cc
find_range-All P a (x ∷ es) e (o, os) f = elim (Bool-cases (text_eq x.range a)) [
  | inl b ↦
      let same : x ≡ e = cc (subst (λ c. (if c then some x else find_range a es) ≡ some e) b f) in
      (subst P same o, subst (λ c. c.range ≡ a) same (text_eq-eq x.range a b))
  | inr b ↦
      find_range-All P a es e os (subst (λ c. (if c then some x else find_range a es) ≡ some e) b f)
]

includes-All :
    (P : Text → Type 0) (ps : List Text) (p : Text) → All P ps → includes ps p ≡ true → P p
unfolding includes
includes-All P [] p h i = cc
includes-All P (q ∷ ps) p (o, os) i = elim (Bool-cases (text_eq q p)) [
  | inl b ↦ subst P (text_eq-eq q p b) o
  | inr b ↦ includes-All P ps p os (subst (λ c. (c || includes ps p) ≡ true) b i)
]

accepts-Resolves :
    (now : ℤ) (o : Option RangeChoice) (range period : Text)
    → ((e : RangeChoice) → o ≡ some e → AllResolve now e × (e.range ≡ range))
    → accepts o period ≡ true
    → Resolves now range period
accepts-Resolves now none range period h a = cc
accepts-Resolves now (some e) range period h a =
    let (all, same) = h e refl in
    let offered : includes e.periods period ≡ true =
      elim (Bool-cases (ltb max_range_seconds e.seconds)) [
        | inl b ↦ cc (subst (λ c. (if c then false else includes e.periods period) ≡ true) b a)
        | inr b ↦ subst (λ c. (if c then false else includes e.periods period) ≡ true) b a
      ] in
    subst (λ x. Resolves now x period) same
      (includes-All (Resolves now e.range) e.periods period all offered)

-- When the table is the one that the browser falls back on, the server makes a window, at any time,
-- of every selection that `isValid` accepts.
pub is_valid-Resolves :
    (now : ℤ) (t : TimeRange)
    → t.ranges ≡ fallback
    → is_valid t ≡ true
    → Resolves now t.range t.period
unfolding is_valid
is_valid-Resolves now t table valid =
    accepts-Resolves now (entry t) t.range t.period
      (λ e h.
        find_range-All (AllResolve now) t.range t.ranges e
          (subst (All (AllResolve now)) (sym table) (fallback-AllResolve now)) h)
      valid
