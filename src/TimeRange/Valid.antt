-- ===== src/TimeRange/Valid.antt =====
-- web/src/lib/timerange.svelte.ts: the selection is always one that can be asked for.
use skills_dashboard.Common.{get_or}
use skills_dashboard.Common.{
  ℕ, ◌≤◌, ◌≡◌, refl, subst, inl, inr, true, false, Option, none, some, List, [], ◌∷◌, arith, ltb,
  leb, if◌then◌else◌, Bool-cases, All,
}
use skills_dashboard.Text.{Text, text_eq, includes}
use skills_dashboard.TimeRange.{
  RangeChoice, Meta, TimeRange, max_range_seconds, fallback, new_time_range, find_range, is_found,
  periods_of, default_for, entry, accepts, is_valid, reconcile_period, within_cap, adopt,
  apply_meta, set_range, set_period, refresh, restore_range, restore_period, restore_refresh,
  from_search_params,
}

-- An entry that offers its own default, within the cap.
abbrev pub Offers : RangeChoice → Type 0
Offers e = (e.seconds ≤ max_range_seconds) × (includes e.periods e.default_period ≡ true)

-- A table of such entries that has the range of the selection.
abbrev pub Names : TimeRange → Type 0
Names t = All Offers t.ranges × (is_found (entry t) ≡ true)

accepts_of :
    (o : Option RangeChoice) (p : Text)
    → is_found o ≡ true
    → ((e : RangeChoice) → o ≡ some e → Offers e)
    → includes (periods_of o) p ≡ true
    → accepts o p ≡ true
accepts_of none p f h i = cc
accepts_of (some e) p f h i =
    let (cap, _) = h e refl in
    let fits : ltb max_range_seconds e.seconds ≡ false = ground arith in rw fits i

found-Offers :
    (a : Text) (es : List RangeChoice) (e : RangeChoice)
    → All Offers es
    → find_range a es ≡ some e
    → Offers e
unfolding find_range
found-Offers a [] e h f = cc
found-Offers a (x ∷ es) e (o, os) f = elim (Bool-cases (text_eq x.range a)) [
  | inl b ↦
      let same : x ≡ e = cc (subst (λ c. (if c then some x else find_range a es) ≡ some e) b f) in
      subst Offers same o
  | inr b ↦
      found-Offers a es e os (subst (λ c. (if c then some x else find_range a es) ≡ some e) b f)
]

-- A period that the range offers makes a valid selection.
offered_is_valid :
    (t : TimeRange) → Names t → includes (periods_of (entry t)) t.period ≡ true → is_valid t ≡ true
unfolding is_valid
offered_is_valid t (all, f) i =
    accepts_of (entry t) t.period f (λ e h. found-Offers t.range t.ranges e all h) i

default_offered :
    (o : Option RangeChoice)
    → is_found o ≡ true
    → ((e : RangeChoice) → o ≡ some e → Offers e)
    → includes (periods_of o) (default_for o) ≡ true
default_offered none f h = cc
default_offered (some e) f h = (h e refl).1

reconcile_period-is_valid :
    (t : TimeRange) → Names t → Names (reconcile_period t) × (is_valid (reconcile_period t) ≡ true)
unfolding reconcile_period
reconcile_period-is_valid t n = elim (Bool-cases (includes (periods_of (entry t)) t.period)) [
  | inl i ↦ rw (reconcile_period, i) (n, offered_is_valid t n i)
  | inr i ↦
      rw (reconcile_period, i)
        (
          n,
          offered_is_valid (record t { period = default_for (entry t) }) n
              (default_offered (entry t) n.1 (λ e h. found-Offers t.range t.ranges e n.0 h)),
        )
]

-- What the selection relies on in a table that the server sends: every entry offers its default,
-- and the default range is among those within the cap.
abbrev pub Serves : Meta → Type 0
Serves m =
    All (λ e. includes e.periods e.default_period ≡ true) m.ranges
    × (is_found (find_range m.default_range (within_cap m.ranges)) ≡ true)

within_cap-Offers :
    (es : List RangeChoice)
    → All (λ e. includes e.periods e.default_period ≡ true) es
    → All Offers (within_cap es)
unfolding within_cap
within_cap-Offers [] h = tt
within_cap-Offers (e ∷ es) (d, ds) = elim (Bool-cases (leb e.seconds max_range_seconds)) [
  | inl b ↦
      let cap : e.seconds ≤ max_range_seconds = ground arith in
      rw b ((cap, d), within_cap-Offers es ds)
  | inr b ↦ rw b (within_cap-Offers es ds)
]

adopt-Names : (m : Meta) (t : TimeRange) → Serves m → Names (adopt m t)
unfolding adopt
adopt-Names m t (offers, named) =
    elim (Bool-cases (is_found (find_range t.range (within_cap m.ranges)))) [
      | inl b ↦ rw (adopt, b) (within_cap-Offers m.ranges offers, b)
      | inr b ↦ rw (adopt, b) (within_cap-Offers m.ranges offers, named)
    ]

-- A valid selection from a table of entries that offer their defaults.
abbrev pub Good : TimeRange → Type 0
Good t = Names t × (is_valid t ≡ true)

set_range-Good : (range : Text) (t : TimeRange) → Good t → Good (set_range range t)
unfolding set_range
set_range-Good range t g = elim (Bool-cases (is_found (find_range range t.ranges))) [
  | inl b ↦ rw (set_range, b) (reconcile_period-is_valid (record t { range = range }) (g.0.0, b))
  | inr b ↦ rw (set_range, b) g
]

set_period-Good : (period : Text) (t : TimeRange) → Good t → Good (set_period period t)
unfolding set_period
set_period-Good period t g = elim (Bool-cases (includes (periods_of (entry t)) period)) [
  | inl b ↦ rw (set_period, b) (g.0, offered_is_valid (record t { period = period }) g.0 b)
  | inr b ↦ rw (set_period, b) g
]

restore_range-Names : (o : Option Text) (t : TimeRange) → Names t → Names (restore_range o t)
unfolding restore_range
restore_range-Names none t n = n
restore_range-Names (some []) t n = n
restore_range-Names (some (c ∷ range)) t n =
    elim (Bool-cases (is_found (find_range (c ∷ range) t.ranges))) [
      | inl b ↦ rw (restore_range, b) (n.0, b)
      | inr b ↦ rw (restore_range, b) n
    ]

restore_period-Good : (o : Option Text) (t : TimeRange) → Names t → Good (restore_period o t)
unfolding restore_period
restore_period-Good none t n = reconcile_period-is_valid t n
restore_period-Good (some []) t n = reconcile_period-is_valid t n
restore_period-Good (some (c ∷ period)) t n =
    elim (Bool-cases (includes (periods_of (entry t)) (c ∷ period))) [
      | inl b ↦ rw (restore_period, b) (n, offered_is_valid (record t { period = c ∷ period }) n b)
      | inr b ↦ rw (restore_period, b) (reconcile_period-is_valid t n)
    ]

restore_refresh-Good : (o : Option ℕ) (t : TimeRange) → Good t → Good (restore_refresh o t)
unfolding restore_refresh is_valid
restore_refresh-Good none t g = g
restore_refresh-Good (some n) t g = g

-- What can happen to the selection, in any order.
pub data Step (t : TimeRange) : TimeRange → Type 0 where
  applies_meta : (m : Meta) → Serves m → Step t (apply_meta m t)
  sets_range : (range : Text) → Step t (set_range range t)
  sets_period : (period : Text) → Step t (set_period period t)
  refreshes : Step t (refresh t)
  restores :
      (range period : Option Text) (seconds : Option ℕ)
      → Step t (from_search_params range period seconds t)

pub data Reach (t : TimeRange) : TimeRange → Type 0 where
  here : Reach t t
  step : {u v : TimeRange} → Reach t u → Step u v → Reach t v

Step-Good : {t u : TimeRange} → Step t u → Good t → Good u
unfolding apply_meta refresh from_search_params is_valid
Step-Good {t} (applies_meta m s) g = reconcile_period-is_valid (adopt m t) (adopt-Names m t s)
Step-Good {t} (sets_range range) g = set_range-Good range t g
Step-Good {t} (sets_period period) g = set_period-Good period t g
Step-Good refreshes g = g
Step-Good {t} (restores range period seconds) g =
    restore_refresh-Good seconds (restore_period period (restore_range range t))
      (restore_period-Good period (restore_range range t) (restore_range-Names range t g.0))

abbrev blank : RangeChoice
blank = record { range = []; seconds = 0; periods = []; default_period = [] }

start-Good : Good new_time_range
unfolding new_time_range is_valid find_range includes
start-Good =
    let one : Offers (get_or fallback 0 blank) = (omega arith, refl) in
    let two : Offers (get_or fallback 1 blank) = (omega arith, refl) in
    let three : Offers (get_or fallback 2 blank) = (omega arith, refl) in
    let four : Offers (get_or fallback 3 blank) = (omega arith, refl) in
    let five : Offers (get_or fallback 4 blank) = (omega arith, refl) in
    (((one, (two, (three, (four, (five, tt))))), refl), refl)

-- From the selection the page opens with, after any sequence of calls of `applyMeta`, `setRange`,
-- `setPeriod`, `refresh` and `fromSearchParams`, where each table that `applyMeta` gets offers in
-- every entry its default period and has its default range within the cap, `isValid` accepts the
-- selection: its range is in the table and within four hours, and the range offers its period.
pub Reach-is_valid : (t : TimeRange) → Reach new_time_range t → is_valid t ≡ true
Reach-is_valid t r = (good r).1
  where
    good : {u : TimeRange} → Reach new_time_range u → Good u
    good here = start-Good
    good (step r s) = Step-Good s (good r)
