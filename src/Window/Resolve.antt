-- ===== src/Window/Resolve.antt =====
-- The windows of `resolveWindow`, from the texts of a query string.

use skills_dashboard.Common.{>>=-eq-ok}
use skills_dashboard.Window.{chosen_range}
use skills_dashboard.Window.{chosen_period}
use skills_dashboard.Common.{ℕ, ◌≡◌, sym, subst, inl, inr, [], ◌∷◌, Listed}
use skills_dashboard.Common.{ℤ}
use skills_dashboard.Text.{Text}
use skills_dashboard.Window.{
  Window, new_window, all_ranges, all_periods, resolve_window, default_period, range_1h,
}
use skills_dashboard.Common.{ok}
use skills_dashboard.Window.Bounds.{
  IsValid, Covers, validate_window_iff, new_window-IsValid, new_window_of_Compatible,
}
use skills_dashboard.Window.Choices.{
  parse_range_iff, parse_period_iff, periods_for_iff, default_period-offered,
}

chosen_range-Listed : (s : Text) (r : ℕ) → chosen_range s ≡ ok r → Listed r all_ranges
unfolding chosen_range
chosen_range-Listed [] r h = let e : range_1h ≡ r = cc in inr (inr (inl (sym e)))
chosen_range-Listed (c ∷ s) r h = ((parse_range_iff (c ∷ s) r).0 h).0

-- A range that can be asked for has a window with its default period, at any time.
default_window :
    (now : ℤ) (r : ℕ)
    → Listed r all_ranges
    → (w : Window) × (new_window now r (default_period r) ≡ ok w)
default_window now r l =
    let (k, v) = (periods_for_iff r (default_period r) l).0 (default_period-offered r l) in
    new_window_of_Compatible now r (default_period r) ((validate_window_iff r _).0 v)

chosen_period-Listed :
    (r : ℕ) (s : Text) (p : ℕ)
    → Listed r all_ranges
    → chosen_period r s ≡ ok p
    → Listed p all_periods
unfolding chosen_period
chosen_period-Listed r [] p l h =
    let e : default_period r ≡ p = cc in
    subst (λ x. Listed x all_periods) e
      ((periods_for_iff r (default_period r) l).0 (default_period-offered r l)).0
chosen_period-Listed r (c ∷ s) p l h = ((parse_period_iff (c ∷ s) p).0 h).0

resolve_window-steps :
    (now : ℤ) (a b : Text) (w : Window)
    → resolve_window now a b ≡ ok w
    → (r : ℕ) × (p : ℕ) × (chosen_range a ≡ ok r)
      × (chosen_period r b ≡ ok p)
      × (new_window now r p ≡ ok w)
unfolding resolve_window
resolve_window-steps now a b w h =
    let (r, e, h') = >>=-eq-ok (chosen_range a) _ h in
    let (p, e', h'') = >>=-eq-ok (chosen_period r b) _ h' in (r, p, e, e', h'')

-- Whatever texts a request carries, a window that is resolved is valid, ends within one period of
-- `now`, and has a listed range and a listed period.
pub resolve_window-IsValid :
    (now : ℤ) (a b : Text) (w : Window)
    → resolve_window now a b ≡ ok w
    → IsValid w × Covers w now × Listed w.range all_ranges × Listed w.period all_periods
resolve_window-IsValid now a b w h =
    let (r, p, e, e', made) = resolve_window-steps now a b w h in
    let (valid, covers, same_r, same_p) = new_window-IsValid now r p w made in
    let l = chosen_range-Listed a r e in
    (
      valid,
      covers,
      subst (λ x. Listed x all_ranges) (sym same_r) l,
      subst (λ x. Listed x all_periods) (sym same_p) (chosen_period-Listed r b p l e'),
    )

-- A request that leaves the period out is refused only for its range: with no range, or with one
-- that `parseRange` reads, there is a window at any time.
pub resolve_window-default_period :
    (now : ℤ) (a : Text) (r : ℕ)
    → chosen_range a ≡ ok r
    → (w : Window) × (resolve_window now a [] ≡ ok w)
      × (w.range ≡ r)
      × (w.period ≡ default_period r)
unfolding resolve_window chosen_period
resolve_window-default_period now a r e =
    let (w, made) = default_window now r (chosen_range-Listed a r e) in
    let (_, _, same_r, same_p) = new_window-IsValid now r (default_period r) w made in
    (w, rw e made, same_r, same_p)
