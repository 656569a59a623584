-- ===== src/Window/Bounds.antt =====
-- When `validateWindow` accepts, and the windows that `newWindow` and `resolveWindow` make.
use skills_dashboard.Common.{ℕ, ◌/◌, ◌%◌, ◌≤◌, ◌<◌, ◌≡◌, sym, ap, subst, ◌↔◌, arith}
use skills_dashboard.Common.{ℤ, pos, ◌+ℤ◌, ◌-ℤ◌, ◌≤ℤ◌, ◌<ℤ◌, int_laws, floor_to}
use skills_dashboard.Common.Floor.{floor_to-le, lt-floor_to, floor_to_idempotent}
use skills_dashboard.Window.{
  Window, validate_window, new_window, max_range, min_buckets, max_buckets,
}
use skills_dashboard.Common.{ok}

pub record Compatible (r p : ℕ) : Type 0 where
  pub positive : 0 < r
  pub bounded : r ≤ max_range
  pub step : 0 < p
  pub enough : min_buckets ≤ r / p
  pub few : r / p ≤ max_buckets
  pub even : r % p ≡ 0

-- `validateWindow` accepts a range and a period exactly when the range is positive and at most
-- four hours, and the period is positive, divides the range and cuts it into 4 to 250 buckets.
pub validate_window_iff : (r p : ℕ) → (validate_window r p ≡ ok tt) ↔ Compatible r p
unfolding validate_window
validate_window_iff r p = ground arith

pub record IsValid (w : Window) : Type 0 where
  pub compatible : Compatible w.range w.period
  pub span : w.start +ℤ pos w.range ≡ w.end
  pub aligned : floor_to w.end w.period ≡ w.end

abbrev pub Covers : Window → ℤ → Type 0
Covers w now = (w.end ≤ℤ now) × (now <ℤ w.end +ℤ pos w.period)

sub-add_cancel : (a b : ℤ) → a -ℤ b +ℤ b ≡ a
sub-add_cancel a b = omega int_laws

made : ℤ → ℕ → ℕ → Window
made now r p = record {
  start = floor_to now p -ℤ pos r;
  end = floor_to now p;
  range = r;
  period = p;
}

made-IsValid :
    (now : ℤ) (r p : ℕ) → Compatible r p → IsValid (made now r p) × Covers (made now r p) now
unfolding made
made-IsValid now r p c = (
  record { compatible = c; span = sub-add_cancel _ _; aligned = floor_to_idempotent p c.step now },
  (floor_to-le p c.step now, lt-floor_to p c.step now),
)

new_window-made :
    (now : ℤ) (r p : ℕ) (w : Window)
    → new_window now r p ≡ ok w
    → (validate_window r p ≡ ok tt) × (w ≡ made now r p)
unfolding new_window made
new_window-made now r p w h = ground arith

-- A window that `newWindow` makes is valid: its range and period fit together, it ends on a
-- multiple of the period, and starts one range earlier. It ends at or before `now`, and less than
-- one period before it.
pub new_window-IsValid :
    (now : ℤ) (r p : ℕ) (w : Window)
    → new_window now r p ≡ ok w
    → IsValid w × Covers w now × (w.range ≡ r) × (w.period ≡ p)
unfolding made
new_window-IsValid now r p w h =
    let (valid, same) = new_window-made now r p w h in
    let (v, c) = made-IsValid now r p ((validate_window_iff r p).0 valid) in
    (
      subst IsValid (sym same) v,
      subst (λ x. Covers x now) (sym same) c,
      ap (λ x. x.range) same,
      ap (λ x. x.period) same,
    )

pub new_window_of_Compatible :
    (now : ℤ) (r p : ℕ) → Compatible r p → (w : Window) × (new_window now r p ≡ ok w)
unfolding new_window made
new_window_of_Compatible now r p c = (made now r p, rw ((validate_window_iff r p).1 c))
