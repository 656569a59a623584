-- ===== src/Common/Floor.antt =====
-- Rounding an integer down to a multiple of a positive step.
use Prim.Native.Nat.{suc}
use skills_dashboard.Common.Int.{neg_part}
use skills_dashboard.Common.Int.{eq_of_parts}
use skills_dashboard.Common.Int.{pos_part}
use Prim.Native.Nat.{ℕ, ◌+◌, ◌-◌, ◌*◌, ◌/◌, ◌%◌, ◌≤◌, ◌<◌}
use mathlib.Core.Path.{◌≡◌, ap}
use native.Mathlib.Omega.{arith}
use native.Mathlib.Nat.{mod-lt, mul_assoc}
use skills_dashboard.Common.Int.{
  ℤ, pos, negsuc, ◌≤ℤ◌, ◌<ℤ◌, ◌+ℤ◌, floor_to, trunc_div, sub_ℕ, +ℤ_parts,
}

pub div-mul : (n p : ℕ) → n / p * p + n % p ≡ n
div-mul n p = grind arith

pub mul-div_self : (k p : ℕ) → 0 < p → k * p / p ≡ k
mul-div_self k p h = grind arith

pub div_unique : (n k p : ℕ) → k * p ≤ n → n < k * p + p → n / p ≡ k
div_unique n k p h l = grind arith

pub mod-mul_self : (k p : ℕ) → 0 < p → (k * p) % p ≡ 0
mod-mul_self k p h = omega (arith, div-mul (k * p) p, ap (λ x. x * p) (mul-div_self k p h))

sub_zero-suc : (m : ℕ) → 0 < m → sub_ℕ 0 m ≡ negsuc (m - 1)
sub_zero-suc m h = ground arith

mul-suc-pos : (k p : ℕ) → 0 < p → 0 < (k + 1) * p
mul-suc-pos k p h = omega (arith, h)

pred-div : (k p : ℕ) → 0 < p → ((k + 1) * p - 1) / p ≡ k
pred-div k p h = div_unique ((k + 1) * p - 1) k p (omega arith) (omega arith)

module _ (p : ℕ) (h : 0 < p) where
  pub floor_to-le : (t : ℤ) → floor_to t p ≤ℤ t
  unfolding floor_to
  floor_to-le (pos n) = omega (arith, div-mul n p)
  floor_to-le (negsuc n) =
      rw (sub_zero-suc ((n / p + 1) * p) (mul-suc-pos (n / p) p h))
        (omega (arith, div-mul n p, mod-lt n h, mul-suc-pos (n / p) p h))

  pub lt-floor_to : (t : ℤ) → t <ℤ floor_to t p +ℤ pos p
  unfolding floor_to
  lt-floor_to (pos n) = omega (arith, +ℤ_parts, div-mul n p, mod-lt n h)
  lt-floor_to (negsuc n) =
      rw (sub_zero-suc ((n / p + 1) * p) (mul-suc-pos (n / p) p h))
        (omega (arith, +ℤ_parts, div-mul n p, mod-lt n h, mul-suc-pos (n / p) p h))

  floor_to-negative : (k : ℕ) → floor_to (sub_ℕ 0 ((k + 1) * p)) p ≡ sub_ℕ 0 ((k + 1) * p)
  unfolding floor_to
  floor_to-negative k =
      rw (sub_zero-suc ((k + 1) * p) (mul-suc-pos k p h))
        (rw (pred-div k p h) (sub_zero-suc ((k + 1) * p) (mul-suc-pos k p h)))

  pub floor_to_idempotent : (t : ℤ) → floor_to (floor_to t p) p ≡ floor_to t p
  unfolding floor_to
  floor_to_idempotent (pos n) = rw (mul-div_self (n / p) p h)
  floor_to_idempotent (negsuc n) = floor_to-negative (n / p)

-- An integer that is `(a - b) * p` for some a and b.
abbrev pub Multiple : ℤ → ℕ → Type 0
Multiple m p = (a : ℕ) × (b : ℕ) × (pos_part m + b * p ≡ neg_part m + a * p)

pub floor_to-Multiple : (t : ℤ) (p : ℕ) → 0 < p → Multiple (floor_to t p) p
unfolding floor_to
floor_to-Multiple (pos n) p h = (n / p, 0, omega arith)
floor_to-Multiple (negsuc n) p h =
    rw (sub_zero-suc ((n / p + 1) * p) (mul-suc-pos (n / p) p h))
      (0, n / p + 1, omega (arith, mul-suc-pos (n / p) p h))

le_of_mul-lt : (x y p : ℕ) → x * p < y * p + p → x ≤ y
le_of_mul-lt x y p h = grind arith

pub Multiple-eq :
    (p : ℕ) (m m' : ℤ) → Multiple m p → Multiple m' p → m <ℤ m' +ℤ pos p → m' <ℤ m +ℤ pos p → m ≡ m'
Multiple-eq p m m' (a, b, e) (a', b', e') h h' =
    let l : a + b' ≤ a' + b = le_of_mul-lt (a + b') (a' + b) p (omega (arith, +ℤ_parts)) in
    let g : a' + b ≤ a + b' = le_of_mul-lt (a' + b) (a + b') p (omega (arith, +ℤ_parts)) in
    let q : a + b' ≡ a' + b = omega arith in eq_of_parts m m' (omega (arith, ap (λ x. x * p) q))

-- The multiple of p at or below t, less than p away, is what `floor_to` finds.
pub floor_to_unique :
    (t m : ℤ) (p : ℕ) → 0 < p → Multiple m p → m ≤ℤ t → t <ℤ m +ℤ pos p → floor_to t p ≡ m
floor_to_unique t m p h mult le lt =
    Multiple-eq p (floor_to t p) m (floor_to-Multiple t p h) mult
      (omega (arith, +ℤ_parts, floor_to-le p h t)) (omega (arith, +ℤ_parts, lt-floor_to p h t))

pub trunc_div-exact :
    (m : ℤ)
    → Multiple m 1000
    → (pos_part m ≡ pos_part (trunc_div m 1000) * 1000)
      × (neg_part m ≡ neg_part (trunc_div m 1000) * 1000)
unfolding trunc_div
trunc_div-exact (pos n) (a, b, e) = omega arith
trunc_div-exact (negsuc n) (a, b, e) = rw (sub_zero-suc (suc n / 1000) (omega arith)) (omega arith)

pub Multiple-of : (m : ℤ) (p k q : ℕ) → p ≡ k * q → Multiple m p → Multiple m q
Multiple-of m p k q e (a, b, h) = (
  a * k,
  b * k,
  omega (arith, h, ap (λ x. a * x) e, ap (λ x. b * x) e, mul_assoc a k q, mul_assoc b k q),
)
