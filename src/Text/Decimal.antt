-- ===== src/Text/Decimal.antt =====
-- Printing a natural number in decimal, as a template literal does.
use skills_dashboard.Common.{ℕ, zero, suc, ◌+◌, ◌*◌, ◌-◌, ◌/◌, ◌%◌, [], ◌∷◌, ltb, if◌then◌else◌}
use skills_dashboard.Text.{Text}

-- The digits of `n` before `acc`, on fuel above `n`.
show_from : ℕ → ℕ → Text → Text
show_from zero n acc = acc
show_from (suc f) n acc =
    let longer = show_from f (n / 10) ((b'0' + n % 10) ∷ acc) in
    if ltb n 10 then (b'0' + n % 10) ∷ acc else longer

-- `${n}`
unfoldable pub show : ℕ → Text
unfolding show_from
show n = show_from (suc n) n []

-- The number that a run of digits continues from `acc`.
unfoldable pub read_from : ℕ → Text → ℕ
read_from acc [] = acc
read_from acc (c ∷ s) = read_from (acc * 10 + (c - b'0')) s

unfoldable pub read : Text → ℕ
unfolding read_from
read s = read_from 0 s
