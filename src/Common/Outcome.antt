-- ===== src/Common/Outcome.antt =====
-- The outcome of code that may throw, and chains of such code.
use mathlib.Core.Path.{◌≡◌, refl}
use mathlib.Core.Logic.{◌⊎◌, inl, inr}
use mathlib.Core.Bool.{Bool, true, false}
use skills_dashboard.Common.Tests.{if◌then◌else◌}

-- What a function of the source does: it throws `E` or returns `A`.
pub data Result (E A : Type 0) : Type 0 where
  err : E → Result E A
  ok : A → Result E A

infixl 5 ◌>>=◌ ◌>>◌
-- A thrown error skips the rest of the chain.
abbrev pub ◌>>=◌ : {E X Y : Type 0} → Result E X → (X → Result E Y) → Result E Y
err thrown >>= rest = err thrown
ok x >>= rest = rest x

-- A check, and what follows it if nothing is thrown.
abbrev pub ◌>>◌ : {E Y : Type 0} → Result E (Unit {0}) → Result E Y → Result E Y
err thrown >> rest = err thrown
ok _ >> rest = rest

-- A chain returns only if its first part does.
pub >>=-eq-ok :
    {E X Y : Type 0} (first : Result E X) (rest : X → Result E Y) {y : Y}
    → (first >>= rest) ≡ ok y
    → (x : X) × (first ≡ ok x) × (rest x ≡ ok y)
>>=-eq-ok (err thrown) rest returns = cc
>>=-eq-ok (ok x) rest returns = (x, refl, returns)

pub Result-cases :
    {E X : Type 0} (r : Result E X) → ((x : X) × (r ≡ ok x)) ⊎ ((thrown : E) × (r ≡ err thrown))
Result-cases (err thrown) = inr (thrown, refl)
Result-cases (ok x) = inl (x, refl)

-- A check that passed.
pub if-eq-ok :
    {E X : Type 0} (b : Bool) (x : X) (thrown : E) {y : X}
    → (if b then ok x else err thrown) ≡ ok y
    → (b ≡ true) × (x ≡ y)
if-eq-ok true x thrown h = (refl, cc)
if-eq-ok false x thrown h = cc

-- A check and what follows it return only if both do.
pub >>-eq-ok :
    {E Y : Type 0} (first : Result E (Unit {0})) (rest : Result E Y) {y : Y}
    → (first >> rest) ≡ ok y
    → (first ≡ ok tt) × (rest ≡ ok y)
>>-eq-ok (err thrown) rest returns = cc
>>-eq-ok (ok _) rest returns = (refl, returns)

pub >>-ok :
    {E Y : Type 0} (first : Result E (Unit {0})) (rest : Result E Y)
    → first ≡ ok tt
    → (first >> rest) ≡ rest
>>-ok (err thrown) rest passed = cc
>>-ok (ok _) rest passed = refl
