-- ===== src/Common/Membership.antt =====
-- What is listed, and what holds of every element, as predicates that compute.
use mathlib.Core.Path.{◌≡◌, subst, sym}
use mathlib.Core.Logic.{◌⊎◌, inl, inr}
use mathlib.Core.List.{List, [], ◌∷◌, ◌++◌}

abbrev pub Listed : {A : Type 0} → A → List A → Type 0
Listed x [] = ⊥
Listed x (y ∷ ys) = (x ≡ y) ⊎ Listed x ys

module _ {κ} {A : Type 0} (P : A → Type κ) where
  abbrev pub All : List A → Type κ
  All [] = Unit
  All (x ∷ xs) = P x × All xs

  pub All-Listed : (xs : List A) (x : A) → All xs → Listed x xs → P x
  All-Listed [] x _ l = absurd l
  All-Listed (y ∷ ys) x (p, ps) (inl e) = subst P (sym e) p
  All-Listed (y ∷ ys) x (p, ps) (inr l) = All-Listed ys x ps l

  pub All-append : (xs ys : List A) → All xs → All ys → All (xs ++ ys)
  All-append [] ys _ h = h
  All-append (x ∷ xs) ys (p, ps) h = (p, All-append xs ys ps h)
