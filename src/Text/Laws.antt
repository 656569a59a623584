-- ===== src/Text/Laws.antt =====
-- Laws of the string operations.
use skills_dashboard.Common.{
  ◌≡◌, ◌≢◌, refl, ◌↔◌, inl, inr, true, false, [], ◌∷◌, arith, subst, sym, Bool-cases, ◌⊎◌,
}
use skills_dashboard.Text.{Text, text_eq}

pub text_eq-eq : (a b : Text) → text_eq a b ≡ true → a ≡ b
text_eq-eq [] [] h = refl
text_eq-eq (x ∷ xs) (y ∷ ys) h = ground (arith, text_eq-eq xs ys)
text_eq-eq [] (y ∷ ys) h = cc
text_eq-eq (x ∷ xs) [] h = cc

pub text_eq_refl : (a : Text) → text_eq a a ≡ true
text_eq_refl [] = refl
text_eq_refl (x ∷ xs) = ground (arith, text_eq_refl xs)

pub text_eq_iff : (a b : Text) → (text_eq a b ≡ true) ↔ (a ≡ b)
text_eq_iff a b = (text_eq-eq a b, λ e. subst (λ c. text_eq a c ≡ true) e (text_eq_refl a))

pub text_eq-false : (a b : Text) → a ≢ b → text_eq a b ≡ false
text_eq-false a b h = elim (Bool-cases (text_eq a b)) [
  | inl e ↦ absurd (h (text_eq-eq a b e))
  | inr e ↦ e
]

pub Text-cases : (a b : Text) → (a ≡ b) ⊎ (a ≢ b)
Text-cases a b = elim (Bool-cases (text_eq a b)) [
  | inl e ↦ inl (text_eq-eq a b e)
  | inr e ↦ inr (λ same. cc (subst (λ c. text_eq a c ≡ false) (sym same) e, text_eq_refl a))
]
