-- ===== src/Fetch/Heap.antt =====
-- Lists as heaps: reading a place after an element was appended or changed.
use skills_dashboard.Common.{
  ℕ, zero, suc, ◌≡◌, refl, ap, ◌≢◌, ◌⊎◌, inl, inr, some, List, [], ◌∷◌, ◌++◌, arith, length,
  get_elem?,
}
use skills_dashboard.Fetch.{modify}

module _ {A : Type 0} where
  pub get_elem?-append_left :
      (xs ys : List A) (i : ℕ) (x : A) → get_elem? xs i ≡ some x → get_elem? (xs ++ ys) i ≡ some x
  get_elem?-append_left [] ys i x h = cc
  get_elem?-append_left (y ∷ xs) ys zero x h = h
  get_elem?-append_left (y ∷ xs) ys (suc i) x h = get_elem?-append_left xs ys i x h

  pub get_elem?-append_last : (xs : List A) (x : A) → get_elem? (xs ++ x ∷ []) (length xs) ≡ some x
  get_elem?-append_last [] x = refl
  get_elem?-append_last (y ∷ xs) x = get_elem?-append_last xs x

  pub get_elem?-append_cases :
      (xs : List A) (y : A) (i : ℕ) (x : A)
      → get_elem? (xs ++ y ∷ []) i ≡ some x
      → (get_elem? xs i ≡ some x) ⊎ ((i ≡ length xs) × (y ≡ x))
  get_elem?-append_cases [] y zero x h = inr (refl, cc)
  get_elem?-append_cases [] y (suc i) x h = cc
  get_elem?-append_cases (z ∷ xs) y zero x h = inl h
  get_elem?-append_cases (z ∷ xs) y (suc i) x h = elim (get_elem?-append_cases xs y i x h) [
    | inl e ↦ inl e
    | inr (e, k) ↦ inr (ap suc e, k)
  ]

  pub get_elem?-modify_self :
      (xs : List A) (i : ℕ) (f : A → A) (x : A)
      → get_elem? xs i ≡ some x
      → get_elem? (modify i f xs) i ≡ some (f x)
  get_elem?-modify_self [] i f x h = cc
  get_elem?-modify_self (y ∷ xs) zero f x h = let same : y ≡ x = cc in rw same
  get_elem?-modify_self (y ∷ xs) (suc i) f x h = get_elem?-modify_self xs i f x h

  pub get_elem?-modify_ne :
      (xs : List A) (i j : ℕ) (f : A → A) → i ≢ j → get_elem? (modify i f xs) j ≡ get_elem? xs j
  get_elem?-modify_ne [] i j f h = refl
  get_elem?-modify_ne (x ∷ xs) zero zero f h = absurd (h refl)
  get_elem?-modify_ne (x ∷ xs) zero (suc j) f h = refl
  get_elem?-modify_ne (x ∷ xs) (suc i) zero f h = refl
  get_elem?-modify_ne (x ∷ xs) (suc i) (suc j) f h =
      get_elem?-modify_ne xs i j f (λ e. h (ap suc e))

  -- What stands where, after a change of place `i`.
  pub get_elem?-modify_cases :
      (xs : List A) (i j : ℕ) (f : A → A) (y : A)
      → get_elem? (modify i f xs) j ≡ some y
      → ((i ≡ j) × ((x : A) × (get_elem? xs j ≡ some x) × (f x ≡ y)))
        ⊎ ((i ≢ j) × (get_elem? xs j ≡ some y))
  get_elem?-modify_cases [] i j f y h = cc
  get_elem?-modify_cases (x ∷ xs) zero zero f y h = inl (refl, (x, refl, cc))
  get_elem?-modify_cases (x ∷ xs) zero (suc j) f y h = inr (omega arith, h)
  get_elem?-modify_cases (x ∷ xs) (suc i) zero f y h = inr (omega arith, h)
  get_elem?-modify_cases (x ∷ xs) (suc i) (suc j) f y h =
      elim (get_elem?-modify_cases xs i j f y h) [
        | inl (e, k) ↦ inl (ap suc e, k)
        | inr (e, k) ↦ inr (λ same. e (omega arith), k)
      ]
