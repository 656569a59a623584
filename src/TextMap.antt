-- ===== src/TextMap.antt =====
-- Maps from strings, as the TypeScript sources use `Map`: association lists in the order of
-- insertion, where a key that is set again keeps its place.
use skills_dashboard.Common.{
  ◌≡◌, sym, ◌∙◌, ◌≢◌, inl, inr, false, Option, none, some, List, [], ◌∷◌, if◌then◌else◌, Bool-cases,
}
use skills_dashboard.Text.{Text, text_eq}
use skills_dashboard.Text.Laws.{text_eq-eq, text_eq_refl, text_eq-false}

module _ {A : Type 0} where
  -- `map.get(k)`
  unfoldable pub get : Text → List (Text × A) → Option A
  get k [] = none
  get k ((j, a) ∷ m) = if text_eq j k then some a else get k m

  -- `map.set(k, a)`
  unfoldable pub put : Text → A → List (Text × A) → List (Text × A)
  put k a [] = (k, a) ∷ []
  put k a ((j, b) ∷ m) = let rest = put k a m in if text_eq j k then (j, a) ∷ m else (j, b) ∷ rest

  pub get-put_self : (k : Text) (a : A) (m : List (Text × A)) → get k (put k a m) ≡ some a
  unfolding get put
  get-put_self k a [] = rw (text_eq_refl k)
  get-put_self k a ((j, b) ∷ m) = elim (Bool-cases (text_eq j k)) [
    | inl e ↦ rw (e, e)
    | inr e ↦ rw (e, e, get-put_self k a m)
  ]

  pub get-put_ne : (k j : Text) (a : A) (m : List (Text × A)) → k ≢ j → get j (put k a m) ≡ get j m
  unfolding get put
  get-put_ne k j a [] h = rw (text_eq-false k j h)
  get-put_ne k j a ((i, b) ∷ m) h = elim (Bool-cases (text_eq i k)) [
    | inl e ↦
        let differs : text_eq i j ≡ false =
          text_eq-false i j (λ same. h (sym (text_eq-eq i k e) ∙ same)) in
        rw (e, differs)
    | inr e ↦ elim (Bool-cases (text_eq i j)) [
      | inl f ↦ rw (e, f)
      | inr f ↦ rw (e, f, get-put_ne k j a m h)
    ]
  ]
