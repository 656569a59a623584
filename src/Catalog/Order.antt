-- ===== src/Catalog/Order.antt =====
-- server/src/domain/catalog.ts, `searchExpression`: its keys are sorted, so that the order in which
-- the fields of `filters` were written does not reach the text.
use skills_dashboard.Common.{
  ℕ, ◌≡◌, refl, sym, ap, ◌∙◌, inl, inr, true, false, List, [], ◌∷◌, arith, Bool-cases,
}
use mathlib.Core.List.{Perm}
use mathlib.Core.List.Perm
use skills_dashboard.Text.{Text}
use skills_dashboard.Catalog.{MetricSpec}
use skills_dashboard.Catalog.Search.{
  text_leb, insert, sort, keys, field, filter_terms, search_expression,
}

leb_antisymm : (s t : Text) → text_leb s t ≡ true → text_leb t s ≡ true → s ≡ t
leb_antisymm [] [] h k = refl
leb_antisymm (x ∷ s) [] h k = cc
leb_antisymm [] (y ∷ t) h k = cc
leb_antisymm (x ∷ s) (y ∷ t) h k = ground (arith, leb_antisymm s t)

pub leb_total : (s t : Text) → text_leb s t ≡ false → text_leb t s ≡ true
leb_total [] t h = cc
leb_total (x ∷ s) [] h = refl
leb_total (x ∷ s) (y ∷ t) h = ground (arith, leb_total s t)

leb_trans : (s t u : Text) → text_leb s t ≡ true → text_leb t u ≡ true → text_leb s u ≡ true
leb_trans [] t u h k = refl
leb_trans (x ∷ s) [] u h k = cc
leb_trans (x ∷ s) (y ∷ t) [] h k = cc
leb_trans (x ∷ s) (y ∷ t) (z ∷ u) h k = ground (arith, leb_trans s t u)

pub insert_front : (a b : Text) (l : List Text) → text_leb a b ≡ true → insert a (b ∷ l) ≡ a ∷ b ∷ l
unfolding insert
insert_front a b l h = rw h

pub insert_behind :
    (a b : Text) (l : List Text) → text_leb a b ≡ false → insert a (b ∷ l) ≡ b ∷ insert a l
unfolding insert
insert_behind a b l h = rw h

-- Two keys that both belong at the front.
insert_both :
    (a b : Text) (l : List Text)
    → insert a l ≡ a ∷ l
    → insert b l ≡ b ∷ l
    → insert a (b ∷ l) ≡ insert b (a ∷ l)
insert_both a b l ha hb = elim (Bool-cases (text_leb a b)) [
  | inl ab ↦ elim (Bool-cases (text_leb b a)) [
    | inl ba ↦ let same = leb_antisymm a b ab ba in rw same
    | inr ba ↦ insert_front a b l ab ∙ sym (insert_behind b a l ba ∙ ap (λ m. a ∷ m) hb)
  ]
  | inr ab ↦
      insert_behind a b l ab ∙ ap (λ m. b ∷ m) ha ∙ sym (insert_front b a l (leb_total a b ab))
]

-- A key that belongs before `j`, and one that belongs behind it.
insert_apart :
    (a b j : Text) (l : List Text)
    → text_leb b j ≡ true
    → text_leb a j ≡ false
    → insert a (insert b (j ∷ l)) ≡ insert b (insert a (j ∷ l))
insert_apart a b j l hb ha =
    let later : text_leb a b ≡ false = elim (Bool-cases (text_leb a b)) [
      | inl ab ↦ cc (leb_trans a b j ab hb)
      | inr ab ↦ ab
    ] in
    ap (insert a) (insert_front b j l hb)
    ∙ insert_behind a b (j ∷ l) later
    ∙ ap (λ m. b ∷ m) (insert_behind a j l ha)
    ∙ sym (ap (insert b) (insert_behind a j l ha) ∙ insert_front b j (insert a l) hb)

insert_comm : (a b : Text) (l : List Text) → insert a (insert b l) ≡ insert b (insert a l)
unfolding insert
insert_comm a b [] = insert_both a b [] refl refl
insert_comm a b (j ∷ l) = elim (Bool-cases (text_leb a j)) [
  | inl ha ↦ elim (Bool-cases (text_leb b j)) [
    | inl hb ↦
        ap (insert a) (insert_front b j l hb)
        ∙ insert_both a b (j ∷ l) (insert_front a j l ha) (insert_front b j l hb)
        ∙ sym (ap (insert b) (insert_front a j l ha))
    | inr hb ↦ sym (insert_apart b a j l ha hb)
  ]
  | inr ha ↦ elim (Bool-cases (text_leb b j)) [
    | inl hb ↦ insert_apart a b j l hb ha
    | inr hb ↦
        ap (insert a) (insert_behind b j l hb)
        ∙ insert_behind a j (insert b l) ha
        ∙ ap (λ m. j ∷ m) (insert_comm a b l)
        ∙ sym (ap (insert b) (insert_behind a j l ha) ∙ insert_behind b j (insert a l) hb)
  ]
]

pub sort-Perm : (ks js : List Text) → Perm ks js → sort ks ≡ sort js
unfolding sort
sort-Perm ks js p = Perm.foldr-eq (hlevel) insert insert_comm p []

filter_terms-field :
    (fs gs : List (Text × Text)) (ks : List Text)
    → ((k : Text) → field k fs ≡ field k gs)
    → filter_terms fs ks ≡ filter_terms gs ks
unfolding filter_terms
filter_terms-field fs gs [] h = refl
filter_terms-field fs gs (k ∷ ks) h = rw (h k, filter_terms-field fs gs ks h)

-- The text depends on the fields of `filters` alone: two objects with the same keys in any order
-- and the same value for each key give the same expression, or the same error.
pub search_expression-Perm :
    (spec : MetricSpec) (fs gs : List (Text × Text)) (period : ℕ)
    → Perm (keys fs) (keys gs)
    → ((k : Text) → field k fs ≡ field k gs)
    → search_expression spec fs period ≡ search_expression spec gs period
unfolding search_expression
search_expression-Perm spec fs gs period p h =
    rw (sort-Perm (keys fs) (keys gs) p, filter_terms-field fs gs (sort (keys gs)) h)
