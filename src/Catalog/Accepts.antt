-- ===== src/Catalog/Accepts.antt =====
-- server/src/domain/catalog.ts, `searchExpression`: which requests it refuses.
use skills_dashboard.Common.{
  ℕ, ◌≡◌, refl, sym, subst, ◌↔◌, ◌⊎◌, inl, inr, true, false, Option, none, some, List, [], ◌∷◌,
  ◌++◌, Bool-cases, Listed, ok, >>=-eq-ok,
}
use skills_dashboard.Text.{Text, text, is_empty}
use skills_dashboard.Catalog.{MetricSpec}
use skills_dashboard.Catalog.Search.{
  json_quote, expression, text_leb, is_search_value, insert, sort, keys, field, filter_term,
  filter_terms, search_expression,
}
use skills_dashboard.Catalog.Order.{insert_front, insert_behind}
use skills_dashboard.Catalog.Terms.{search_expression-named, filter_term-ok, search_expression-ok}

-- A value that is left out, or a name and a value that `searchValueRe` accepts.
abbrev pub Embeds : Text → Option Text → Type 0
Embeds k none = Unit
Embeds k (some v) = (v ≡ []) ⊎ ((is_search_value k ≡ true) × (is_search_value v ≡ true))

Listed-insert : (k j : Text) (js : List Text) → Listed k (j ∷ js) → Listed k (insert j js)
unfolding insert
Listed-insert k j [] l = l
Listed-insert k j (i ∷ is) l = elim (Bool-cases (text_leb j i)) [
  | inl e ↦ rw e l
  | inr e ↦ rw e (elim l [
    | inl h ↦ inr (Listed-insert k j is (inl h))
    | inr (inl h) ↦ inl h
    | inr (inr m) ↦ inr (Listed-insert k j is (inr m))
  ])
]

insert-Listed : (k j : Text) (js : List Text) → Listed k (insert j js) → Listed k (j ∷ js)
unfolding insert
insert-Listed k j [] l = l
insert-Listed k j (i ∷ is) l = elim (Bool-cases (text_leb j i)) [
  | inl e ↦ subst (Listed k) (insert_front j i is e) l
  | inr e ↦ elim (subst (Listed k) (insert_behind j i is e) l) [
    | inl h ↦ inr (inl h)
    | inr m ↦ elim (insert-Listed k j is m) [ inl h ↦ inl h | inr n ↦ inr (inr n) ]
  ]
]

Listed-sort : (k : Text) (ks : List Text) → Listed k ks ↔ Listed k (sort ks)
unfolding sort
Listed-sort k [] = (λ l. l, λ l. l)
Listed-sort k (j ∷ ks) =
    let (there, back) = Listed-sort k ks in
    (
      λ l. Listed-insert k j (sort ks) (elim l [ inl h ↦ inl h | inr m ↦ inr (there m) ]),
      λ l. elim (insert-Listed k j (sort ks) l) [ inl h ↦ inl h | inr m ↦ inr (back m) ],
    )

filter_term-Embeds :
    (k : Text) (o : Option Text) (terms : List Text) → filter_term k o ≡ ok terms → Embeds k o
filter_term-Embeds k none terms h = tt
filter_term-Embeds k (some v) terms h = elim (filter_term-ok k v terms h) [
  | inl (e, _) ↦ inl e
  | inr (hk, hv, _) ↦ inr (hk, hv)
]

filter_term_some :
    (k : Text) (o : Option Text) → Embeds k o → (terms : List Text) × (filter_term k o ≡ ok terms)
unfolding filter_term
filter_term_some k none h = ([], refl)
filter_term_some k (some v) (inl e) = ([], rw e)
filter_term_some k (some []) (inr _) = ([], refl)
filter_term_some k (some (c ∷ v)) (inr (hk, hv)) =
    ((k ++ text "=" ++ json_quote (c ∷ v)) ∷ [], rw (hk, hv))

filter_terms_cons :
    (fs : List (Text × Text)) (j : Text) (ks : List Text)
    → ((terms : List Text) × (filter_terms fs (j ∷ ks) ≡ ok terms))
      ↔ (Embeds j (field j fs) × ((rest : List Text) × (filter_terms fs ks ≡ ok rest)))
unfolding filter_terms
filter_terms_cons fs j ks = (
  λ (terms, h).
      let (term, ht, hr) = >>=-eq-ok (filter_term j (field j fs)) _ h in
      let (rest, hs, _) = >>=-eq-ok (filter_terms fs ks) _ hr in
      (filter_term-Embeds j (field j fs) term ht, (rest, hs)),
  λ (e, (rest, hs)).
      let (term, ht) = filter_term_some j (field j fs) e in (term ++ rest, rw (ht, hs)),
)

filter_terms_iff :
    (fs : List (Text × Text)) (ks : List Text)
    → ((terms : List Text) × (filter_terms fs ks ≡ ok terms))
      ↔ ((k : Text) → Listed k ks → Embeds k (field k fs))
unfolding filter_terms
filter_terms_iff fs [] = (λ _ k l. absurd l, λ _. ([], refl))
filter_terms_iff fs (j ∷ ks) =
    let (split, unite) = filter_terms_cons fs j ks in
    let (there, back) = filter_terms_iff fs ks in
    (
      λ h k l. elim l [
        | inl e ↦ subst (λ i. Embeds i (field i fs)) (sym e) (split h).0
        | inr m ↦ there (split h).1 k m
      ],
      λ h. unite (h j (inl refl), back (λ k m. h k (inr m))),
    )

-- `searchExpression` returns a text exactly when the metric has a namespace and a name, and every
-- filter that has a value has a name and a value of characters that can stand in the expression.
pub search_expression_iff :
    (spec : MetricSpec) (fs : List (Text × Text)) (period : ℕ)
    → ((t : Text) × (search_expression spec fs period ≡ ok t)) ↔ (
        (is_empty spec.namespace ≡ false)
        × (is_empty spec.metric_name ≡ false)
        × ((k : Text) → Listed k (keys fs) → Embeds k (field k fs)))
unfolding search_expression
search_expression_iff spec fs period =
    let (there, back) = filter_terms_iff fs (sort (keys fs)) in
    (
      λ (t, h).
          let (terms, ht, _) = search_expression-ok spec fs period t h in
          let (n, m) = search_expression-named spec fs period t h in
          (n, m, λ k l. there (terms, ht) k ((Listed-sort k (keys fs)).0 l)),
      λ (n, m, h).
          let (terms, ht) = back (λ k l. h k ((Listed-sort k (keys fs)).1 l)) in
          (expression spec terms period, rw (n, m, ht)),
    )
