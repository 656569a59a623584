-- ===== src/Catalog/Quoting.antt =====
-- server/src/domain/catalog.ts, `searchExpression`: what a dimension value can do to the text that
-- it is embedded in.
use skills_dashboard.Common.{map-append}
use skills_dashboard.Common.{
  ℕ, ◌+◌, ◌*◌, ◌≡◌, refl, sym, ap, ◌∙◌, inl, inr, true, false, Option, none, some, List, [], map,
  length, ◌∷◌, ◌++◌, arith, ◌==◌, if◌then◌else◌, Bool-cases, All, All-append, ok, >>=-eq-ok,
}
use skills_dashboard.Text.{Text, text, all, join}
use skills_dashboard.Text.Decimal.{show}
use skills_dashboard.Catalog.Terms.{
  json_chars-search_value, all_of_search_value, and_both, filter_term-ok, search_expression-ok,
}
use skills_dashboard.Catalog.{MetricSpec}
use skills_dashboard.Catalog.Search.{
  is_search_char, json_quote, sort, keys, field, filter_term, filter_terms, expression,
  search_expression,
}

-- How often a character stands in a text.
unfoldable pub occurrences : ℕ → Text → ℕ
occurrences c [] = 0
occurrences c (d ∷ s) = (if d == c then 1 else 0) + occurrences c s

occurrences-append :
    (c : ℕ) (s t : Text) → occurrences c (s ++ t) ≡ occurrences c s + occurrences c t
unfolding occurrences
occurrences-append c [] t = omega arith
occurrences-append c (d ∷ s) t = let h = occurrences-append c s t in ground (arith, h)

-- A dimension and its value, as they stand in an expression: with the value between two quotes.
abbrev pub closed : Text × Text → Text
closed (k, v) = k ++ text "=" ++ (b'"' ∷ v ++ text "\"")

-- A dimension and its value that consist of characters that may stand in a search value.
abbrev pub Searchable : Text × Text → Type 0
Searchable (k, v) = (all is_search_char k ≡ true) × (all is_search_char v ≡ true)

abbrev pub Closes : List (Text × Text) → List Text → Type 0
Closes fields terms = (terms ≡ map closed fields) × All Searchable fields

-- What a field adds.
filter_term-Closes :
    (k : Text) (o : Option Text) (terms : List Text)
    → filter_term k o ≡ ok terms
    → (fields : List (Text × Text)) × Closes fields terms
unfolding filter_term json_quote
filter_term-Closes k none terms h = let none_pushed : terms ≡ [] = cc in ([], (none_pushed, tt))
filter_term-Closes k (some v) terms h = elim (filter_term-ok k v terms h) [
  | inl (_, e) ↦ ([], (e, tt))
  | inr (hk, hv, e) ↦
      let vv = all_of_search_value v hv in
      let quoted : k ++ text "=" ++ json_quote v ≡ closed (k, v) =
        rw (json_chars-search_value v vv) in
      ((k, v) ∷ [], (e ∙ ap (λ t. t ∷ []) quoted, ((all_of_search_value k hk, vv), tt)))
]

filter_terms-Closes :
    (fs : List (Text × Text)) (ks terms : List Text)
    → filter_terms fs ks ≡ ok terms
    → (fields : List (Text × Text)) × Closes fields terms
unfolding filter_terms
filter_terms-Closes fs [] terms h = let none_pushed : terms ≡ [] = cc in ([], (none_pushed, tt))
filter_terms-Closes fs (k ∷ ks) terms h =
    let (term, ht, hr) = >>=-eq-ok (filter_term k (field k fs)) _ h in
    let (rest, hs, he) = >>=-eq-ok (filter_terms fs ks) _ hr in
    let same : term ++ rest ≡ terms = cc in
    let (one, (e, v)) = filter_term-Closes k (field k fs) term ht in
    let (others, (e', v')) = filter_terms-Closes fs ks rest hs in
    (
      one ++ others,
      (
        sym same
            ∙ ap (λ t. t ++ rest) e
            ∙ ap (λ t. map closed one ++ t) e'
            ∙ sym (map-append closed one others),
        All-append Searchable one others v v',
      ),
    )

-- A character that no dimension value can hold.
module _ (c : ℕ) (foreign : is_search_char c ≡ false) where
  occurrences-search_value : (s : Text) → all is_search_char s ≡ true → occurrences c s ≡ 0
  unfolding occurrences
  occurrences-search_value [] h = refl
  occurrences-search_value (d ∷ s) h =
      let (hd, hs) = and_both (is_search_char d) _ h in
      let differs : (d == c) ≡ false = elim (Bool-cases (d == c)) [
        | inl e ↦ let same : d ≡ c = ground arith in cc
        | inr e ↦ e
      ] in
      rw (differs, occurrences-search_value s hs)

  occurrences-closed :
      (f : Text × Text) → Searchable f → occurrences c (closed f) ≡ occurrences c (text "\"\"")
  occurrences-closed (k, v) (hk, hv) =
      let quote = text "\"" in
      let name = occurrences-search_value k hk in
      let value = occurrences-search_value v hv in
      let equals : occurrences c (text "=") ≡ 0 = occurrences-search_value (text "=") refl in
      let inside = b'"' ∷ v ++ quote in
      let a = occurrences-append c (k ++ text "=") inside in
      let b = occurrences-append c k (text "=") in
      let d : occurrences c inside ≡ occurrences c quote + occurrences c (v ++ quote) =
        occurrences-append c quote (v ++ quote) in
      let e : occurrences c (text "\"\"") ≡ occurrences c quote + occurrences c quote =
        occurrences-append c quote quote in
      let g = occurrences-append c v quote in omega (arith, a, b, d, e, g, name, value, equals)

  occurrences-join :
      (first : Text) (fields : List (Text × Text))
      → All Searchable fields
      → occurrences c (join (text " ") (first ∷ map closed fields))
        ≡ occurrences c first + length fields * occurrences c (text "\"\"")
  unfolding join
  occurrences-join first [] h = omega arith
  occurrences-join first (f ∷ fields) (hf, hs) =
      let space : occurrences c (text " ") ≡ 0 = occurrences-search_value (text " ") refl in
      let rest = occurrences-join (closed f) fields hs in
      let a : occurrences c (join (text " ") (first ∷ closed f ∷ map closed fields))
          ≡ occurrences c (first ++ text " ")
            + occurrences c (join (text " ") (closed f ∷ map closed fields)) =
        occurrences-append c (first ++ text " ") (join (text " ") (closed f ∷ map closed fields)) in
      let b = occurrences-append c first (text " ") in
      grind (arith, a, b, rest, space, occurrences-closed f hf)

-- What stands around a text does not matter to how two texts compare.
occurrences_before :
    (c n : ℕ) (s a b : Text)
    → occurrences c a ≡ occurrences c b + n
    → occurrences c (a ++ s) ≡ occurrences c (b ++ s) + n
occurrences_before c n s a b h =
    omega (arith, occurrences-append c a s, occurrences-append c b s, h)

occurrences_after :
    (c n : ℕ) (p a b : Text)
    → occurrences c a ≡ occurrences c b + n
    → occurrences c (p ++ a) ≡ occurrences c (p ++ b) + n
occurrences_after c n p a b h = omega (arith, occurrences-append c p a, occurrences-append c p b, h)

occurrences-expression :
    (c : ℕ) (spec : MetricSpec) (fields : List (Text × Text)) (period : ℕ)
    → is_search_char c ≡ false
    → All Searchable fields
    → occurrences c (expression spec (map closed fields) period)
      ≡ occurrences c (expression spec [] period) + length fields * occurrences c (text "\"\"")
unfolding expression
occurrences-expression c spec fields period foreign h =
    let n = length fields * occurrences c (text "\"\"") in
    let name = text "MetricName=" ++ json_quote spec.metric_name in
    let opening =
      text "SEARCH('{" ++ join (text ",") (spec.namespace ∷ spec.dimensions) ++ text "} " in
    let body = occurrences_after c n opening _ _ (occurrences-join c foreign name fields h) in
    let stat =
      occurrences_before c n spec.stat _ _ (occurrences_before c n (text "', '") _ _ body) in
    let period_text =
      occurrences_before c n (show period) _ _ (occurrences_before c n (text "', ") _ _ stat) in
    occurrences_before c n (text ")") _ _ period_text

-- A dimension value cannot break out of the text that it is embedded in. However `filters` is
-- filled, an expression that is accepted is the one for a list of dimensions, each written as its
-- name, an equals sign and its value between two double quotes, and neither the name nor the value
-- has a character that `searchValueRe` does not accept. A quote, a bracket, a comma, a backslash or
-- any other such character stands in it as often as with no filter at all, and two more times for
-- each of these dimensions if it is the double quote.
pub search_expression-occurrences :
    (c : ℕ) (spec : MetricSpec) (fs : List (Text × Text)) (period : ℕ) (t : Text)
    → is_search_char c ≡ false
    → search_expression spec fs period ≡ ok t
    → (fields : List (Text × Text)) × (t ≡ expression spec (map closed fields) period)
      × All Searchable fields
      × (occurrences c t
          ≡ occurrences c (expression spec [] period) + length fields * occurrences c (text "\"\""))
search_expression-occurrences c spec fs period t foreign h =
    let (terms, ht, he) = search_expression-ok spec fs period t h in
    let (fields, (e, v)) = filter_terms-Closes fs (sort (keys fs)) terms ht in
    let built : t ≡ expression spec (map closed fields) period =
      sym he ∙ ap (λ l. expression spec l period) e in
    (
      fields,
      built,
      v,
      ap (occurrences c) built ∙ occurrences-expression c spec fields period foreign v,
    )
