-- ===== src/Catalog/Terms.antt =====
-- server/src/domain/catalog.ts, `searchExpression`: the terms that it makes of `filters`, one stage
-- at a time.
use skills_dashboard.Catalog.Search.{not_embeddable}
use skills_dashboard.Common.{
  ℕ, ◌<◌, ◌≡◌, refl, sym, ◌∙◌, subst, ◌≢◌, ◌⊎◌, inl, inr, Bool, true, false, ◌&&◌, some, List, [],
  ◌∷◌, ◌++◌, arith, if◌then◌else◌, Bool-cases, ok, err, ◌>>=◌, >>=-eq-ok,
}
use skills_dashboard.Text.{Text, text, is_empty, all}
use skills_dashboard.Catalog.{MetricSpec}
use skills_dashboard.Catalog.Search.{
  is_search_char, is_search_value, is_high, is_low, json_char, json_chars, json_quote, sort, keys,
  filter_term, filter_terms, expression, search_expression,
}

search_char-plain :
    (c : ℕ) → is_search_char c ≡ true → (c < 128) × (31 < c) × (c ≢ b'"') × (c ≢ b'\\')
search_char-plain c h = ground arith

plain_quoted : (c : ℕ) → c < 128 → 31 < c → c ≢ b'"' → c ≢ b'\\' → json_char c ≡ c ∷ []
plain_quoted c h k m n = ground arith

plain_surrogate : (c : ℕ) → c < 128 → (is_high c ≡ false) × (is_low c ≡ false)
plain_surrogate c h = ground arith

pub and_both : (a b : Bool) → (a && b) ≡ true → (a ≡ true) × (b ≡ true)
and_both true b h = (refl, h)
and_both false b h = cc

-- `JSON.stringify` writes a character that `searchValueRe` accepts as it is.
search_char-verbatim :
    (c : ℕ)
    → is_search_char c ≡ true
    → (is_high c ≡ false) × (is_low c ≡ false) × (json_char c ≡ c ∷ [])
search_char-verbatim c h =
    let (k, l, m, n) = search_char-plain c h in
    let (high, low) = plain_surrogate c k in (high, low, plain_quoted c k l m n)

pub json_chars-search_value : (s : Text) → all is_search_char s ≡ true → json_chars s ≡ s
unfolding json_chars
json_chars-search_value [] h = refl
json_chars-search_value (c ∷ []) h =
    let (high, low, same) = search_char-verbatim c (and_both _ _ h).0 in rw (high, low, same)
json_chars-search_value (c ∷ d ∷ s) h =
    let (hc, hs) = and_both (is_search_char c) _ h in
    let (high, low, same) = search_char-verbatim c hc in
    rw (high, low, same, json_chars-search_value (d ∷ s) hs)

-- A term that is pushed is made of two texts that `searchValueRe` accepts.
pub filter_term-ok :
    (k v : Text) (terms : List Text)
    → filter_term k (some v) ≡ ok terms
    → ((v ≡ []) × (terms ≡ []))
      ⊎ ((is_search_value k ≡ true)
          × (is_search_value v ≡ true)
          × (terms ≡ (k ++ text "=" ++ json_quote v) ∷ []))
unfolding filter_term
filter_term-ok k [] terms h = inl (refl, cc)
filter_term-ok k (c ∷ v) terms h =
    elim (Bool-cases (is_search_value k && is_search_value (c ∷ v))) [
      | inl e ↦
          let (hk, hv) = and_both (is_search_value k) _ e in
          inr (
            hk,
            hv,
            cc (
                subst
                  (λ b.
                    (if b
                      then ok ((k ++ text "=" ++ json_quote (c ∷ v)) ∷ [])
                      else err (not_embeddable k (c ∷ v)))
                    ≡ ok terms)
                  e h),
          )
      | inr e ↦ cc (
          subst
            (λ b.
              (if b
                then ok ((k ++ text "=" ++ json_quote (c ∷ v)) ∷ [])
                else err (not_embeddable k (c ∷ v)))
              ≡ ok terms)
            e h)
    ]

pub all_of_search_value : (s : Text) → is_search_value s ≡ true → all is_search_char s ≡ true
all_of_search_value s h = (and_both _ (all is_search_char s) h).1

-- A metric with no namespace or no name has no expression.
pub search_expression-named :
    (spec : MetricSpec) (fs : List (Text × Text)) (period : ℕ) (t : Text)
    → search_expression spec fs period ≡ ok t
    → (is_empty spec.namespace ≡ false) × (is_empty spec.metric_name ≡ false)
unfolding search_expression
search_expression-named spec fs period t h = ground arith

-- What `searchExpression` returns, in its two stages.
pub search_expression-ok :
    (spec : MetricSpec) (fs : List (Text × Text)) (period : ℕ) (t : Text)
    → search_expression spec fs period ≡ ok t
    → (terms : List Text) × (filter_terms fs (sort (keys fs)) ≡ ok terms)
      × (expression spec terms period ≡ t)
unfolding search_expression
search_expression-ok spec fs period t h =
    let (n, m) = search_expression-named spec fs period t h in
    let chain : (filter_terms fs (sort (keys fs)) >>= λ terms. ok (expression spec terms period))
        ≡ ok t =
      sym (rw (n, m) refl) ∙ h in
    let (terms, ht, he) = >>=-eq-ok (filter_terms fs (sort (keys fs))) _ chain in (terms, ht, cc)
