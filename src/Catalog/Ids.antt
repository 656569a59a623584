-- ===== src/Catalog/Ids.antt =====
-- server/src/domain/catalog.ts, `queryID`: the identifiers that match results to requests.
use skills_dashboard.Common.{
  ℕ, ◌≡◌, refl, sym, ap, ◌∙◌, inl, inr, Bool, true, ◌&&◌, not, List, [], ◌∷◌, map, arith,
  if◌then◌else◌, Bool-cases, Listed,
}
use skills_dashboard.Text.{Text, text_eq, all, is_alnum, includes}
use skills_dashboard.Text.Laws.{text_eq_refl}
use skills_dashboard.Catalog.{MetricSpec}
use skills_dashboard.Catalog.Specs.{all_metrics}
use skills_dashboard.Catalog.Search.{is_id_char, is_query_id, id_chars, query_id, is_high, is_low}

kept_char : (c : ℕ) → is_id_char (if is_alnum c then c else b'_') ≡ true
kept_char c = ground arith

all-id_chars : (s : Text) → all is_id_char (id_chars s) ≡ true
unfolding id_chars
all-id_chars [] = refl
all-id_chars (c ∷ []) = rw (kept_char c)
all-id_chars (c ∷ d ∷ s) = elim (Bool-cases (is_high c && is_low d)) [
  | inl e ↦ rw (e, all-id_chars s)
  | inr e ↦ rw (e, kept_char c, all-id_chars (d ∷ s))
]

-- `queryID` gives an identifier that CloudWatch accepts for every key, and never falls back on the
-- bare `q`: it is `q` and one character for each of the key.
pub query_id-is_query_id :
    (key : Text) → (is_query_id (query_id key) ≡ true) × (query_id key ≡ b'q' ∷ id_chars key)
unfolding query_id
query_id-is_query_id key = let h = all-id_chars key in (rw (h, h), rw h)

-- No two elements have the same text.
abbrev distinct : {A : Type 0} → (A → Text) → List A → Bool
distinct f [] = true
distinct f (x ∷ xs) = not (includes (map f xs) (f x)) && distinct f xs

includes-map :
    {A : Type 0} (f : A → Text) (xs : List A) (a : A) (t : Text)
    → Listed a xs
    → f a ≡ t
    → includes (map f xs) t ≡ true
unfolding includes
includes-map f [] a t l h = elim l [ ]
includes-map f (x ∷ xs) a t (inl e) h = rw (sym e, h, text_eq_refl t)
includes-map f (x ∷ xs) a t (inr l) h = elim (Bool-cases (text_eq (f x) t)) [
  | inl e ↦ rw e
  | inr e ↦ rw (e, includes-map f xs a t l h)
]

distinct-eq :
    {A : Type 0} (f : A → Text) (xs : List A) (a b : A)
    → distinct f xs ≡ true
    → Listed a xs
    → Listed b xs
    → f a ≡ f b
    → a ≡ b
distinct-eq f [] a b d k _ h = elim k [ ]
distinct-eq f (x ∷ xs) a b d (inl e) (inl k) h = e ∙ sym k
distinct-eq f (x ∷ xs) a b d (inl e) (inr k) h =
    let i = includes-map f xs b (f x) k (sym h ∙ ap f e) in absurd (ground arith)
distinct-eq f (x ∷ xs) a b d (inr e) (inl k) h =
    let i = includes-map f xs a (f x) e (h ∙ ap f k) in absurd (ground arith)
distinct-eq f (x ∷ xs) a b d (inr e) (inr k) h = distinct-eq f xs a b (ground arith) e k h

catalog_distinct : distinct (λ m. query_id m.key) all_metrics ≡ true
unfolding query_id id_chars includes
catalog_distinct = refl

-- Two metrics of the catalog never share an identifier.
pub query_id_unique :
    (a b : MetricSpec)
    → Listed a all_metrics
    → Listed b all_metrics
    → query_id a.key ≡ query_id b.key
    → a ≡ b
query_id_unique a b = distinct-eq (λ m. query_id m.key) all_metrics a b catalog_distinct
