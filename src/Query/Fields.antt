-- ===== src/Query/Fields.antt =====
-- server/src/domain/query.ts, `field`: the references that may stand in a query, as a grammar.
use skills_dashboard.Common.{
  ℕ, ◌≡◌, refl, ap, ◌↔◌, ◌⊎◌, inl, inr, Bool, true, false, [], ◌∷◌, ◌++◌, arith, ◌==◌, Bool-cases,
  ok,
}
use skills_dashboard.Text.{Text, all}
use skills_dashboard.Query.{is_ident_start, is_ident_char, idents, is_field, field}

-- An identifier.
abbrev pub Ident : Text → Type 0
Ident [] = ⊥
Ident (c ∷ s) = (is_ident_start c ≡ true) × (all is_ident_char s ≡ true)

-- Identifiers with points between them.
pub data Dotted : Text → Type 0 where
  last : (s : Text) → Ident s → Dotted s
  dot : (s t u : Text) → Ident s → Dotted t → u ≡ s ++ (b'.' ∷ t) → Dotted u

-- Dotted identifiers, with or without an `@` before them.
pub data FieldReference (name : Text) : Type 0 where
  plain : Dotted name → FieldReference name
  reserved : (s : Text) → name ≡ b'@' ∷ s → Dotted s → FieldReference name

-- What may follow the first character of an identifier.
abbrev Tail : Text → Type 0
Tail s =
    (all is_ident_char s ≡ true)
    ⊎ ((a : Text) × (t : Text) × (s ≡ a ++ (b'.' ∷ t)) × (all is_ident_char a ≡ true) × Dotted t)

abbrev Shape : Bool → Text → Type 0
Shape true s = Dotted s
Shape false s = Tail s

Dotted-cons : (c : ℕ) (s : Text) → is_ident_start c ≡ true → Tail s → Dotted (c ∷ s)
Dotted-cons c s h (inl a) = last (c ∷ s) (h, a)
Dotted-cons c s h (inr (a, t, e, ia, d)) = dot (c ∷ a) t (c ∷ s) (h, ia) d (ap (λ u. c ∷ u) e)

Tail-cons : (c : ℕ) (s : Text) → is_ident_char c ≡ true → Tail s → Tail (c ∷ s)
Tail-cons c s h (inl a) = inl (ground arith)
Tail-cons c s h (inr (a, t, e, ia, d)) = inr (c ∷ a, t, ap (λ u. c ∷ u) e, ground arith, d)

idents-Shape : (begins : Bool) (s : Text) → idents begins s ≡ true → Shape begins s
unfolding idents
idents-Shape true [] h = cc
idents-Shape false [] h = inl refl
idents-Shape true (c ∷ s) h = Dotted-cons c s (ground arith) (idents-Shape false s (ground arith))
idents-Shape false (c ∷ s) h = elim (Bool-cases (c == b'.')) [
  | inl b ↦ inr ([], s, ground arith, refl, idents-Shape true s (ground arith))
  | inr b ↦ Tail-cons c s (ground arith) (idents-Shape false s (ground arith))
]

idents-all : (a : Text) → all is_ident_char a ≡ true → idents false a ≡ true
unfolding idents
idents-all [] h = refl
idents-all (c ∷ a) h =
    let no_dot : (c == b'.') ≡ false = ground arith in
    let ident : is_ident_char c ≡ true = ground arith in
    rw (ident, no_dot) (idents-all a (ground arith))

idents_dot :
    (a t : Text)
    → all is_ident_char a ≡ true
    → idents true t ≡ true
    → idents false (a ++ (b'.' ∷ t)) ≡ true
unfolding idents
idents_dot [] t h k = ground arith
idents_dot (c ∷ a) t h k =
    let no_dot : (c == b'.') ≡ false = ground arith in
    let ident : is_ident_char c ≡ true = ground arith in
    rw (ident, no_dot) (idents_dot a t (ground arith) k)

Dotted-idents : {s : Text} → Dotted s → idents true s ≡ true
unfolding idents
Dotted-idents (last [] i) = absurd i
Dotted-idents (last (c ∷ s) (h, a)) = ground (arith, idents-all s a)
Dotted-idents (dot [] t u i d e) = absurd i
Dotted-idents (dot (c ∷ s) t u (h, a) d e) =
    rw e (ground (arith, idents_dot s t a (Dotted-idents d)))

field_ok : (name : Text) → is_field name ≡ true → field name ≡ ok name
unfolding field is_field
field_ok [] h = cc
field_ok (c ∷ s) h = rw h refl

ok_is_field : (name : Text) → field name ≡ ok name → is_field name ≡ true
unfolding field
ok_is_field [] h = cc
ok_is_field (c ∷ s) h = elim (Bool-cases (is_field (c ∷ s))) [ inl b ↦ b | inr b ↦ cc (h, b) ]

idents-is_field : (name : Text) → idents true name ≡ true → is_field name ≡ true
unfolding is_field idents
idents-is_field [] h = cc
idents-is_field (c ∷ s) h = let no_at : (c == b'@') ≡ false = ground arith in rw no_at h

is_field-FieldReference : (name : Text) → is_field name ≡ true → FieldReference name
unfolding is_field
is_field-FieldReference [] h = cc
is_field-FieldReference (c ∷ s) h = elim (Bool-cases (c == b'@')) [
  | inl b ↦ reserved s (ground arith) (idents-Shape true s (ground arith))
  | inr b ↦ plain (idents-Shape true (c ∷ s) (ground arith))
]

FieldReference-is_field : {name : Text} → FieldReference name → is_field name ≡ true
unfolding is_field
FieldReference-is_field {name} (plain d) = idents-is_field name (Dotted-idents d)
FieldReference-is_field (reserved s e d) = rw e (Dotted-idents d)

-- A configured name goes into a query, unchanged, exactly when it is a reference: identifiers of ASCII
-- letters, digits and underscores that do not begin with a digit, with points between them and an
-- optional `@` before them. So it holds no space, bar, quotation mark, slash or line end.
pub field_iff : (name : Text) → (field name ≡ ok name) ↔ FieldReference name
field_iff name = (
  λ h. is_field-FieldReference name (ok_is_field name h),
  λ r. field_ok name (FieldReference-is_field r),
)

pub field_gives : (name : Text) → FieldReference name → field name ≡ ok name
field_gives name r = (field_iff name).1 r

-- A call that returns anything has been given a reference.
pub field_returns : (name x : Text) → field name ≡ ok x → FieldReference name
unfolding field
field_returns [] x h = cc
field_returns (c ∷ s) x h = elim (Bool-cases (is_field (c ∷ s))) [
  | inl b ↦ is_field-FieldReference (c ∷ s) b
  | inr b ↦ cc (h, b)
]
