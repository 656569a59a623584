-- ===== src/Config/Dimension.antt =====
-- server/src/config/config.ts, `albDimensionRe`: the texts that it matches.
use skills_dashboard.Common.{
  ◌≡◌, refl, sym, ap, ◌∙◌, ◌↔◌, inl, inr, Bool, true, false, ◌&&◌, not, [], ◌∷◌, ◌++◌, arith, ◌==◌,
  Bool-cases, drop, length, ℕ,
}
use skills_dashboard.Text.{Text, text, is_empty, all, starts_with, span}
use skills_dashboard.Config.{is_alb_dimension, is_hex}

starts_with-drop : (p s : Text) → starts_with p s ≡ true → s ≡ p ++ drop (length p) s
unfolding starts_with
starts_with-drop [] s h = refl
starts_with-drop (c ∷ p) [] h = cc
starts_with-drop (c ∷ p) (d ∷ s) h =
    let same : c ≡ d = ground arith in
    let rest = starts_with-drop p s (ground arith) in
    ap (λ l. d ∷ l) rest ∙ ap (λ x. x ∷ (p ++ drop (length p) s)) (sym same)

starts_with-append : (p s : Text) → starts_with p (p ++ s) ≡ true
unfolding starts_with
starts_with-append [] s = refl
starts_with-append (c ∷ p) s = let rest = starts_with-append p s in ground arith

module _ (p : ℕ → Bool) where
  span-parts : (s : Text) → s ≡ (span p s).0 ++ (span p s).1
  unfolding span
  span-parts [] = refl
  span-parts (c ∷ s) = elim (Bool-cases (p c)) [
    | inl e ↦ rw e (ap (λ l. c ∷ l) (span-parts s))
    | inr e ↦ rw e
  ]

  all-span : (s : Text) → all p (span p s).0 ≡ true
  unfolding span
  all-span [] = refl
  all-span (c ∷ s) = elim (Bool-cases (p c)) [ inl e ↦ rw (e, e) (all-span s) | inr e ↦ rw e ]

  span-append :
      (a : Text) (c : ℕ) (s : Text)
      → all p a ≡ true
      → p c ≡ false
      → span p (a ++ c ∷ s) ≡ (a, c ∷ s)
  unfolding span
  span-append [] c s h e = rw e
  span-append (d ∷ a) c s h e =
      let hit : p d ≡ true = ground arith in
      let rest = span-append a c s (ground arith) e in rw (hit, rest)

abbrev no_slash : ℕ → Bool
no_slash c = not (c == b'/')

-- `app/`, a name without a slash, a slash and a hexadecimal number.
abbrev pub Dimension : Text → Type 0
Dimension s =
    (name : Text) × (id : Text) × (s ≡ text "app/" ++ (name ++ b'/' ∷ id))
    × (is_empty name ≡ false)
    × (all no_slash name ≡ true)
    × (is_empty id ≡ false)
    × (all is_hex id ≡ true)

all_five :
    (a b c d e : Bool)
    → (a && not b && c && not d && e) ≡ true
    → (a ≡ true) × (b ≡ false) × (c ≡ true) × (d ≡ false) × (e ≡ true)
all_five true false true false true h = (refl, refl, refl, refl, refl)
all_five true false true false false h = cc
all_five true false true true e h = cc
all_five true false false d e h = cc
all_five true true c d e h = cc
all_five false b c d e h = cc

tail_of : (s : Text) → starts_with (text "/") s ≡ true → s ≡ b'/' ∷ drop 1 s
tail_of s h = starts_with-drop (text "/") s h

pub is_alb_dimension_iff : (s : Text) → (is_alb_dimension s ≡ true) ↔ Dimension s
unfolding is_alb_dimension
is_alb_dimension_iff s = (
  λ h.
      let rest = drop 4 s in
      let found = span no_slash rest in
      let id = drop 1 found.1 in
      let (opens, named, slash, numbered, hex) =
        all_five (starts_with (text "app/") s) (is_empty found.0) (starts_with (text "/") found.1)
          (is_empty id) (all is_hex id) h in
      (
        found.0,
        id,
        starts_with-drop (text "app/") s opens
            ∙ ap (λ l. text "app/" ++ l)
                (span-parts no_slash rest ∙ ap (λ l. found.0 ++ l) (tail_of found.1 slash)),
        named,
        all-span no_slash rest,
        numbered,
        hex,
      ),
  λ (name, id, e, named, plain, numbered, hex).
      let cut : span no_slash (drop 4 s) ≡ (name, b'/' ∷ id) =
        ap (λ l. span no_slash (drop 4 l)) e ∙ span-append no_slash name b'/' id plain refl in
      let opens : starts_with (text "app/") s ≡ true =
        ap (starts_with (text "app/")) e ∙ starts_with-append (text "app/") (name ++ b'/' ∷ id) in
      let slash : starts_with (text "/") (b'/' ∷ id) ≡ true = starts_with-append (text "/") id in
      rw (cut, opens, named, slash, numbered, hex),
)
