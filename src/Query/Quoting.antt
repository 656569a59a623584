-- ===== src/Query/Quoting.antt =====
-- server/src/domain/query.ts, `quote`, `quoteMeta` and what is built from them: a reader of the query
-- gets back the text that was put in, whatever stands in it.
use skills_dashboard.Common.{
  ℕ, zero, suc, ◌<◌, ◌≡◌, refl, sym, ap, ◌∙◌, subst, ◌≢◌, inl, inr, false, Option, none, some, List,
  [], ◌∷◌, ◌++◌, map, append_assoc, arith, ◌==◌, if◌then◌else◌, Bool-cases, length,
}
use skills_dashboard.Text.{Text, text, is_empty, join}
use skills_dashboard.LogFormat.{LogFormat}
use skills_dashboard.Query.{
  backslash, quote_char, quote, specials, has_char, meta_char, quote_meta, quoted_paths,
  not_in_paths, probes,
}
use mathlib.Core.List.{flat_map}

-- How Logs Insights reads a character after a backslash.
abbrev unescaped : ℕ → ℕ
unescaped c = if c == b'n' then 0x0a else if c == b'r' then 0x0d else c

abbrev pub consed : ℕ → Option (Text × Text) → Option (Text × Text)
consed c none = none
consed c (some (v, rest)) = some (c ∷ v, rest)

-- A string literal after its quotation mark: its value, and what stands behind it.
unfoldable pub read_string : Text → Option (Text × Text)
read_string [] = none
read_string (c ∷ []) = if c == b'\'' then some ([], []) else none
read_string (c ∷ d ∷ s) =
    let plain = consed c (read_string (d ∷ s)) in
    let escape = consed (unescaped d) (read_string s) in
    if c == b'\'' then some ([], d ∷ s) else if c == backslash then escape else plain

unfoldable pub read_literal : Text → Option (Text × Text)
unfolding read_string
read_literal [] = none
read_literal (c ∷ s) = if c == b'\'' then read_string s else none

read_string_end : (rest : Text) → read_string (b'\'' ∷ rest) ≡ some ([], rest)
unfolding read_string
read_string_end [] = refl
read_string_end (c ∷ s) = refl

read_string_plain :
    (c : ℕ) (s : Text)
    → c ≢ b'\''
    → c ≢ backslash
    → s ≢ []
    → read_string (c ∷ s) ≡ consed c (read_string s)
unfolding read_string
read_string_plain c [] h k ne = absurd (ne refl)
read_string_plain c (d ∷ s) h k ne = ground arith

string_body : (s rest : Text) → flat_map quote_char s ++ (b'\'' ∷ rest) ≢ []
unfolding flat_map quote_char
string_body [] rest h = cc
string_body (c ∷ s) rest h = ground arith

read_string-quote_char :
    (c : ℕ) (s : Text) → s ≢ [] → read_string (quote_char c ++ s) ≡ consed c (read_string s)
unfolding read_string quote_char
read_string-quote_char c [] ne = absurd (ne refl)
read_string-quote_char c (d ∷ s) ne = ground arith

read_string-body :
    (s rest : Text) → read_string (flat_map quote_char s ++ (b'\'' ∷ rest)) ≡ some (s, rest)
unfolding flat_map
read_string-body [] rest = read_string_end rest
read_string-body (c ∷ s) rest =
    ap read_string (append_assoc (quote_char c) (flat_map quote_char s) (b'\'' ∷ rest))
    ∙ read_string-quote_char c (flat_map quote_char s ++ (b'\'' ∷ rest)) (string_body s rest)
    ∙ ap (consed c) (read_string-body s rest)

-- Whatever a text holds, reading its literal gives the text back and stops where the literal ends:
-- nothing that is quoted can end the literal early or run into what follows.
pub read_literal-quote : (s rest : Text) → read_literal (quote s ++ rest) ≡ some (s, rest)
unfolding read_literal quote
read_literal-quote s rest =
    ap read_string (append_assoc (flat_map quote_char s) (b'\'' ∷ []) rest)
    ∙ read_string-body s rest

-- A list of literals up to its bracket, on fuel for the literals.
abbrev after_item : (Text → Option (List Text × Text)) → Text → Text → Option (List Text × Text)
after_item more v [] = none
after_item more v (c ∷ []) = if c == b']' then some (v ∷ [], []) else none
after_item more v (c ∷ d ∷ s) =
    if c == b']'
    then some (v ∷ [], d ∷ s)
    else elim (more s) [ none ↦ none | some (vs, rest) ↦ some (v ∷ vs, rest) ]

unfoldable pub read_items : ℕ → Text → Option (List Text × Text)
unfolding read_literal
read_items zero s = none
read_items (suc n) s = elim (read_literal s) [
  | none ↦ none
  | some (v, rest) ↦ after_item (read_items n) v rest
]

-- The paths that are not empty.
abbrev pub nonempty : List Text → List Text
nonempty [] = []
nonempty (p ∷ ps) = if is_empty p then nonempty ps else p ∷ nonempty ps

after_item_end :
    (more : Text → Option (List Text × Text)) (v rest : Text)
    → after_item more v (b']' ∷ rest) ≡ some (v ∷ [], rest)
after_item_end more v [] = refl
after_item_end more v (c ∷ s) = refl

read_items-quote :
    (n : ℕ) (p rest : Text)
    → read_items (suc n) (quote p ++ rest) ≡ after_item (read_items n) p rest
unfolding read_items
read_items-quote n p rest = rw (read_items, read_literal-quote p rest) refl

read_items-join :
    (p : Text) (ps : List Text) (n : ℕ) (rest : Text)
    → length ps < n
    → read_items n (join (text ", ") (map quote (p ∷ ps)) ++ (b']' ∷ rest)) ≡ some (p ∷ ps, rest)
unfolding read_items join
read_items-join p ps zero rest h = elim h [ ]
read_items-join p [] (suc n) rest h =
    read_items-quote n p (b']' ∷ rest) ∙ after_item_end (read_items n) p rest
read_items-join p (q ∷ ps) (suc n) rest h =
    let tail : Text = join (text ", ") (map quote (q ∷ ps)) in
    ap (λ t. read_items (suc n) (t ++ (b']' ∷ rest))) (append_assoc (quote p) (text ", ") tail)
    ∙ ap (read_items (suc n)) (append_assoc (quote p) (text ", " ++ tail) (b']' ∷ rest))
    ∙ read_items-quote n p (text ", " ++ (tail ++ (b']' ∷ rest)))
    ∙ ap
        (λ (o : Option (List Text × Text)). elim o [
          | none ↦ none
          | some (vs, r) ↦ some (p ∷ vs, r)
        ])
        (read_items-join q ps n rest (omega arith))

quoted_paths-nonempty : (ps : List Text) → quoted_paths ps ≡ map quote (nonempty ps)
unfolding quoted_paths
quoted_paths-nonempty [] = refl
quoted_paths-nonempty ([] ∷ ps) = quoted_paths-nonempty ps
quoted_paths-nonempty ((c ∷ p) ∷ ps) = ap (λ qs. quote (c ∷ p) ∷ qs) (quoted_paths-nonempty ps)

abbrev pub probes_start : Text
probes_start = text "| filter not ispresent(path) or path not in ["

probes_of :
    (p : Text) (ps : List Text) (rest : Text)
    → (items : Text) × (not_in_paths (map quote (p ∷ ps)) ++ rest ≡ probes_start ++ items)
      × (read_items (suc (length ps)) items ≡ some (p ∷ ps, text "\n" ++ rest))
unfolding not_in_paths
probes_of p ps rest =
    let body : Text = join (text ", ") (map quote (p ∷ ps)) in
    (
      body ++ (b']' ∷ (text "\n" ++ rest)),
      append_assoc probes_start (body ++ text "]\n") rest
          ∙ ap (λ t. probes_start ++ t) (append_assoc body (text "]\n") rest),
      read_items-join p ps (suc (length ps)) (text "\n" ++ rest) (omega arith),
    )

-- How a filter that excludes paths is read, with the text that follows it.
abbrev pub Excludes : Text → List Text → Text → Type 0
Excludes filter [] rest = filter ≡ []
Excludes filter (p ∷ ps) rest =
    (items : Text) × (filter ++ rest ≡ probes_start ++ items)
    × (read_items (suc (length ps)) items ≡ some (p ∷ ps, text "\n" ++ rest))

Excludes-quote : (ps : List Text) (rest : Text) → Excludes (not_in_paths (map quote ps)) ps rest
unfolding not_in_paths
Excludes-quote [] rest = refl
Excludes-quote (p ∷ ps) rest = probes_of p ps rest

-- The filter of the probe paths, read as a query is read: when no path is left that is not empty, it
-- adds nothing; otherwise its list of literals holds those paths, in their order and no others,
-- whatever characters they are made of, and what follows the filter is untouched.
pub probes-Excludes :
    (f : LogFormat) (rest : Text) → Excludes (probes f) (nonempty f.exclude_paths) rest
unfolding probes
probes-Excludes f rest =
    subst (λ qs. Excludes (not_in_paths qs) (nonempty f.exclude_paths) rest)
      (sym (quoted_paths-nonempty f.exclude_paths)) (Excludes-quote (nonempty f.exclude_paths) rest)

abbrev before : ℕ → Option Text → Option Text
before c none = none
before c (some s) = some (c ∷ s)

-- A regular expression in which every special character is escaped, as a plain text.
unfoldable pub read_meta : Text → Option Text
read_meta [] = some []
read_meta (c ∷ []) = if has_char c specials then none else some (c ∷ [])
read_meta (c ∷ d ∷ s) =
    let plain = before c (read_meta (d ∷ s)) in
    let escape = before d (read_meta s) in
    if c == backslash
    then (if has_char d specials then escape else none)
    else if has_char c specials
    then none
    else plain

read_meta-meta_char : (c : ℕ) (s : Text) → read_meta (meta_char c ++ s) ≡ before c (read_meta s)
unfolding read_meta meta_char
read_meta-meta_char c [] = elim (Bool-cases (has_char c specials)) [
  | inl b ↦ rw b (rw b refl)
  | inr b ↦ rw b (rw b refl)
]
read_meta-meta_char c (d ∷ s) = elim (Bool-cases (has_char c specials)) [
  | inl b ↦ rw b (rw b refl)
  | inr b ↦ let plain : (c == backslash) ≡ false = ground arith in rw b (rw (b, plain) refl)
]

-- The pattern that `quoteMeta` makes stands for the text itself: no character of it is an operator.
pub read_meta-quote_meta : (s : Text) → read_meta (quote_meta s) ≡ some s
unfolding read_meta quote_meta flat_map
read_meta-quote_meta [] = refl
read_meta-quote_meta (c ∷ s) =
    read_meta-meta_char c (quote_meta s) ∙ ap (before c) (read_meta-quote_meta s)
