-- ===== src/Env/Files.antt =====
-- server/src/config/env.ts, `loadEnvFile`: a file of assignments is read as the map that they make.
use skills_dashboard.Common.{
  ℕ, ◌+◌, ◌≡◌, refl, sym, ap, ◌∙◌, subst, inl, inr, true, false, Option, none, some, List, [], ◌∷◌,
  ◌++◌, append_assoc, arith, ◌==◌, if◌then◌else◌, Bool-cases, All, All-append, ok,
}
use skills_dashboard.Text.{Text, text_eq, is_empty, trim}
use skills_dashboard.Text.Laws.{text_eq-eq, text_eq_refl}
use skills_dashboard.TextMap.{get, put, get-put_self, get-put_ne}
use skills_dashboard.Env.{
  starts_line, split_lines, cons_first, parse_env_line, parse_trimmed, add_lines, FileText, content,
  load_env_file,
}
use skills_dashboard.Env.Lines.{
  write_char, write_value, write_line, is_name_char, IsName, parse_env_line-write_line,
}
use mathlib.Core.List.{flat_map}

-- A line for each assignment.
unfoldable pub write_file : List (Text × Text) → Text
unfolding write_line
write_file [] = []
write_file ((name, v) ∷ ps) = write_line name v ++ (0x0a ∷ write_file ps)

-- The assignments made one after the other.
unfoldable pub put_all : List (Text × Text) → List (Text × Text) → List (Text × Text)
unfolding put
put_all [] out = out
put_all ((name, v) ∷ ps) out = put_all ps (put name v out)

abbrev pub newer : Option Text → Option Text → Option Text
newer (some w) before = some w
newer none before = before

-- The last value that a name is given.
abbrev pub newest : Text → List (Text × Text) → Option Text
newest k [] = none
newest k ((name, v) ∷ ps) = newer (newest k ps) (if text_eq name k then some v else none)

abbrev NotEnd : ℕ → Type 0
NotEnd c = (c == 0x0a) ≡ false

within_line :
    (c : ℕ) (s : Text)
    → NotEnd c
    → starts_line s ≡ false
    → split_lines (c ∷ s) ≡ cons_first c (split_lines s)
unfolding split_lines
within_line c s h e = rw (h, e) refl

split_line :
    (m rest : Text)
    → All NotEnd m
    → split_lines (m ++ (b'"' ∷ 0x0a ∷ rest)) ≡ (m ++ (b'"' ∷ [])) ∷ split_lines rest
split_line [] rest h = unfold split_lines in refl
split_line (c ∷ []) rest (h, hs) =
    within_line c (b'"' ∷ 0x0a ∷ rest) h refl ∙ ap (cons_first c) (split_line [] rest tt)
split_line (c ∷ d ∷ m) rest (h, (k, hs)) =
    within_line c (d ∷ (m ++ (b'"' ∷ 0x0a ∷ rest))) h k
    ∙ ap (cons_first c) (split_line (d ∷ m) rest (k, hs))

write_char-NotEnd : (c : ℕ) → All NotEnd (write_char c)
unfolding write_char
write_char-NotEnd c = ground arith

write_value-NotEnd : (v : Text) → All NotEnd (write_value v)
unfolding write_value flat_map
write_value-NotEnd [] = tt
write_value-NotEnd (c ∷ v) =
    All-append NotEnd (write_char c) (write_value v) (write_char-NotEnd c) (write_value-NotEnd v)

name-NotEnd : (s : Text) → All (λ c. is_name_char c ≡ true) s → All NotEnd s
name-NotEnd [] h = tt
name-NotEnd (c ∷ s) (h, hs) = (ground arith, name-NotEnd s hs)

split_lines-write_line :
    (name v rest : Text)
    → IsName name
    → split_lines (write_line name v ++ (0x0a ∷ rest)) ≡ write_line name v ∷ split_lines rest
unfolding write_line
split_lines-write_line name v rest (_, h) =
    let m : Text = name ++ (b'=' ∷ b'"' ∷ write_value v) in
    let whole : m ++ (b'"' ∷ []) ≡ write_line name v =
      append_assoc name (b'=' ∷ b'"' ∷ write_value v) (b'"' ∷ []) in
    let shifted : write_line name v ++ (0x0a ∷ rest) ≡ m ++ (b'"' ∷ 0x0a ∷ rest) =
      ap (λ t. t ++ (0x0a ∷ rest)) (sym whole) ∙ append_assoc m (b'"' ∷ []) (0x0a ∷ rest) in
    ap split_lines shifted
    ∙ split_line m rest (
        All-append NotEnd name (b'=' ∷ b'"' ∷ write_value v) (name-NotEnd name h)
          (refl, (refl, write_value-NotEnd v)))
    ∙ ap (λ l. l ∷ split_lines rest) whole

abbrev pub Named : Text × Text → Type 0
Named p = IsName p.0

nothing_read : (n : ℕ) (out : List (Text × Text)) → add_lines n (split_lines []) out ≡ ok out
unfolding add_lines split_lines parse_env_line parse_trimmed trim
nothing_read n out = refl

add_lines-write_file :
    (ps : List (Text × Text)) (n : ℕ) (out : List (Text × Text))
    → All Named ps
    → add_lines n (split_lines (write_file ps)) out ≡ ok (put_all ps out)
unfolding write_file put_all add_lines
add_lines-write_file [] n out h = nothing_read n out
add_lines-write_file ((name, v) ∷ ps) n out (h, hs) =
    rw (split_lines-write_line name v (write_file ps) h) (
      rw (add_lines, parse_env_line-write_line name v h, h.0)
        (add_lines-write_file ps (n + 1) (put name v out) hs))

pub load_env_file-put_all :
    (read : Text → FileText) (path : Text) (ps : List (Text × Text))
    → is_empty path ≡ false
    → read path ≡ content (write_file ps)
    → All Named ps
    → load_env_file read path ≡ ok (put_all ps [])
unfolding load_env_file
load_env_file-put_all read path ps e found h =
    rw (load_env_file, e, found) (add_lines-write_file ps 1 [] h)

merged :
    (k : Text) (o : Option Text) (name v : Text) (out : List (Text × Text))
    → newer o (get k (put name v out))
      ≡ newer (newer o (if text_eq name k then some v else none)) (get k out)
merged k (some w) name v out = refl
merged k none name v out = elim (Bool-cases (text_eq name k)) [
  | inl b ↦
      rw b (
        subst (λ j. get j (put name v out) ≡ some v) (text_eq-eq name k b)
          (get-put_self name v out))
  | inr b ↦ rw b (
      get-put_ne name k v out (λ same.
        let equal : text_eq name k ≡ true =
          subst (λ j. text_eq name j ≡ true) same (text_eq_refl name) in
        cc (equal, b)))
]

get-put_all :
    (k : Text) (ps out : List (Text × Text))
    → get k (put_all ps out) ≡ newer (newest k ps) (get k out)
unfolding put_all
get-put_all k [] out = refl
get-put_all k ((name, v) ∷ ps) out =
    get-put_all k ps (put name v out) ∙ merged k (newest k ps) name v out

closed : (o : Option Text) → newer o none ≡ o
closed (some w) = refl
closed none = refl

-- A file with a line for each assignment, the values between double quotation marks, is read without an
-- error, and each name then has the last value that it was given; a name that no line mentions has none.
pub load_env_file-write_file :
    (read : Text → FileText) (path : Text) (ps : List (Text × Text))
    → is_empty path ≡ false
    → read path ≡ content (write_file ps)
    → All Named ps
    → (vals : List (Text × Text)) × (load_env_file read path ≡ ok vals)
      × ((k : Text) → get k vals ≡ newest k ps)
unfolding get
load_env_file-write_file read path ps e found h = (
  put_all ps [],
  load_env_file-put_all read path ps e found h,
  λ k. get-put_all k ps [] ∙ closed (newest k ps),
)
