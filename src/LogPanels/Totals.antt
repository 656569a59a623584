-- ===== src/LogPanels/Totals.antt =====
-- server/src/http/panels-logs.ts: sums over what is counted by key. Addition is that of counts, which is
-- exact.
pub mod Charts
pub mod Counted
pub mod Buckets
use skills_dashboard.Common.{
  ℕ, zero, suc, ◌+◌, ◌-◌, ◌*◌, ◌/◌, ◌%◌, ◌^◌, ◌≤◌, ◌<◌, min, ◌≡◌, refl, sym, ap, ◌∙◌, subst, ◌≢◌,
  ◌↔◌, ◌⊎◌, inl, inr, Bool, true, false, ◌&&◌, ◌||◌, not, Option, none, some, List, [], ◌∷◌, ◌++◌,
  map, append-nil, append_assoc, arith, ltb, leb, ◌==◌, if◌then◌else◌, Bool-cases, Option-cases,
  length, get_elem?, set, take, drop, replicate, length-append, length-map, length-replicate,
  Listed, All, All-Listed, All-append, Result, ok, err, ◌>>=◌, ◌>>◌, >>=-eq-ok, Result-cases,
}
use skills_dashboard.Text.{Text, text_eq}
use skills_dashboard.Text.Laws.{text_eq-eq, text_eq_refl}
use skills_dashboard.TextMap.{get, put}
use skills_dashboard.Catalog.Search.{text_leb, insert, sort}
use skills_dashboard.LogPanels.{Platform}
use skills_dashboard.LogPanels.Tallies.{or_new}
use skills_dashboard.LogPanels.Pivots.{insert_by, sort_by}

-- Addition as it is on whole numbers that a double holds.
pub record Exact {V : Type 0} (p : Platform V) : Type 0 where
  pub assoc : (a b c : V) → p.plus (p.plus a b) c ≡ p.plus a (p.plus b c)
  pub comm : (a b : V) → p.plus a b ≡ p.plus b a
  pub unit : (a : V) → p.plus p.nought a ≡ a

-- No key of the list is `k`.
abbrev pub Lacks : {A : Type 0} → Text → List (Text × A) → Type 0
Lacks k m = All (λ e. text_eq e.0 k ≡ false) m

-- Each key stands once.
abbrev pub Distinct : {A : Type 0} → List (Text × A) → Type 0
Distinct [] = Unit
Distinct ((k, a) ∷ m) = Lacks k m × Distinct m

put-Lacks :
    {A : Type 0} (k j : Text) (a : A) (m : List (Text × A))
    → text_eq j k ≡ false
    → Lacks k m
    → Lacks k (put j a m)
unfolding put
put-Lacks k j a [] h l = (h, tt)
put-Lacks k j a ((i, b) ∷ m) h (l, ls) = elim (Bool-cases (text_eq i j)) [
  | inl e ↦ rw e (l, ls)
  | inr e ↦ rw e (l, put-Lacks k j a m h ls)
]

text_eq_sym : (a b : Text) → text_eq a b ≡ false → text_eq b a ≡ false
text_eq_sym a b h = elim (Bool-cases (text_eq b a)) [
  | inl e ↦
      let same : text_eq a b ≡ true =
        subst (λ c. text_eq a c ≡ true) (sym (text_eq-eq b a e)) (text_eq_refl a) in
      cc (same, h)
  | inr e ↦ e
]

pub put-Distinct :
    {A : Type 0} (k : Text) (a : A) (m : List (Text × A)) → Distinct m → Distinct (put k a m)
unfolding put
put-Distinct k a [] d = (tt, tt)
put-Distinct k a ((j, b) ∷ m) (l, d) = elim (Bool-cases (text_eq j k)) [
  | inl e ↦ rw e (l, d)
  | inr e ↦ rw e (put-Lacks j k a m (text_eq_sym j k e) l, put-Distinct k a m d)
]

module _ {V : Type 0} (p : Platform V) (exact : Exact p) where
  pub swap_last : (a b c : V) → p.plus (p.plus a b) c ≡ p.plus (p.plus a c) b
  swap_last a b c = exact.assoc a b c ∙ ap (p.plus a) (exact.comm b c) ∙ sym (exact.assoc a c b)

module _ {V : Type 0} (p : Platform V) (exact : Exact p) {B : Type 0} (size : B → V) where
  -- The sum over a list, and over the values of a map.
  pub sum_list : List B → V
  sum_list [] = p.nought
  sum_list (b ∷ bs) = p.plus (size b) (sum_list bs)

  -- Setting a key to what it was and `n` more adds `n` to the sum.
  pub sum_list-put :
      (k : Text) (start b' : B) (n : V) (m : List (Text × B))
      → size start ≡ p.nought
      → size b' ≡ p.plus (size (or_new start (get k m))) n
      → sum_list (map (λ e. e.1) (put k b' m)) ≡ p.plus (sum_list (map (λ e. e.1) m)) n
  unfolding get put sum_list
  sum_list-put k start b' n [] z h = exact.comm _ _ ∙ exact.unit _ ∙ h ∙ ap (λ a. p.plus a n) z
  sum_list-put k start b' n ((j, b) ∷ m) z h = elim (Bool-cases (text_eq j k)) [
    | inl e ↦
        let more : size b' ≡ p.plus (size b) n =
          subst (λ c. size b' ≡ p.plus (size (or_new start (if c then some b else get k m))) n) e
            h in
        let rest : V = sum_list (map (λ e. e.1) m) in
        rw e (ap (λ a. p.plus a rest) more ∙ swap_last p exact (size b) n rest)
    | inr e ↦
        let more : size b' ≡ p.plus (size (or_new start (get k m))) n =
          subst (λ c. size b' ≡ p.plus (size (or_new start (if c then some b else get k m))) n) e
            h in
        rw e (
          ap (p.plus (size b)) (sum_list-put k start b' n m z more)
          ∙ sym (exact.assoc (size b) (sum_list (map (λ e. e.1) m)) n))
  ]

  sum_list-insert_by :
      (leq : B → B → Bool) (b : B) (bs : List B)
      → sum_list (insert_by leq b bs) ≡ p.plus (size b) (sum_list bs)
  unfolding insert_by sum_list
  sum_list-insert_by leq b [] = refl
  sum_list-insert_by leq b (c ∷ bs) = elim (Bool-cases (leq b c)) [
    | inl e ↦ rw e refl
    | inr e ↦ rw e (
        ap (p.plus (size c)) (sum_list-insert_by leq b bs)
        ∙ sym (exact.assoc (size c) (size b) (sum_list bs))
        ∙ ap (λ a. p.plus a (sum_list bs)) (exact.comm (size c) (size b))
        ∙ exact.assoc (size b) (size c) (sum_list bs))
  ]

  -- Sorting keeps the sum.
  pub sum_list-sort_by :
      (leq : B → B → Bool) (bs : List B) → sum_list (sort_by leq bs) ≡ sum_list bs
  unfolding sort_by sum_list
  sum_list-sort_by leq [] = refl
  sum_list-sort_by leq (b ∷ bs) =
      sum_list-insert_by leq b (sort_by leq bs) ∙ ap (p.plus (size b)) (sum_list-sort_by leq bs)

  -- What a key has, nothing where it is missing.
  abbrev pub size_of : Option B → V
  size_of none = p.nought
  size_of (some b) = size b

  abbrev pub at_key : List (Text × B) → Text → V
  at_key m k = size_of (get k m)

  -- The sum over a list of keys.
  pub sum_keys : List (Text × B) → List Text → V
  unfolding get
  sum_keys m [] = p.nought
  sum_keys m (k ∷ ks) = p.plus (at_key m k) (sum_keys m ks)

  sum_keys-insert :
      (m : List (Text × B)) (k : Text) (ks : List Text)
      → sum_keys m (insert k ks) ≡ p.plus (at_key m k) (sum_keys m ks)
  unfolding insert sum_keys
  sum_keys-insert m k [] = refl
  sum_keys-insert m k (j ∷ js) = elim (Bool-cases (text_leb k j)) [
    | inl e ↦ rw e refl
    | inr e ↦ rw e (
        ap (p.plus (at_key m j)) (sum_keys-insert m k js)
        ∙ sym (exact.assoc (at_key m j) (at_key m k) (sum_keys m js))
        ∙ ap (λ a. p.plus a (sum_keys m js)) (exact.comm (at_key m j) (at_key m k))
        ∙ exact.assoc (at_key m k) (at_key m j) (sum_keys m js))
  ]

  sum_keys-sort : (m : List (Text × B)) (ks : List Text) → sum_keys m (sort ks) ≡ sum_keys m ks
  unfolding sort sum_keys
  sum_keys-sort m [] = refl
  sum_keys-sort m (k ∷ ks) =
      sum_keys-insert m k (sort ks) ∙ ap (p.plus (at_key m k)) (sum_keys-sort m ks)

  -- An entry in front does not matter to keys that it does not have.
  sum_keys-Lacks :
      (j : Text) (b : B) (m n : List (Text × B))
      → Lacks j n
      → sum_keys ((j, b) ∷ m) (map (λ e. e.0) n) ≡ sum_keys m (map (λ e. e.0) n)
  unfolding sum_keys get
  sum_keys-Lacks j b m [] l = refl
  sum_keys-Lacks j b m ((k, c) ∷ n) (l, ls) =
      rw (sum_keys, get, text_eq_sym k j l) (ap (p.plus (at_key m k)) (sum_keys-Lacks j b m n ls))

  sum_keys-all :
      (m : List (Text × B))
      → Distinct m
      → sum_keys m (map (λ e. e.0) m) ≡ sum_list (map (λ e. e.1) m)
  unfolding sum_keys sum_list get
  sum_keys-all [] d = refl
  sum_keys-all ((j, b) ∷ m) (l, d) =
      rw (sum_keys, get, text_eq_refl j)
        (ap (p.plus (size b)) (sum_keys-Lacks j b m m l ∙ sum_keys-all m d))

  -- The values in the order of the sorted keys have the sum of all the values.
  pub sum_list-sorted :
      (m : List (Text × B)) (listed : List B)
      → Distinct m
      → sum_list listed ≡ sum_keys m (sort (map (λ e. e.0) m))
      → sum_list listed ≡ sum_list (map (λ e. e.1) m)
  sum_list-sorted m listed d h = h ∙ sum_keys-sort m (map (λ e. e.0) m) ∙ sum_keys-all m d
