-- ===== src/LogPanels/Totals/Counted.antt =====
-- server/src/http/panels-logs.ts, the loops of `pivotStatusPaths` and `pivotWAFActions`: what a fold of
-- the rows by key counts.
use skills_dashboard.Common.{false}
use skills_dashboard.Common.{
  ◌≡◌, refl, sym, ap, ◌∙◌, inl, inr, Bool, List, [], ◌∷◌, map, if◌then◌else◌, Bool-cases,
  Option-cases, All,
}
use skills_dashboard.Text.{Text, text, is_empty}
use skills_dashboard.TextMap.{get}
use skills_dashboard.LogPanels.{Platform, LogRow, cell, cell_or}
use skills_dashboard.LogPanels.Rows.{row_float}
use skills_dashboard.LogPanels.Tallies.{or_new}
use skills_dashboard.LogPanels.Status.{status_code}
use skills_dashboard.LogPanels.Pivots.{insert_by, sort_by, pivot_row, pivot_rows}
use skills_dashboard.LogPanels.Fits.{Values, put-Values, or_new-Values}
use skills_dashboard.LogPanels.Totals.{Exact, sum_list, sum_list-put}

-- The number of a row, nothing where it has none that can be read.
abbrev pub number_of : {V : Type 0} → Platform V → LogRow → V
number_of p row = or_new p.nought (row_float p row (text "n"))

-- The sum of the numbers of all rows.
abbrev pub numbers : {V : Type 0} → Platform V → List LogRow → V
numbers p [] = p.nought
numbers p (row ∷ rows) = p.plus (number_of p row) (numbers p rows)

-- The rows whose key is empty.
abbrev pub without_key : (LogRow → Text) → List LogRow → List LogRow
without_key key_of [] = []
without_key key_of (row ∷ rows) =
    let rest = without_key key_of rows in if is_empty (key_of row) then row ∷ rest else rest

-- What a fold over keys counts.
abbrev counted_one : {V : Type 0} → Platform V → (LogRow → Text) → LogRow → V
counted_one p key_of row = if is_empty (key_of row) then p.nought else number_of p row

abbrev pub counted : {V : Type 0} → Platform V → (LogRow → Text) → List LogRow → V
counted p key_of [] = p.nought
counted p key_of (row ∷ rows) = p.plus (counted_one p key_of row) (counted p key_of rows)

module _ {V : Type 0} (p : Platform V) (exact : Exact p) where
  -- The numbers of the rows are those that are counted and those of the rows without a key.
  pub counted-without_key :
      (key_of : LogRow → Text) (rows : List LogRow)
      → p.plus (counted p key_of rows) (numbers p (without_key key_of rows)) ≡ numbers p rows
  counted-without_key key_of [] = exact.unit p.nought
  counted-without_key key_of (row ∷ rows) =
      let c : V = counted p key_of rows in
      let n : V = numbers p (without_key key_of rows) in
      elim (Bool-cases (is_empty (key_of row))) [
        | inl e ↦
            rw (counted, e)
              (ap (λ a. p.plus a (p.plus (number_of p row) n)) (exact.unit c)
                ∙ sym (exact.assoc c (number_of p row) n)
                ∙ ap (λ a. p.plus a n) (exact.comm c (number_of p row))
                ∙ exact.assoc (number_of p row) c n
                ∙ ap (p.plus (number_of p row)) (counted-without_key key_of rows))
        | inr e ↦
            rw (counted, e)
              (exact.assoc (number_of p row) c n
                ∙ ap (p.plus (number_of p row)) (counted-without_key key_of rows))
      ]

  status_code-full : (row : LogRow) → is_empty (status_code row) ≡ false
  unfolding cell_or
  status_code-full row = elim (Bool-cases (is_empty (cell (text "status") row))) [
    | inl e ↦ rw e refl
    | inr e ↦ rw (e, e) refl
  ]

  pub counted-status_code : (rows : List LogRow) → counted p status_code rows ≡ numbers p rows
  counted-status_code [] = refl
  counted-status_code (row ∷ rows) =
      rw (counted, status_code-full row) (ap (p.plus (number_of p row)) (counted-status_code rows))

module _ {V B : Type 0} (p : Platform V) (exact : Exact p) (size : B → V) (key_of : LogRow → Text)
    (start : Text → B) (add : LogRow → V → B → B) (starts : (k : Text) → size (start k) ≡ p.nought)
    (adds : (row : LogRow) (n : V) (b : B) → size (add row n b) ≡ p.plus (size b) n) where
  unit_right : (a : V) → p.plus a p.nought ≡ a
  unit_right a = exact.comm a p.nought ∙ exact.unit a

  pivot_row_size :
      (row : LogRow) (m : List (Text × B))
      → sum_list p exact size (map (λ e. e.1) (pivot_row p key_of start add row m))
        ≡ p.plus (sum_list p exact size (map (λ e. e.1) m)) (counted_one p key_of row)
  unfolding pivot_row
  pivot_row_size row m = elim (Bool-cases (is_empty (key_of row))) [
    | inl e ↦ rw (pivot_row, e) (sym (unit_right _))
    | inr e ↦ elim (Option-cases (row_float p row (text "n"))) [
      | inl f ↦ rw (pivot_row, e, f) (sym (unit_right _))
      | inr (n, f) ↦
          rw (pivot_row, e, f)
            (sum_list-put p exact size (key_of row) (start (key_of row))
              (add row n (or_new (start (key_of row)) (get (key_of row) m))) n m
              (starts (key_of row)) (adds row n (or_new (start (key_of row)) (get (key_of row) m))))
    ]
  ]

  pub pivot_rows_size :
      (rows : List LogRow) (m : List (Text × B))
      → sum_list p exact size (map (λ e. e.1) (pivot_rows p key_of start add rows m))
        ≡ p.plus (sum_list p exact size (map (λ e. e.1) m)) (counted p key_of rows)
  unfolding pivot_rows
  pivot_rows_size [] m = sym (unit_right _)
  pivot_rows_size (row ∷ rows) m =
      pivot_rows_size rows (pivot_row p key_of start add row m)
      ∙ ap (λ a. p.plus a (counted p key_of rows)) (pivot_row_size row m)
      ∙ exact.assoc _ _ _

pub sort_by-All :
    {B : Type 0} (P : B → Type 0) (leq : B → B → Bool) (bs : List B)
    → All P bs
    → All P (sort_by leq bs)
unfolding sort_by
sort_by-All {B} P leq [] h = tt
sort_by-All {B} P leq (b ∷ bs) (h, hs) = inserted b (sort_by leq bs) h (sort_by-All P leq bs hs)
  where
    inserted : (b : B) (bs : List B) → P b → All P bs → All P (insert_by leq b bs)
    inserted b [] h hs = (h, tt)
    inserted b (c ∷ bs) h (hc, hs) = elim (Bool-cases (leq b c)) [
      | inl e ↦ rw e (h, (hc, hs))
      | inr e ↦ rw e (hc, inserted b bs h hs)
    ]

pub Values-All :
    {B : Type 0} (P : B → Type 0) (m : List (Text × B)) → Values P m → All P (map (λ e. e.1) m)
Values-All P [] v = tt
Values-All P (e ∷ m) (h, v) = (h, Values-All P m v)

pub pivot_row-Values :
    {V B : Type 0} (p : Platform V) (key_of : LogRow → Text) (start : Text → B)
    (add : LogRow → V → B → B) (P : B → Type 0)
    → ((k : Text) → P (start k))
    → ((row : LogRow) (n : V) (b : B) → P b → P (add row n b))
    → (row : LogRow) (m : List (Text × B)) → Values P m
    → Values P (pivot_row p key_of start add row m)
unfolding pivot_row
pivot_row-Values p key_of start add P s a row m v = elim (Bool-cases (is_empty (key_of row))) [
  | inl e ↦ rw (pivot_row, e) v
  | inr e ↦ elim (Option-cases (row_float p row (text "n"))) [
    | inl f ↦ rw (pivot_row, e, f) v
    | inr (n, f) ↦
        rw (pivot_row, e, f)
          (put-Values P (key_of row) _ m
            (a row n (or_new (start (key_of row)) (get (key_of row) m))
              (or_new-Values P (key_of row) (start (key_of row)) m (s (key_of row)) v))
            v)
  ]
]
