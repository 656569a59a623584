-- ===== src/LogPanels/Pivots.antt =====
-- server/src/http/panels-logs.ts, `pivotStatusPaths` and `pivotWAFActions`: rows by two keys, folded
-- into one bucket for each first key, the busiest first.
use skills_dashboard.Common.{
  ℕ, ◌-◌, Bool, ◌&&◌, ◌||◌, not, none, some, List, [], ◌∷◌, ◌++◌, map, ltb, ◌==◌, if◌then◌else◌,
  length, take,
}
use skills_dashboard.Text.{Text, text, text_eq, is_empty, trim, join}
use skills_dashboard.TextMap.{get, put}
use skills_dashboard.Text.Decimal.{show}
use skills_dashboard.Catalog.Search.{text_leb}
use skills_dashboard.LogPanels.Tallies.{or_new}
use skills_dashboard.LogPanels.Status.{status_code}
use skills_dashboard.LogPanels.{Platform, LogRow, cell}
use skills_dashboard.LogPanels.Rows.{row_float}

module _ {A : Type 0} (leq : A → A → Bool) where
  unfoldable pub insert_by : A → List A → List A
  insert_by x [] = x ∷ []
  insert_by x (y ∷ ys) = let rest = insert_by x ys in if leq x y then x ∷ y ∷ ys else y ∷ rest

  -- `sort`, which is stable: `leq x y` says that the comparison does not put `y` before `x`.
  unfoldable pub sort_by : List A → List A
  unfolding insert_by
  sort_by [] = []
  sort_by (x ∷ xs) = insert_by x (sort_by xs)

pub record PathCount (V : Type 0) : Type 0 where
  pub path : Text
  pub n : V

pub record StatusBucket (V : Type 0) : Type 0 where
  pub code : Text
  pub total : V
  pub last_ts : Text
  pub paths : List (PathCount V)

pub record WafBucket (V : Type 0) : Type 0 where
  pub key : Text
  pub allow : V
  pub block : V
  pub other : V
  pub total : V
  pub last_action : Text
  pub last_ts : Text

-- `a > b` on strings.
abbrev pub later : Text → Text → Bool
later a b = not (text_leb a b)

module _ {V : Type 0} where
  -- More comes first, and the lesser text where as many.
  abbrev pub ranks : Platform V → V → V → Text → Text → Bool
  ranks p a b x y = p.less b a || (not (p.less a b) && text_leb x y)

  unfoldable pub new_status : Platform V → Text → StatusBucket V
  new_status p code = record { code = code; total = p.nought; last_ts = []; paths = [] }

  -- A row with `n` requests is added to its bucket.
  unfoldable pub add_status : Platform V → LogRow → V → StatusBucket V → StatusBucket V
  unfolding cell
  add_status p row n b = record b {
    total = p.plus b.total n;
    paths =
        if is_empty (cell (text "path") row)
        then b.paths
        else b.paths ++ (record { path = cell (text "path") row; n = n } ∷ []);
    last_ts =
        if later (cell (text "lastTs") row) b.last_ts then cell (text "lastTs") row else b.last_ts;
  }

  unfoldable pub new_waf : Platform V → Text → WafBucket V
  new_waf p key = record {
    key = key;
    allow = p.nought;
    block = p.nought;
    other = p.nought;
    total = p.nought;
    last_action = [];
    last_ts = [];
  }

  abbrev pub action_of : Platform V → LogRow → Text
  action_of p row = p.upper (trim (cell (text "action") row))

  -- The column of an action.
  abbrev pub add_action : Platform V → Text → V → WafBucket V → WafBucket V
  add_action p action n b =
      if text_eq action (text "ALLOW")
      then record b { allow = p.plus b.allow n }
      else if text_eq action (text "BLOCK")
      then record b { block = p.plus b.block n }
      else record b { other = p.plus b.other n }

  abbrev pub seen_at : Text → Text → WafBucket V → WafBucket V
  seen_at ts action b =
      if later ts b.last_ts then record b { last_ts = ts; last_action = action } else b

  unfoldable pub add_waf : Platform V → LogRow → V → WafBucket V → WafBucket V
  unfolding cell trim
  add_waf p row n b =
      let c : WafBucket V = add_action p (action_of p row) n b in
      seen_at (cell (text "lastTs") row) (action_of p row) (record c { total = p.plus c.total n })

  -- The loop of both: a row with no number is left out, and one with no key where keys are needed.
  -- A bucket keeps the place that its first row gave it.
  module _ {B : Type 0} where
    unfoldable pub pivot_row :
        Platform V
        → (LogRow → Text)
        → (Text → B)
        → (LogRow → V → B → B)
        → LogRow
        → List (Text × B)
        → List (Text × B)
    unfolding row_float get put
    pivot_row p key_of start add row m =
        if is_empty (key_of row) then m else elim (row_float p row (text "n")) [
          | none ↦ m
          | some n ↦
              put (key_of row) (add row n (or_new (start (key_of row)) (get (key_of row) m))) m
        ]

    unfoldable pub pivot_rows :
        Platform V
        → (LogRow → Text)
        → (Text → B)
        → (LogRow → V → B → B)
        → List LogRow
        → List (Text × B)
        → List (Text × B)
    unfolding pivot_row
    pivot_rows p key_of start add [] m = m
    pivot_rows p key_of start add (row ∷ rows) m =
        pivot_rows p key_of start add rows (pivot_row p key_of start add row m)

  abbrev pub by_count : Platform V → PathCount V → PathCount V → Bool
  by_count p x y = ranks p x.n y.n x.path y.path

  unfoldable pub sort_paths : Platform V → StatusBucket V → StatusBucket V
  unfolding sort_by
  sort_paths p b = record b { paths = sort_by (by_count p) b.paths }

  abbrev pub by_status_total : Platform V → StatusBucket V → StatusBucket V → Bool
  by_status_total p x y = ranks p x.total y.total x.code y.code

  unfoldable pub pivot_status_paths : Platform V → List LogRow → List (StatusBucket V)
  unfolding pivot_rows new_status add_status sort_paths sort_by
  pivot_status_paths p rows =
      sort_by (by_status_total p) (
        map (λ e. sort_paths p e.1)
          (pivot_rows p status_code (new_status p) (add_status p) rows []))

  abbrev pub by_waf_total : Platform V → WafBucket V → WafBucket V → Bool
  by_waf_total p x y = ranks p x.total y.total x.key y.key

  unfoldable pub pivot_waf_actions : Platform V → (LogRow → Text) → List LogRow → List (WafBucket V)
  unfolding pivot_rows new_waf add_waf sort_by
  pivot_waf_actions p key_of rows =
      sort_by (by_waf_total p)
        (map (λ e. e.1) (pivot_rows p key_of (new_waf p) (add_waf p) rows []))

  abbrev path_note : Platform V → PathCount V → Text
  path_note p c = c.path ++ (text " (" ++ (p.print c.n ++ text "건)"))

  -- `topPathsNote`
  unfoldable pub top_paths_note : Platform V → ℕ → StatusBucket V → Text
  unfolding show join
  top_paths_note p top b =
      let shown : List (PathCount V) =
        if ltb 0 top && ltb top (length b.paths) then take top b.paths else b.paths in
      let rest : ℕ = length b.paths - length shown in
      if length b.paths == 0
      then text "경로가 기록되지 않았습니다"
      else join (text " · ") (
          map (path_note p) shown
          ++ (if ltb 0 rest then (text "외 " ++ (show rest ++ text "개")) ∷ [] else []))
