-- ===== src/LogPanels/Totals/Buckets.antt =====
-- server/src/http/panels-logs.ts, `pivotStatusPaths` and `pivotWAFActions`: nothing that is counted is
-- lost in the fold or in the sorting.
use skills_dashboard.Common.{◌≡◌, refl, sym, ap, ◌∙◌, inl, inr, List, [], ◌∷◌, map, Bool-cases, All}
use skills_dashboard.Text.{Text, text, text_eq}
use skills_dashboard.LogPanels.{Platform, LogRow, cell}
use skills_dashboard.LogPanels.Status.{status_code}
use skills_dashboard.LogPanels.Pivots.{
  StatusBucket, WafBucket, new_status, add_status, new_waf, add_waf, add_action, seen_at, action_of,
  later, pivot_row, pivot_rows, sort_paths, by_status_total, by_waf_total, pivot_status_paths,
  pivot_waf_actions,
}
use skills_dashboard.LogPanels.Fits.{Values}
use skills_dashboard.LogPanels.Totals.{Exact, sum_list, sum_list-sort_by, swap_last}
use skills_dashboard.LogPanels.Breakdown.{sum_buckets}
use skills_dashboard.LogPanels.Totals.Counted.{
  numbers, without_key, counted, counted-without_key, counted-status_code, pivot_rows_size,
  sort_by-All, Values-All, pivot_row-Values,
}

module _ {V : Type 0} (p : Platform V) (exact : Exact p) where
  add_action_total :
      (action : Text) (n : V) (b : WafBucket V) → (add_action p action n b).total ≡ b.total
  add_action_total action n b = elim (Bool-cases (text_eq action (text "ALLOW"))) [
    | inl e ↦ rw e refl
    | inr e ↦ elim (Bool-cases (text_eq action (text "BLOCK"))) [
      | inl f ↦ rw (e, f) refl
      | inr f ↦ rw (e, f) refl
    ]
  ]

  abbrev pub parts : WafBucket V → V
  parts b = p.plus (p.plus b.allow b.block) b.other

  add_action-parts :
      (action : Text) (n : V) (b : WafBucket V)
      → parts (add_action p action n b) ≡ p.plus (parts b) n
  add_action-parts action n b = elim (Bool-cases (text_eq action (text "ALLOW"))) [
    | inl e ↦ rw e (
        ap (λ a. p.plus a b.other) (swap_last p exact b.allow n b.block)
        ∙ swap_last p exact (p.plus b.allow b.block) n b.other)
    | inr e ↦ elim (Bool-cases (text_eq action (text "BLOCK"))) [
      | inl f ↦
          rw (e, f)
            (ap (λ a. p.plus a b.other) (sym (exact.assoc b.allow b.block n))
              ∙ swap_last p exact (p.plus b.allow b.block) n b.other)
      | inr f ↦ rw (e, f) (sym (exact.assoc (p.plus b.allow b.block) b.other n))
    ]
  ]

  seen_at_total : (ts action : Text) (b : WafBucket V) → (seen_at ts action b).total ≡ b.total
  seen_at_total ts action b = elim (Bool-cases (later ts b.last_ts)) [
    | inl e ↦ rw e refl
    | inr e ↦ rw e refl
  ]

  seen_at-parts : (ts action : Text) (b : WafBucket V) → parts (seen_at ts action b) ≡ parts b
  seen_at-parts ts action b = elim (Bool-cases (later ts b.last_ts)) [
    | inl e ↦ rw e refl
    | inr e ↦ rw e refl
  ]

  add_waf_total :
      (row : LogRow) (n : V) (b : WafBucket V) → (add_waf p row n b).total ≡ p.plus b.total n
  unfolding add_waf
  add_waf_total row n b =
      let c : WafBucket V = add_action p (action_of p row) n b in
      seen_at_total (cell (text "lastTs") row) (action_of p row)
        (record c { total = p.plus c.total n })
      ∙ ap (λ t. p.plus t n) (add_action_total (action_of p row) n b)

  -- The columns of a bucket add up to its total.
  abbrev pub Balanced : WafBucket V → Type 0
  Balanced b = parts b ≡ b.total

  add_waf-Balanced :
      (row : LogRow) (n : V) (b : WafBucket V) → Balanced b → Balanced (add_waf p row n b)
  unfolding add_waf
  add_waf-Balanced row n b h =
      let c : WafBucket V = add_action p (action_of p row) n b in
      seen_at-parts (cell (text "lastTs") row) (action_of p row)
        (record c { total = p.plus c.total n })
      ∙ add_action-parts (action_of p row) n b
      ∙ ap (λ t. p.plus t n) h
      ∙ sym (add_waf_total row n b)

  pivot_rows-Balanced :
      (key_of : LogRow → Text) (rows : List LogRow) (m : List (Text × WafBucket V))
      → Values Balanced m
      → Values Balanced (pivot_rows p key_of (new_waf p) (add_waf p) rows m)
  unfolding pivot_rows new_waf
  pivot_rows-Balanced key_of [] m v = v
  pivot_rows-Balanced key_of (row ∷ rows) m v =
      pivot_rows-Balanced key_of rows (pivot_row p key_of (new_waf p) (add_waf p) row m) (
        pivot_row-Values p key_of (new_waf p) (add_waf p) Balanced
          (λ k. exact.comm _ _ ∙ exact.unit _ ∙ exact.unit _) add_waf-Balanced row m v)

  -- For counts, which add exactly: the totals of the buckets of the WAF and the numbers of the rows
  -- without a key add up to the numbers of all rows, so that only rows without a key are left out; and in
  -- each bucket the allowed, the blocked and the other requests add up to its total, whatever the actions
  -- are.
  pub pivot_waf_actions-Balanced :
      (key_of : LogRow → Text) (rows : List LogRow)
      → (p.plus
            (sum_list p exact (λ b. b.total) (pivot_waf_actions p key_of rows))
            (numbers p (without_key key_of rows))
          ≡ numbers p rows)
        × All Balanced (pivot_waf_actions p key_of rows)
  unfolding pivot_waf_actions sum_list new_waf
  pivot_waf_actions-Balanced key_of rows =
      let m : List (Text × WafBucket V) = pivot_rows p key_of (new_waf p) (add_waf p) rows [] in
      let total : sum_list p exact (λ b. b.total) (pivot_waf_actions p key_of rows)
          ≡ counted p key_of rows =
        sum_list-sort_by p exact (λ b. b.total) (by_waf_total p) (map (λ e. e.1) m)
        ∙ pivot_rows_size p exact (λ b. b.total) key_of (new_waf p) (add_waf p) (λ k. refl)
            (λ row n b. add_waf_total row n b) rows []
        ∙ exact.unit _ in
      (
        ap (λ a. p.plus a (numbers p (without_key key_of rows))) total
            ∙ counted-without_key p exact key_of rows,
        sort_by-All Balanced (by_waf_total p) (map (λ e. e.1) m)
            (Values-All Balanced m (pivot_rows-Balanced key_of rows [] tt)),
      )

  sum_buckets-sum_list :
      (bs : List (StatusBucket V)) (total : V)
      → sum_buckets p bs total ≡ p.plus total (sum_list p exact (λ b. b.total) bs)
  unfolding sum_buckets sum_list
  sum_buckets-sum_list [] total = sym (exact.comm total p.nought ∙ exact.unit total)
  sum_buckets-sum_list (b ∷ bs) total =
      sum_buckets-sum_list bs (p.plus total b.total) ∙ exact.assoc _ _ _

  sorted_paths_sum :
      (m : List (Text × StatusBucket V))
      → sum_list p exact (λ b. b.total) (map (λ e. sort_paths p e.1) m)
        ≡ sum_list p exact (λ b. b.total) (map (λ e. e.1) m)
  unfolding sum_list sort_paths
  sorted_paths_sum [] = refl
  sorted_paths_sum (e ∷ m) = ap (p.plus e.1.total) (sorted_paths_sum m)

  -- For counts, which add exactly, the total that the breakdown by path shows is the sum of the
  -- numbers of all its rows, those without a path and those without a status code included.
  pub sum_buckets-pivot_status_paths :
      (rows : List LogRow) → sum_buckets p (pivot_status_paths p rows) p.nought ≡ numbers p rows
  unfolding pivot_status_paths sum_list new_status add_status
  sum_buckets-pivot_status_paths rows =
      let m : List (Text × StatusBucket V) =
        pivot_rows p status_code (new_status p) (add_status p) rows [] in
      sum_buckets-sum_list (pivot_status_paths p rows) p.nought
      ∙ exact.unit _
      ∙ sum_list-sort_by p exact (λ b. b.total) (by_status_total p) (map (λ e. sort_paths p e.1) m)
      ∙ sorted_paths_sum m
      ∙ pivot_rows_size p exact (λ b. b.total) status_code (new_status p) (add_status p) (λ k. refl)
          (λ row n b. refl) rows []
      ∙ exact.unit _
      ∙ counted-status_code p exact rows
