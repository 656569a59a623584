-- ===== src/LogPanels/Totals/Charts.antt =====
-- server/src/http/panels-logs.ts, `buildPodStatusCodePanel`: the total beside the chart is the sum of the
-- chart.
use skills_dashboard.Common.{
  ℕ, zero, suc, ◌<◌, ◌≡◌, refl, sym, ap, ◌∙◌, subst, inl, inr, false, none, some, List, [], ◌∷◌,
  map, arith, leb, Option-cases, length, set, replicate,
}
use skills_dashboard.Common.{pos}
use skills_dashboard.Text.{Text, text}
use skills_dashboard.TextMap.{get}
use skills_dashboard.Catalog.Search.{sort}
use skills_dashboard.Window.{Window, index_of, buckets}
use skills_dashboard.Window.Bounds.{IsValid}
use skills_dashboard.Window.Axis.{index_of_iff}
use skills_dashboard.Series.{Series, Point, Measure, new_series, add_at, point_at}
use skills_dashboard.LogPanels.{Platform, LogRow, cell}
use skills_dashboard.LogPanels.Rows.{row_float, row_bucket, parse_insights_time}
use skills_dashboard.LogPanels.Tallies.{or_new, Tally, tally_row, tally, pick, sorted_series}
use skills_dashboard.LogPanels.Status.{status_code, status_color, status_series, status_tally}
use skills_dashboard.LogPanels.Fits.{Values, or_new-Values, new_series-IsAligned, tally_row-Values}
use skills_dashboard.Payload.Checks.{IsAligned}
use skills_dashboard.LogPanels.Totals.{
  Exact, Distinct, put-Distinct, sum_list, sum_list-put, sum_list-sorted, sum_keys, swap_last,
}

module _ {V : Type 0} (p : Platform V) (exact : Exact p) where
  -- The sum of the points of a line; a gap counts nothing.
  abbrev pub point_value : Point V → V
  point_value none = p.nought
  point_value (some v) = v

  abbrev pub sum_points : List (Point V) → V
  sum_points [] = p.nought
  sum_points (x ∷ xs) = p.plus (point_value x) (sum_points xs)

  abbrev pub line_sum : Series V → V
  line_sum s = sum_points s.values

  abbrev added : V → Point V → Point V
  added n none = some n
  added n (some cur) = some (p.plus cur n)

  sum_points-set :
      (n : V) (xs : List (Point V)) (i : ℕ)
      → i < length xs
      → sum_points (set xs i (added n (point_at xs i))) ≡ p.plus (sum_points xs) n
  sum_points-set n [] i h = elim h [ ]
  sum_points-set n (none ∷ xs) zero h =
      exact.comm n (sum_points xs) ∙ ap (λ a. p.plus a n) (sym (exact.unit (sum_points xs)))
  sum_points-set n (some v ∷ xs) zero h = swap_last p exact v n (sum_points xs)
  sum_points-set n (x ∷ xs) (suc i) h =
      ap (p.plus (point_value x)) (sum_points-set n xs i (omega arith))
      ∙ sym (exact.assoc (point_value x) (sum_points xs) n)

  added_lem :
      (n : V) (x : Point V)
      → (elim x [ none ↦ some n | some cur ↦ some (p.plus cur n) ]) ≡ added n x
  added_lem n none = refl
  added_lem n (some cur) = refl

  -- An addition within the line.
  line_sum-add_at :
      (s : Series V) (i : ℕ) (n : V)
      → i < length s.values
      → line_sum (add_at p.plus s (pos i) n) ≡ p.plus (line_sum s) n
  unfolding add_at
  line_sum-add_at s i n h =
      let inside : leb (length s.values) i ≡ false = ground arith in
      rw inside (
        ap (λ x. sum_points (set s.values i x)) (added_lem n (point_at s.values i))
        ∙ sum_points-set n s.values i h)

  row_bucket-lt :
      (w : Window) (row : LogRow) (i : ℕ) → IsValid w → row_bucket p w row ≡ some i → i < buckets w
  unfolding row_bucket
  row_bucket-lt w row i v h = elim (Option-cases (parse_insights_time p (cell (text "t") row))) [
    | inl e ↦
        let no : none ≡ some i =
          subst (λ o. (elim o [ none ↦ none | some t ↦ index_of w t ]) ≡ some i) e h in
        cc
    | inr (t, e) ↦
        let at : index_of w t ≡ some i =
          subst (λ o. (elim o [ none ↦ none | some t ↦ index_of w t ]) ≡ some i) e h in
        ((index_of_iff w v t i).0 at).0
  ]

  sum_points-replicate : (n : ℕ) → sum_points (replicate n none) ≡ p.nought
  sum_points-replicate zero = refl
  sum_points-replicate (suc n) = exact.unit _ ∙ sum_points-replicate n

  -- The lines of a tally have a value or a gap for each bucket, each key has one line, and the lines sum up
  -- to the total.
  abbrev Tallied : ℕ → Tally V → Type 0
  Tallied n t =
      Values (IsAligned n) t.by_key
      × Distinct t.by_key
      × (sum_list p exact line_sum (map (λ e. e.1) t.by_key) ≡ t.total)

  module _ (w : Window) (v : IsValid w) (key_of : LogRow → Text) (start : Text → Series V)
      (aligned : (k : Text) → IsAligned (buckets w) (start k))
      (empty : (k : Text) → line_sum (start k) ≡ p.nought) where
    tally_row-Tallied :
        (row : LogRow) (t : Tally V)
        → Tallied (buckets w) t
        → Tallied (buckets w) (tally_row p w key_of start row t)
    unfolding tally_row
    tally_row-Tallied row t (a, d, s) =
        (tally_row-Values p w key_of start (buckets w) row t aligned a, rest.0, rest.1)
      where
        rest :
            Distinct (tally_row p w key_of start row t).by_key
            × (sum_list p exact line_sum (map (λ e. e.1) (tally_row p w key_of start row t).by_key)
                ≡ (tally_row p w key_of start row t).total)
        rest = elim (Option-cases (row_bucket p w row)) [
          | inl e ↦ rw (tally_row, e) (d, s)
          | inr (i, e) ↦ elim (Option-cases (row_float p row (text "n"))) [
            | inl f ↦ rw (tally_row, e, f) (d, s)
            | inr (n, f) ↦
                let k : Text = key_of row in
                let line : Series V = or_new (start k) (get k t.by_key) in
                let fits : length line.values ≡ buckets w =
                  or_new-Values (IsAligned (buckets w)) k (start k) t.by_key (aligned k) a in
                let low : i < buckets w = row_bucket-lt w row i v e in
                let inside : i < length line.values = omega arith in
                rw (tally_row, e, f)
                  (
                    put-Distinct k (add_at p.plus line (pos i) n) t.by_key d,
                    sum_list-put p exact line_sum k (start k) (add_at p.plus line (pos i) n) n
                          t.by_key (empty k) (line_sum-add_at line i n inside)
                        ∙ ap (λ b. p.plus b n) s,
                  )
          ]
        ]

    tally-Tallied :
        (rows : List LogRow) (t : Tally V)
        → Tallied (buckets w) t
        → Tallied (buckets w) (tally p w key_of start rows t)
    unfolding tally
    tally-Tallied [] t h = h
    tally-Tallied (row ∷ rows) t h =
        tally-Tallied rows (tally_row p w key_of start row t) (tally_row-Tallied row t h)

  pick_sum :
      (m : List (Text × Series V)) (ks : List Text)
      → sum_list p exact line_sum (pick m ks) ≡ sum_keys p exact line_sum m ks
  unfolding pick sum_list sum_keys
  pick_sum m [] = refl
  pick_sum m (k ∷ ks) = elim (Option-cases (get k m)) [
    | inl e ↦ rw (pick, sum_keys, e) (pick_sum m ks ∙ sym (exact.unit _))
    | inr (s, e) ↦ rw (pick, sum_keys, e) (ap (p.plus (line_sum s)) (pick_sum m ks))
  ]

  -- For counts, which add exactly, and a valid window, the total beside the chart of status codes is the
  -- sum of all the points of all its lines: a row that is left out of the one is left out of the other.
  pub total-status_tally :
      (w : Window) (rows : List LogRow)
      → IsValid w
      → sum_list p exact line_sum (sorted_series (status_tally p w rows).by_key)
        ≡ (status_tally p w rows).total
  unfolding sorted_series status_tally new_series sum_list
  total-status_tally w rows v =
      let done : Tallied (buckets w) (status_tally p w rows) =
        tally-Tallied w v status_code (status_series w)
          (λ k. new_series-IsAligned V k Measure.count (status_color k) (buckets w))
          (λ k. sum_points-replicate (buckets w)) rows (record { by_key = []; total = p.nought })
          (tt, tt, refl) in
      let m : List (Text × Series V) = (status_tally p w rows).by_key in
      sum_list-sorted p exact line_sum m (pick m (sort (map (λ e. e.0) m))) done.1
        (pick_sum m (sort (map (λ e. e.0) m)))
      ∙ done.2
