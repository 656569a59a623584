-- ===== src/LogPanels/Tallies.antt =====
-- server/src/http/panels-logs.ts: columns, and the counts of a time series by a key, as three of the
-- panels take them.
use skills_dashboard.Common.{true, false, Option, none, some, List, [], ◌∷◌, map}
use skills_dashboard.Common.{pos}
use skills_dashboard.Text.{Text, text}
use skills_dashboard.TextMap.{get, put}
use skills_dashboard.Catalog.Search.{sort}
use skills_dashboard.Window.{Window}
use skills_dashboard.Series.{Series, add_at}
use skills_dashboard.Payload.{Column}
use skills_dashboard.LogPanels.{Platform, LogRow}
use skills_dashboard.LogPanels.Rows.{row_float, row_bucket}

abbrev pub plain_column : Text → Text → Column
plain_column key label = record {
  key = key;
  label = label;
  measure = none;
  copyable = false;
  mono = false;
  numeric = false;
  detail = false;
}

abbrev pub copied : Column → Column
copied c = record c { copyable = true }

abbrev pub monospaced : Column → Column
monospaced c = record c { mono = true }

abbrev pub number_column : Column → Column
number_column c = record c { numeric = true }

abbrev pub hidden : Column → Column
hidden c = record c { detail = true }

abbrev pub or_new : {A : Type 0} → A → Option A → A
or_new a none = a
or_new a (some b) = b

-- Series by their keys, and the total of what was added to them.
pub record Tally (V : Type 0) : Type 0 where
  pub by_key : List (Text × Series V)
  pub total : V

module _ {V : Type 0} where
  -- A row of a time series with a count: it is added to the series of its key and to the total. A row
  -- with no time in the window or no count is left out.
  unfoldable pub tally_row :
      Platform V → Window → (LogRow → Text) → (Text → Series V) → LogRow → Tally V → Tally V
  unfolding row_bucket row_float get put add_at
  tally_row p w key_of start row t = elim (row_bucket p w row) [
    | none ↦ t
    | some i ↦ elim (row_float p row (text "n")) [
      | none ↦ t
      | some n ↦
          let key : Text = key_of row in
          record {
            by_key =
                put key (add_at p.plus (or_new (start key) (get key t.by_key)) (pos i) n) t.by_key;
            total = p.plus t.total n;
          }
    ]
  ]

  unfoldable pub tally :
      Platform V → Window → (LogRow → Text) → (Text → Series V) → List LogRow → Tally V → Tally V
  unfolding tally_row
  tally p w key_of start [] t = t
  tally p w key_of start (row ∷ rows) t =
      tally p w key_of start rows (tally_row p w key_of start row t)

  -- The series in the order of a list of keys.
  unfoldable pub pick : List (Text × Series V) → List Text → List (Series V)
  unfolding get
  pick m [] = []
  pick m (k ∷ ks) = elim (get k m) [ none ↦ pick m ks | some s ↦ s ∷ pick m ks ]

  unfoldable pub sorted_series : List (Text × Series V) → List (Series V)
  unfolding pick sort
  sorted_series m = pick m (sort (map (λ e. e.0) m))
