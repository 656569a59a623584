-- ===== src/Payload/Checks.antt =====
-- What `validatePayload` demands, and that payloads built from one window meet it.
use skills_dashboard.Common.{
  ℕ, ◌≤◌, ◌<◌, ◌≡◌, refl, ◌↔◌, Option, none, some, List, [], ◌∷◌, arith, ltb, length, All, ok,
}
use skills_dashboard.Text.{Text}
use skills_dashboard.Window.{Window, buckets}
use skills_dashboard.Window.Bounds.{IsValid}
use skills_dashboard.Window.Axis.{length-timestamps, buckets_pos}
use skills_dashboard.Series.{Series}
use skills_dashboard.Payload.{
  Table, Panel, Payload, Column, check_table, check_series, check_panels, validate_payload,
  new_table, new_payload, add_panels, window_json, rows_or_empty,
}

module _ {R : Type 0} where
  -- The total counts every row, and the flag says whether it counts more.
  pub record Counts (t : Table R) : Type 0 where
    pub covered : length t.rows ≤ t.total
    pub flagged : t.truncated ≡ ltb (length t.rows) t.total

  abbrev pub TableCounts : Option (Table R) → Type 0
  TableCounts none = Unit
  TableCounts (some t) = Counts t

  check_table_iff : (id : Text) (t : Option (Table R)) → (check_table id t ≡ ok tt) ↔ TableCounts t
  unfolding check_table
  check_table_iff id none = (λ h. tt, λ h. refl)
  check_table_iff id (some t) = ground arith

  -- A table that `newTable` makes passes the check exactly when the total that the caller counted
  -- is at least the number of its rows.
  pub check_table-new_table :
      (id : Text) (columns : List Column) (rows : Option (List R)) (total limit : ℕ)
      → (check_table id (some (new_table columns rows total limit)) ≡ ok tt)
        ↔ (length (rows_or_empty rows) ≤ total)
  unfolding check_table new_table
  check_table-new_table id columns rows total limit = ground arith

module _ {V : Type 0} where
  abbrev pub IsAligned : ℕ → Series V → Type 0
  IsAligned n s = length s.values ≡ n

  check_series_iff :
      (id : Text) (n : ℕ) (ss : List (Series V))
      → (check_series id n ss ≡ ok tt) ↔ All (IsAligned n) ss
  unfolding check_series
  check_series_iff id n [] = (λ h. tt, λ h. refl)
  check_series_iff id n (s ∷ ss) = ground (arith, check_series_iff id n ss)

module _ {V R : Type 0} where
  abbrev pub PanelFits : ℕ → Panel V R → Type 0
  PanelFits n p = All (IsAligned n) p.series × TableCounts p.table

  check_panels_iff :
      (n : ℕ) (ps : List (Panel V R)) → (check_panels n ps ≡ ok tt) ↔ All (PanelFits n) ps
  unfolding check_panels
  check_panels_iff n [] = (λ h. tt, λ h. refl)
  check_panels_iff n (p ∷ ps) =
      ground (
        arith,
        check_series_iff p.id n p.series,
        check_table_iff p.id p.table,
        check_panels_iff n ps,
      )

  -- `validatePayload` accepts exactly the payloads with a time axis whose every series has one value
  -- for each time stamp, and whose every table has a total that covers its rows and a flag that says
  -- whether the total is larger.
  pub validate_payload_iff :
      (p : Payload V R)
      → (validate_payload p ≡ ok tt)
        ↔ ((0 < length p.window.timestamps) × All (PanelFits (length p.window.timestamps)) p.panels)
  unfolding validate_payload
  validate_payload_iff p = ground (arith, check_panels_iff (length p.window.timestamps) p.panels)

  -- A payload for a valid window passes the check if every panel that is added has series of as many
  -- values as the window has buckets, and tables whose totals and flags agree with their rows.
  pub validate_payload-add_panels :
      (w : Window) (ps : List (Panel V R))
      → IsValid w
      → All (PanelFits (buckets w)) ps
      → validate_payload (add_panels (new_payload w) ps) ≡ ok tt
  unfolding add_panels new_payload window_json
  validate_payload-add_panels w ps v fits =
      (validate_payload_iff (add_panels (new_payload w) ps)).1
        (rw (length-timestamps w) (buckets_pos w v, fits))
