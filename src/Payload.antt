-- ===== src/Payload.antt =====
-- server/src/domain/series.ts: tables, panels and payloads, and the check that a payload passes
-- before it is written. Numbers are of a type `V`, table rows of a type `R`.
pub mod Checks
use skills_dashboard.Common.{
  ℕ, zero, suc, ◌+◌, ◌-◌, ◌*◌, ◌/◌, ◌%◌, ◌^◌, ◌≤◌, ◌<◌, min, ◌≡◌, refl, sym, ap, ◌∙◌, subst, ◌≢◌,
  ◌↔◌, ◌⊎◌, inl, inr, Bool, true, false, ◌&&◌, ◌||◌, not, Option, none, some, List, [], ◌∷◌, ◌++◌,
  map, append-nil, append_assoc, arith, ltb, leb, ◌==◌, if◌then◌else◌, Bool-cases, Option-cases,
  length, get_elem?, set, take, drop, replicate, length-append, length-map, length-replicate,
  Listed, All, All-Listed, All-append, Result, ok, err, ◌>>=◌, ◌>>◌, >>=-eq-ok, Result-cases,
}
use skills_dashboard.Common.{
  ℤ, pos, negsuc, pos_part, neg_part, sub_ℕ, ◌+ℤ◌, ◌-ℤ◌, ◌≤ℤ◌, ◌<ℤ◌, ltb_ℤ, eqb_ℤ, +ℤ_parts,
  -ℤ_parts, eq_of_parts, part_cases, eqb_ℤ_eq, eqb_ℤ_refl, int_laws, floor_to, trunc_div,
}
use skills_dashboard.Text.{Text}
use skills_dashboard.Window.{Window, timestamps, period_seconds, compact_duration}
use skills_dashboard.Series.{Series, Point, Measure}

pub data Intent : Type 0 where
  neutral good warn bad : Intent

pub record Stat (V : Type 0) : Type 0 where
  pub key : Text
  pub label : Text
  pub value : Point V
  pub measure : Measure
  pub words : Option Text
  pub basis : Option Text
  pub intent : Option Intent

pub record Column : Type 0 where
  pub key : Text
  pub label : Text
  pub measure : Option Measure
  pub copyable : Bool
  pub mono : Bool
  pub numeric : Bool
  pub detail : Bool

pub record Table (R : Type 0) : Type 0 where
  pub columns : List Column
  pub rows : List R
  pub total : ℕ
  pub truncated : Bool
  pub limit : ℕ

pub record Bars : Type 0 where
  pub key_column : Text
  pub value_column : Text
  pub group_column : Option Text

pub record Panel (V R : Type 0) : Type 0 where
  pub id : Text
  pub title : Text
  pub series : List (Series V)
  pub stats : List (Stat V)
  pub table : Option (Table R)
  pub bars : Option Bars
  pub warnings : List Text

pub record WindowJson : Type 0 where
  pub start : ℤ
  pub end : ℤ
  pub period : ℕ
  pub range : Text
  pub timestamps : List ℤ

pub record Payload (V R : Type 0) : Type 0 where
  pub window : WindowJson
  pub panels : List (Panel V R)
  pub warnings : List Text

unfoldable pub window_json : Window → WindowJson
window_json w = record {
  start = trunc_div w.start 1000;
  end = trunc_div w.end 1000;
  period = period_seconds w.period;
  range = compact_duration w.range;
  timestamps = timestamps w;
}

pub data PayloadError : Type 0 where
  no_timestamps : PayloadError
  misaligned : Text → Text → ℕ → ℕ → PayloadError
  total_below_rows : Text → ℕ → ℕ → PayloadError
  truncation_disagrees : Text → Bool → ℕ → ℕ → PayloadError

abbrev pub rows_or_empty : {R : Type 0} → Option (List R) → List R
rows_or_empty none = []
rows_or_empty (some rows) = rows

abbrev same_bool : Bool → Bool → Bool
same_bool true b = b
same_bool false b = not b

module _ {R : Type 0} where
  unfoldable pub new_table : List Column → Option (List R) → ℕ → ℕ → Table R
  new_table columns rows total limit =
      let list = rows_or_empty rows in
      record {
        columns = columns;
        rows = list;
        total = total;
        truncated = ltb (length list) total;
        limit = limit;
      }

  unfoldable pub check_table : Text → Option (Table R) → Result PayloadError (Unit {0})
  check_table id none = ok tt
  check_table id (some t) =
      if ltb t.total (length t.rows)
      then err (total_below_rows id t.total (length t.rows))
      else (if same_bool t.truncated (ltb (length t.rows) t.total)
          then ok tt
          else err (truncation_disagrees id t.truncated t.total (length t.rows)))

module _ {V : Type 0} where
  -- The loop over the series of a panel.
  unfoldable pub check_series : Text → ℕ → List (Series V) → Result PayloadError (Unit {0})
  check_series id n [] = ok tt
  check_series id n (s ∷ ss) = do
    if length s.values == n then ok tt else err (misaligned id s.label (length s.values) n)
    check_series id n ss

module _ {V R : Type 0} where
  unfoldable pub new_panel : Text → Text → Panel V R
  new_panel id title = record {
    id = id;
    title = title;
    series = [];
    stats = [];
    table = none;
    bars = none;
    warnings = [];
  }

  unfoldable pub warn_panel : Panel V R → Text → Panel V R
  warn_panel p message = record p { warnings = p.warnings ++ message ∷ [] }

  unfoldable pub new_payload : Window → Payload V R
  new_payload w = record { window = window_json w; panels = []; warnings = [] }

  unfoldable pub add_panels : Payload V R → List (Panel V R) → Payload V R
  add_panels p panels = record p { panels = p.panels ++ panels }

  unfoldable pub warn_payload : Payload V R → Text → Payload V R
  warn_payload p message = record p { warnings = p.warnings ++ message ∷ [] }

  -- The loop over the panels.
  unfoldable pub check_panels : ℕ → List (Panel V R) → Result PayloadError (Unit {0})
  check_panels n [] = ok tt
  check_panels n (p ∷ ps) = do
    check_series p.id n p.series
    check_table p.id p.table
    check_panels n ps

  unfoldable pub validate_payload : Payload V R → Result PayloadError (Unit {0})
  validate_payload p =
      let n = length p.window.timestamps in
      if n == 0 then err no_timestamps else check_panels n p.panels
