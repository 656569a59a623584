-- ===== src/Tests/Panels.antt =====
-- Runs of server/src/domain/series.ts and of server/src/aws/metrics.ts, and their properties at inputs.
use skills_dashboard.Common.{Option}
use skills_dashboard.Common.{
  ℕ, ◌+◌, ◌/◌, ◌≤◌, ◌<◌, ◌≡◌, refl, ◌↔◌, ◌⊎◌, true, none, some, List, [], ◌∷◌, arith, ltb,
  if◌then◌else◌, length, All, ok,
}
use skills_dashboard.Common.{ℤ, pos, negsuc, ◌+ℤ◌, ◌-ℤ◌, eqb_ℤ, floor_to, trunc_div}
use skills_dashboard.Text.{text}
use skills_dashboard.Window.{
  Window, buckets, bucket_count, timestamps, axis, index_of, align, minute,
}
use skills_dashboard.Window.Bounds.{IsValid}
use skills_dashboard.Series.{
  Series, count, new_series, set_at, add_at, defined, reduce, reduce_from, avg, last, point_at,
}
use skills_dashboard.Payload.{
  Panel, new_payload, new_panel, new_table, add_panels, window_json, validate_payload, check_table,
  check_panels, check_series,
}
use skills_dashboard.Payload.Checks.{PanelFits, validate_payload_iff}
use skills_dashboard.Metrics.{
  align_to_bucket, absorb, to_series, project, fill_at, get_point, set_point,
}
use skills_dashboard.Metrics.Projection.{newest, point_at-absorb}

program : Unit {0}
unfolding new_series set_at add_at defined reduce reduce_from avg last buckets bucket_count
    timestamps axis index_of align floor_to trunc_div ◌+ℤ◌ ◌-ℤ◌ align_to_bucket absorb to_series
    project fill_at get_point set_point eqb_ℤ new_payload new_panel new_table add_panels window_json
    validate_payload check_table check_panels check_series
program = tt

-- Five minutes from one minute before 1970 on.
abbrev five : Window
five = record { start = negsuc 59_999; end = pos 240_000; range = 300_000; period = minute }

five-IsValid : IsValid five
unfolding program
five-IsValid = record { compatible = omega arith; span = refl; aligned = refl }

abbrev line : Series ℕ
line = record {
  label = text "p50";
  measure = count;
  color = [];
  dash = [];
  values = some 4 ∷ none ∷ some 9 ∷ some 2 ∷ none ∷ [];
}

abbrev larger : ℕ → ℕ → ℕ
larger a b = if ltb a b then b else a

reductions :
    (reduce larger line ≡ some 9)
    × (defined line ≡ 3)
    × (last line ≡ some 2)
    × (avg ◌+◌ 0 ◌/◌ line ≡ some 5)
unfolding program
reductions = (refl, refl, refl, refl)

greatest : reduce larger line ≡ some 9
unfolding program
greatest = refl

-- Two samples share a bucket, one lies off the grid, one before the window.
abbrev arrivals : List (ℤ × ℕ)
arrivals = (negsuc 59_999, 1) ∷ (pos 61_000, 5) ∷ (pos 90_000, 6) ∷ (negsuc 60_000, 8) ∷ []

projected :
    (to_series (absorb five [] arrivals) five [] count []).values
    ≡ some 1 ∷ none ∷ some 6 ∷ none ∷ none ∷ []
unfolding program
projected = refl

abbrev sheet : Panel ℕ ℕ
sheet = record {
  id = text "waf-blocked";
  title = [];
  series = line ∷ [];
  stats = [];
  table =
      some (record { columns = []; rows = 1 ∷ 2 ∷ []; total = 40; truncated = true; limit = 2 });
  bars = none;
  warnings = [];
}

sheet-PanelFits : PanelFits (buckets five) sheet
unfolding program
sheet-PanelFits = ((refl, tt), record { covered = omega arith; flagged = refl })

third_bucket : 2 < buckets five
unfolding program
third_bucket = omega arith

point_at-absorb_example :
    point_at (to_series (absorb five [] arrivals) five [] count []).values 2
    ≡ newest five 2 arrivals
point_at-absorb_example =
    point_at-absorb five arrivals [] count [] 2 five-IsValid (omega arith) third_bucket

validate_payload_iff_example :
    (validate_payload (add_panels (new_payload five) (sheet ∷ [])) ≡ ok tt) ↔ (
      (0 < length (add_panels (new_payload five) (sheet ∷ [])).window.timestamps)
      × All
          (PanelFits (length (add_panels (new_payload five) (sheet ∷ [])).window.timestamps))
          (add_panels (new_payload five) (sheet ∷ [])).panels)
validate_payload_iff_example = validate_payload_iff (add_panels (new_payload five) (sheet ∷ []))

abbrev table_rows : Option (List ℕ)
table_rows = some (1 ∷ 2 ∷ [])

larger_either : (a b : ℕ) → (larger a b ≡ a) ⊎ (larger a b ≡ b)
larger_either a b = ground arith

larger_upper : (a b : ℕ) → (a ≤ larger a b) × (b ≤ larger a b)
larger_upper a b = ground arith

le_chain : (a b c : ℕ) → a ≤ b → b ≤ c → a ≤ c
le_chain a b c h k = omega arith
