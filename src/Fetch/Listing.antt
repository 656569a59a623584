-- ===== src/Fetch/Listing.antt =====
-- server/src/aws/metrics.ts, `fetchChunk`: which series a caller finds under a key, and with which
-- samples.
use skills_dashboard.Common.{
  ℕ, suc, ◌≡◌, refl, sym, ap, ◌∙◌, subst, Option, none, some, List, [], ◌∷◌, map, get_elem?, ok,
  >>=-eq-ok,
}
use skills_dashboard.Common.{ℤ}
use skills_dashboard.Text.{Text}
use skills_dashboard.TextMap.{get}
use skills_dashboard.Window.{Window}
use skills_dashboard.Fetch.{
  MetricSeries, MetricDataResult, MetricRequest, Requests, Store, tag, text_or, result_key,
  label_of, zip, series_for, add_result, absorb_result, absorb_results,
}
use skills_dashboard.Fetch.Points.{Indexed, points_of, tag_of, points_or_empty, place_points}
use skills_dashboard.Fetch.Places.{
  Placed, series_of, keyed, series_of-Placed, series_for-Placed, add_points-Placed,
}
use skills_dashboard.Fetch.Names.{name_of, visit, add_points-names, series_for-names}
use skills_dashboard.Fetch.Collected.{
  gathered, absorb_result-ok, add_result-Indexed, absorb_results-points,
}

module _ {V : Type 0} where
  visit_by : Option MetricRequest → List (Text × Text) → MetricDataResult V → List (Text × Text)
  unfolding visit
  visit_by none names r = names
  visit_by (some req) names r = visit names (result_key req, label_of req r)

  -- The keys and labels of the results, after some that came earlier: each once, in the order in
  -- which they came first.
  unfoldable pub first_names :
      Requests → List (MetricDataResult V) → List (Text × Text) → List (Text × Text)
  unfolding visit_by
  first_names by_id [] names = names
  first_names by_id (r ∷ rs) names =
      first_names by_id rs (visit_by (get (text_or [] r.id) by_id) names r)

  -- The series for a key and a label, with the samples of all results for it.
  abbrev pub gathered_series :
      Window → Requests → List (MetricDataResult V) → Text × Text → MetricSeries V
  gathered_series w by_id rs (k, l) = record {
    key = k;
    label = l;
    points = gathered w by_id (tag k l) rs [];
  }

  abbrev Kept : Store V → List (Text × Text) → Type 0
  Kept s names = Placed s × (map name_of s.heap ≡ names)

  add_result-Kept :
      (w : Window) (req : MetricRequest) (r : MetricDataResult V) (s : Store V)
      → Indexed s
      → Placed s
      → Kept (add_result w req r s) (visit (map name_of s.heap) (result_key req, label_of req r))
  unfolding add_result
  add_result-Kept w req r s v p =
      let found = series_for (result_key req) (label_of req r) s in
      let samples = zip r.stamps r.values in
      (
        add_points-Placed w found.0 samples found.1
            (series_for-Placed (result_key req) (label_of req r) s p),
        add_points-names w found.0 samples found.1
            ∙ series_for-names (result_key req) (label_of req r) s v,
      )

  heap-named :
      (points : Text → List (ℤ × V)) (xs : List (MetricSeries V))
      → ((i : ℕ) (m : MetricSeries V) → get_elem? xs i ≡ some m → m.points ≡ points (tag_of m))
      → xs
        ≡ map (λ (k, l). record { key = k; label = l; points = points (tag k l) }) (map name_of xs)
  heap-named points [] h = refl
  heap-named points (m ∷ xs) h =
      let rest = heap-named points xs (λ i n k. h (suc i) n k) in
      let first : m ≡ record { key = m.key; label = m.label; points = points (tag_of m) } =
        ap (λ p. record { key = m.key; label = m.label; points = p }) (h 0 m refl) in
      ap (λ x. x ∷ xs) first
      ∙ ap (λ l. record { key = m.key; label = m.label; points = points (tag_of m) } ∷ l) rest

  -- The points of a series are those that the index gives for its tag.
  points_of-heap :
      (s : Store V)
      → Indexed s
      → (i : ℕ) (m : MetricSeries V) → get_elem? s.heap i ≡ some m
      → m.points ≡ points_of (tag_of m) s
  points_of-heap s v i m h = sym (ap (place_points s.heap) (v.found i m h) ∙ ap points_or_empty h)

module _ {E V : Type 0} where
  absorb_results-Kept :
      (w : Window) (by_id : Requests) (rs : List (MetricDataResult V)) (s after : Store V)
      → Indexed s
      → Placed s
      → absorb_results {E = E} w by_id rs s ≡ ok after
      → Kept after (first_names by_id rs (map name_of s.heap))
  unfolding absorb_results first_names visit_by
  absorb_results-Kept w by_id [] s after v p h =
      let same : s ≡ after = cc in subst (λ u. Kept u (map name_of s.heap)) same (p, refl)
  absorb_results-Kept w by_id (r ∷ rs) s after v p h =
      let (next, hn, hr) = >>=-eq-ok (absorb_result w by_id r s) _ h in
      let (req, e, _, made) = absorb_result-ok w by_id r s next hn in
      let (i, _) = add_result-Indexed w req r s v in
      let (q, n) = add_result-Kept w req r s v p in
      let (q', n') =
        absorb_results-Kept w by_id rs next after (subst Indexed made i) (subst Placed made q) hr in
      (
        q',
        n'
            ∙ ap (first_names by_id rs) (
                ap (λ u. map name_of u.heap) (sym made)
                ∙ n
                ∙ ap (λ o. visit_by o (map name_of s.heap) r) (sym e)),
      )

  -- What a caller finds under a key when the results have been collected.
  pub series_of-absorb_results :
      (key : Text) (w : Window) (by_id : Requests) (rs : List (MetricDataResult V))
      (s after : Store V)
      → s.heap ≡ []
      → ((t : Text) → points_of t s ≡ [])
      → Indexed s
      → Placed s
      → absorb_results {E = E} w by_id rs s ≡ ok after
      → series_of key after ≡ keyed key (map (gathered_series w by_id rs) (first_names by_id rs []))
  series_of-absorb_results key w by_id rs s after empty none_yet v p h =
      let (i, points) = absorb_results-points {E = E} w by_id rs s after v h in
      let (q, names) = absorb_results-Kept w by_id rs s after v p h in
      let filled =
        heap-named (λ t. gathered w by_id t rs []) after.heap
          (λ j m k.
            points_of-heap after i j m k
            ∙ points (tag_of m)
            ∙ ap (gathered w by_id (tag_of m) rs) (none_yet (tag_of m))) in
      series_of-Placed key after q
      ∙ ap (keyed key) (
          filled
          ∙ ap (map (gathered_series w by_id rs))
              (names ∙ ap (λ l. first_names by_id rs (map name_of l)) empty))
