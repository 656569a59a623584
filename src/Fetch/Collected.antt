-- ===== src/Fetch/Collected.antt =====
-- server/src/aws/metrics.ts, `fetchChunk`: what the results of a walk leave in the series.
use skills_dashboard.Common.{
  ◌≡◌, refl, sym, ap, ◌∙◌, subst, ◌↔◌, inl, inr, Bool, true, false, Option, none, some, List, [],
  ◌∷◌, ◌++◌, ◌==◌, if◌then◌else◌, length, All, ok, ◌>>=◌, >>=-eq-ok, Result-cases,
}
use skills_dashboard.Common.{ℤ}
use skills_dashboard.Common.{if-eq-ok, ==_iff}
use skills_dashboard.Text.{Text, text_eq}
use skills_dashboard.TextMap.{get}
use skills_dashboard.Window.{Window}
use skills_dashboard.Metrics.{absorb}
use skills_dashboard.Fetch.{
  MetricDataResult, MetricRequest, Requests, Store, tag, text_or, result_key, label_of, zip,
  series_for, add_points, add_result, absorb_for, absorb_result, absorb_results,
}
use skills_dashboard.Fetch.Points.{
  Indexed, points_of, series_for-Indexed, add_points-Indexed, add_points-points,
}

module _ {V : Type 0} where
  -- A result that is for the series with tag `t`.
  lands_by : Option MetricRequest → Text → MetricDataResult V → Bool
  lands_by none t r = false
  lands_by (some req) t r = text_eq (tag (result_key req) (label_of req r)) t

  abbrev lands : Requests → Text → MetricDataResult V → Bool
  lands by_id t r = lands_by (get (text_or [] r.id) by_id) t r

  -- The samples of the results for a tag, one result after the other, on top of some points.
  unfoldable pub gathered :
      Window → Requests → Text → List (MetricDataResult V) → List (ℤ × V) → List (ℤ × V)
  unfolding lands_by
  gathered w by_id t [] points = points
  gathered w by_id t (r ∷ rs) points =
      gathered w by_id t rs
        (if lands by_id t r then absorb w points (zip r.stamps r.values) else points)

  -- A result that answers a query, with a value for every time.
  abbrev pub Answers : Requests → MetricDataResult V → Type 0
  Answers by_id r =
      ((req : MetricRequest) × (get (text_or [] r.id) by_id ≡ some req))
      × (length r.stamps ≡ length r.values)

  pub add_result-Indexed :
      (w : Window) (req : MetricRequest) (r : MetricDataResult V) (s : Store V)
      → Indexed s
      → Indexed (add_result w req r s)
        × ((t : Text)
            → points_of t (add_result w req r s) ≡ (
                if text_eq (tag (result_key req) (label_of req r)) t
                then absorb w (points_of t s) (zip r.stamps r.values)
                else points_of t s))
  unfolding add_result
  add_result-Indexed w req r s v =
      let found = series_for (result_key req) (label_of req r) s in
      let (i, named, same) = series_for-Indexed (result_key req) (label_of req r) s v in
      (
        add_points-Indexed w found.0 (zip r.stamps r.values) found.1 i,
        λ t.
            subst
              (λ p. points_of t (add_points w found.0 (zip r.stamps r.values) found.1) ≡ (
                if text_eq (tag (result_key req) (label_of req r)) t
                then absorb w p (zip r.stamps r.values)
                else p))
              (same t)
              (add_points-points w found.0 (zip r.stamps r.values) found.1 i
                (tag (result_key req) (label_of req r)) t named),
      )

module _ {E V : Type 0} where
  absorb_for-ok :
      (w : Window) (o : Option MetricRequest) (r : MetricDataResult V) (s after : Store V)
      → absorb_for {E = E} w o r s ≡ ok after
      → (req : MetricRequest) × (o ≡ some req)
        × (length r.stamps ≡ length r.values)
        × (add_result w req r s ≡ after)
  unfolding absorb_for
  absorb_for-ok w none r s after h = cc
  absorb_for-ok w (some req) r s after h =
      let (even, made) = if-eq-ok (length r.stamps == length r.values) (add_result w req r s) _ h in
      (req, refl, (==_iff _ _).0 even, made)

  absorb_for-some :
      (w : Window) (req : MetricRequest) (r : MetricDataResult V) (s : Store V)
      → length r.stamps ≡ length r.values
      → absorb_for {E = E} w (some req) r s ≡ ok (add_result w req r s)
  unfolding absorb_for
  absorb_for-some w req r s n =
      let even : (length r.stamps == length r.values) ≡ true = (==_iff _ _).1 n in rw even

  -- What a result that is accepted does.
  pub absorb_result-ok :
      (w : Window) (by_id : Requests) (r : MetricDataResult V) (s after : Store V)
      → absorb_result {E = E} w by_id r s ≡ ok after
      → (req : MetricRequest) × (get (text_or [] r.id) by_id ≡ some req)
        × (length r.stamps ≡ length r.values)
        × (add_result w req r s ≡ after)
  unfolding absorb_result
  absorb_result-ok w by_id r s after h = absorb_for-ok w (get (text_or [] r.id) by_id) r s after h

  absorb_result-some :
      (w : Window) (by_id : Requests) (r : MetricDataResult V) (s : Store V)
      → Answers by_id r
      → (after : Store V) × (absorb_result {E = E} w by_id r s ≡ ok after)
  unfolding absorb_result
  absorb_result-some w by_id r s ((req, e), n) =
      (add_result w req r s, ap (λ o. absorb_for w o r s) e ∙ absorb_for-some w req r s n)

  -- The series that a walk leaves hold the samples of the results for their tag, one result after
  -- the other, in the order in which they came.
  pub absorb_results-points :
      (w : Window) (by_id : Requests) (rs : List (MetricDataResult V)) (s after : Store V)
      → Indexed s
      → absorb_results {E = E} w by_id rs s ≡ ok after
      → Indexed after × ((t : Text) → points_of t after ≡ gathered w by_id t rs (points_of t s))
  unfolding absorb_results gathered lands_by
  absorb_results-points w by_id [] s after v h =
      let same : s ≡ after = cc in
      subst (λ u. Indexed u × ((t : Text) → points_of t u ≡ points_of t s)) same (v, λ t. refl)
  absorb_results-points w by_id (r ∷ rs) s after v h =
      let (next, hn, hr) = >>=-eq-ok (absorb_result w by_id r s) _ h in
      let (req, e, _, made) = absorb_result-ok w by_id r s next hn in
      let (i, p) = add_result-Indexed w req r s v in
      let (j, q) = absorb_results-points w by_id rs next after (subst Indexed made i) hr in
      (
        j,
        λ t.
            q t
            ∙ ap (gathered w by_id t rs) (
                ap (points_of t) (sym made)
                ∙ p t
                ∙ ap
                    (λ o.
                      if lands_by o t r
                      then absorb w (points_of t s) (zip r.stamps r.values)
                      else points_of t s)
                    (sym e)),
      )

  pub absorb_results_iff :
      (w : Window) (by_id : Requests) (rs : List (MetricDataResult V)) (s : Store V)
      → ((after : Store V) × (absorb_results {E = E} w by_id rs s ≡ ok after))
        ↔ All (Answers by_id) rs
  unfolding absorb_results
  absorb_results_iff w by_id [] s = (λ _. tt, λ _. (s, refl))
  absorb_results_iff w by_id (r ∷ rs) s = (
    λ (after, h).
        let (next, hn, hr) = >>=-eq-ok (absorb_result w by_id r s) _ h in
        let (req, e, n, _) = absorb_result-ok w by_id r s next hn in
        (((req, e), n), (absorb_results_iff w by_id rs next).0 (after, hr)),
    λ (first, others).
        let (next, hn) = absorb_result-some w by_id r s first in
        let (after, h) = (absorb_results_iff w by_id rs next).1 others in (after, rw hn h),
  )

  pub absorb_results-append :
      (w : Window) (by_id : Requests) (xs ys : List (MetricDataResult V)) (s : Store V)
      → absorb_results {E = E} w by_id (xs ++ ys) s
        ≡ (absorb_results w by_id xs s >>= absorb_results w by_id ys)
  unfolding absorb_results
  absorb_results-append w by_id [] ys s = refl
  absorb_results-append w by_id (x ∷ xs) ys s =
      elim (Result-cases (absorb_result {E = E} w by_id x s)) [
        | inl (next, e) ↦ rw (e, absorb_results-append w by_id xs ys next)
        | inr (failure, e) ↦ rw e
      ]
