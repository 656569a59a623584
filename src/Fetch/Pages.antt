-- ===== src/Fetch/Pages.antt =====
-- server/src/aws/metrics.ts, `fetchChunk`: the walk over the pages against a description of what it
-- hears.
use skills_dashboard.Common.{
  ℕ, zero, suc, ◌≡◌, refl, sym, ap, ◌∙◌, subst, ◌↔◌, inl, inr, Bool, true, false, Option, none,
  some, List, ◌++◌, if◌then◌else◌, Bool-cases, Result, ok, err, ◌>>=◌, Result-cases,
}
use skills_dashboard.Text.{Text}
use skills_dashboard.Window.{Window}
use skills_dashboard.Fetch.{
  MetricDataQuery, MetricDataResult, Page, FetchError, Requests, Store, absorb_results,
}
use skills_dashboard.Fetch.Collected.{absorb_results-append}
use skills_dashboard.Fetch.Walk.{walk, is_last}

-- The results of a page before those of the pages that follow.
abbrev joined : {R : Type 0} → List R → Option (List R) → Option (List R)
joined rs none = none
joined rs (some more) = some (rs ++ more)

joined-some :
    {R : Type 0} (rs all : List R) (o : Option (List R))
    → joined rs o ≡ some all
    → (more : List R) × (o ≡ some more) × (rs ++ more ≡ all)
joined-some rs all none h = cc
joined-some rs all (some more) h = (more, refl, cc)

-- There are results that turn one store into another.
abbrev Leaves :
    (E : Type 0) {V : Type 0}
    → Window
    → Requests
    → Option (List (MetricDataResult V))
    → Store V
    → Store V
    → Type 0
Leaves E {V} w by_id o from after =
    (rs : List (MetricDataResult V)) × (o ≡ some rs)
    × (absorb_results {E = E} w by_id rs from ≡ ok after)

-- What one page adds to what the rest of the walk leaves.
module _ {E V : Type 0} (w : Window) (by_id : Requests) (p : List (MetricDataResult V))
    (s : Store V) where
  refused_more :
      (more : List (MetricDataResult V)) (failure : FetchError E)
      → absorb_results w by_id p s ≡ err failure
      → absorb_results w by_id (p ++ more) s ≡ err failure
  refused_more more failure a =
      absorb_results-append w by_id p more s ∙ ap (λ r. r >>= absorb_results w by_id more) a

  accepted_more :
      (more : List (MetricDataResult V)) (next : Store V)
      → absorb_results {E = E} w by_id p s ≡ ok next
      → absorb_results {E = E} w by_id (p ++ more) s ≡ absorb_results w by_id more next
  accepted_more more next a =
      absorb_results-append w by_id p more s ∙ ap (λ r. r >>= absorb_results w by_id more) a

  refused_page :
      (last : Bool) (o : Option (List (MetricDataResult V))) (after : Store V)
      (failure : FetchError E)
      → absorb_results w by_id p s ≡ err failure
      → ¬ Leaves E w by_id (if last then some p else joined p o) s after
  refused_page true o after failure a (rs, h, b) =
      let same : p ≡ rs = cc in
      cc (subst (λ q. absorb_results {E = E} w by_id q s ≡ ok after) (sym same) b, a)
  refused_page false o after failure a (rs, h, b) =
      let (more, _, same) = joined-some p rs o h in
      cc (
        subst (λ q. absorb_results {E = E} w by_id q s ≡ ok after) (sym same) b,
        refused_more more failure a,
      )

  last_page :
      (next after : Store V)
      → absorb_results {E = E} w by_id p s ≡ ok next
      → (Path (Result (FetchError E) (Store V)) (ok next) (ok after))
        ↔ Leaves E w by_id (some p) s after
  last_page next after a = (
    λ h. (p, refl, a ∙ h),
    λ (rs, h, b).
        let same : p ≡ rs = cc in
        sym a ∙ subst (λ q. absorb_results {E = E} w by_id q s ≡ ok after) (sym same) b,
  )

  middle_page :
      (o : Option (List (MetricDataResult V))) (next after : Store V)
      (rest : Result (FetchError E) (Store V))
      → absorb_results {E = E} w by_id p s ≡ ok next
      → (rest ≡ ok after) ↔ Leaves E w by_id o next after
      → (rest ≡ ok after) ↔ Leaves E w by_id (joined p o) s after
  middle_page o next after rest a (there, back) = (
    λ h. let (more, k, b) = there h in (p ++ more, ap (joined p) k, accepted_more more next a ∙ b),
    λ (rs, h, b).
        let (more, k, same) = joined-some p rs o h in
        back (
          more,
          k,
          sym (accepted_more more next a)
              ∙ subst (λ q. absorb_results {E = E} w by_id q s ≡ ok after) (sym same) b,
        ),
  )

module _ {S E V : Type 0}
    (send : S → List MetricDataQuery → Option Text → S × Result E (Page V)) where
  -- All results that `n` pages give, from a token on; `none` if a call fails or the pages go on.
  unfoldable pub heard :
      ℕ → List MetricDataQuery → Option Text → S → Option (List (MetricDataResult V))
  heard zero queries token world = none
  heard (suc n) queries token world =
      let reply = send world queries token in
      elim reply.1 [
        | err e ↦ none
        | ok page ↦
            let rest = joined page.results (heard n queries page.next_token reply.0) in
            if is_last page.next_token then some page.results else rest
      ]

  -- The walk over the pages returns exactly when every call succeeds, the last page comes within the
  -- limit, and every result on them is accepted; and it leaves what all the results leave, taken as
  -- one list. How the results are split over pages does not matter.
  pub walk_iff :
      (n : ℕ) (w : Window) (by_id : Requests) (queries : List MetricDataQuery) (token : Option Text)
      (world : S) (s after : Store V)
      → ((walk send n w by_id queries token world s).1 ≡ ok after) ↔ (
          (rs : List (MetricDataResult V)) × (heard n queries token world ≡ some rs)
          × (absorb_results {E = E} w by_id rs s ≡ ok after))
  unfolding walk heard
  walk_iff zero w by_id queries token world s after = (λ h. cc, λ (rs, h, _). cc)
  walk_iff (suc n) w by_id queries token world s after =
      elim (Result-cases (send world queries token).1) [
        | inr (e, k) ↦ rw (walk, heard, k) (λ h. cc, λ (rs, h, _). cc)
        | inl (page, k) ↦ elim (Result-cases (absorb_results {E = E} w by_id page.results s)) [
          | inr (failure, a) ↦
              rw (walk, heard, k, a)
                (
                  λ h. cc,
                  λ l. absurd (
                      refused_page w by_id page.results s (is_last page.next_token)
                        (heard n queries page.next_token (send world queries token).0) after failure
                        a l),
                )
          | inl (next, a) ↦ elim (Bool-cases (is_last page.next_token)) [
            | inl z ↦ rw (walk, heard, k, a, z) (last_page w by_id page.results s next after a)
            | inr z ↦
                rw (walk, heard, k, a, z)
                  (middle_page w by_id page.results s
                    (heard n queries page.next_token (send world queries token).0) next after
                    (walk send n w by_id queries page.next_token (send world queries token).0
                      next).1
                    a
                    (walk_iff n w by_id queries page.next_token (send world queries token).0 next
                      after))
          ]
        ]
      ]
