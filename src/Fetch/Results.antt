-- ===== src/Fetch/Results.antt =====
-- server/src/aws/metrics.ts, `fetch`: what it returns for the requests of one chunk.
use skills_dashboard.Common.{
  ℕ, zero, suc, ◌≤◌, ◌≡◌, refl, sym, ap, ◌∙◌, ◌↔◌, inl, inr, Option, none, some, List, [], ◌∷◌, map,
  arith, length, take, drop, All, Result, ok, Result-cases,
}
use skills_dashboard.Text.{Text}
use skills_dashboard.TextMap.{get}
use skills_dashboard.Window.{Window}
use skills_dashboard.Fetch.{
  MetricDataQuery, MetricDataResult, MetricRequest, Page, Requests, Store, build, empty_store,
  max_pages,
}
use skills_dashboard.Fetch.Points.{Indexed}
use skills_dashboard.Fetch.Places.{series_of, keyed}
use skills_dashboard.Fetch.Listing.{first_names, gathered_series, series_of-absorb_results}
use skills_dashboard.Fetch.Collected.{absorb_results_iff, Answers}
use skills_dashboard.Fetch.Pages.{heard, walk_iff}
use skills_dashboard.Fetch.Walk.{walk, chunks, fetch_chunk, fetch_chunks, fetch, reindex, index_all}

take_all : {A : Type 0} (n : ℕ) (xs : List A) → length xs ≤ n → take n xs ≡ xs
take_all zero [] h = refl
take_all zero (x ∷ xs) h = absurd (omega arith)
take_all (suc n) [] h = refl
take_all (suc n) (x ∷ xs) h = ap (λ l. x ∷ l) (take_all n xs (omega arith))

drop_all : {A : Type 0} (n : ℕ) (xs : List A) → length xs ≤ n → drop n xs ≡ []
drop_all zero [] h = refl
drop_all zero (x ∷ xs) h = absurd (omega arith)
drop_all (suc n) [] h = refl
drop_all (suc n) (x ∷ xs) h = drop_all n xs (omega arith)

chunks_nil : {A : Type 0} (n size : ℕ) → chunks {A = A} n size [] ≡ []
unfolding chunks
chunks_nil zero size = refl
chunks_nil (suc n) size = refl

chunks_one :
    {A : Type 0} (size : ℕ) (q : A) (qs : List A)
    → length (q ∷ qs) ≤ size
    → chunks (length (q ∷ qs)) size (q ∷ qs) ≡ (q ∷ qs) ∷ []
unfolding chunks
chunks_one {A = A} size q qs h =
    rw (take_all size (q ∷ qs) h, drop_all size (q ∷ qs) h, chunks_nil {A = A} (length qs) size)

empty-Indexed : {V : Type 0} → Indexed (empty_store {V = V})
unfolding empty_store get
empty-Indexed = record { found = λ i m h. cc; stands = λ t i h. cc }

-- The store after `fetch` of one chunk is what its one walk leaves.
module _ {S E V : Type 0}
    (send : S → List MetricDataQuery → Option Text → S × Result E (Page V)) where
  fetch_chunks_one :
      (w : Window) (by_id : Requests) (c : List MetricDataQuery) (world : S) (s : Store V)
      → (fetch_chunks send w by_id (c ∷ []) world s).1 ≡ (fetch_chunk send w by_id c world s).1
  unfolding fetch_chunks
  fetch_chunks_one w by_id c world s = elim (Result-cases (fetch_chunk send w by_id c world s).1) [
    | inl (after, e) ↦ rw (fetch_chunks, e)
    | inr (failure, e) ↦ rw (fetch_chunks, e)
  ]

  fetch_one :
      (size : ℕ) (w : Window) (reqs : List MetricRequest) (world : S) (by_id : Requests)
      (q : MetricDataQuery) (qs : List MetricDataQuery)
      → build {E = E} w reqs [] [] ≡ ok (by_id, q ∷ qs)
      → length (q ∷ qs) ≤ size
      → (fetch send size w reqs world).1
        ≡ (walk send max_pages w by_id (q ∷ qs) none world empty_store).1
  unfolding fetch fetch_chunk reindex index_all empty_store
  fetch_one size w reqs world by_id q qs h k =
      rw (fetch, h)
        (ap (λ cs. (fetch_chunks send w by_id cs world empty_store).1) (chunks_one size q qs k)
          ∙ fetch_chunks_one w by_id (q ∷ qs) world empty_store)

  -- For requests that fit into one chunk, `fetch` returns exactly when every page is heard, within
  -- the limit of 20, and every result on them names a query of the call and has a value for each
  -- time.
  pub fetch_iff :
      (size : ℕ) (w : Window) (reqs : List MetricRequest) (world : S) (by_id : Requests)
      (q : MetricDataQuery) (qs : List MetricDataQuery)
      → build {E = E} w reqs [] [] ≡ ok (by_id, q ∷ qs)
      → length (q ∷ qs) ≤ size
      → ((after : Store V) × ((fetch send size w reqs world).1 ≡ ok after)) ↔ (
          (rs : List (MetricDataResult V)) × (heard send max_pages (q ∷ qs) none world ≡ some rs)
          × All (Answers by_id) rs)
  fetch_iff size w reqs world by_id q qs h k =
      let one = fetch_one size w reqs world by_id q qs h k in
      (
        λ (after, f).
            let (rs, heard_all, kept) =
              (walk_iff send max_pages w by_id (q ∷ qs) none world empty_store after).0
                (sym one ∙ f) in
            (rs, heard_all, (absorb_results_iff w by_id rs empty_store).0 (after, kept)),
        λ (rs, heard_all, answers).
            let (after, kept) = (absorb_results_iff w by_id rs empty_store).1 answers in
            (
              after,
              one
                  ∙ (walk_iff send max_pages w by_id (q ∷ qs) none world empty_store after).1
                      (rs, heard_all, kept),
            ),
      )

  -- What the caller of `fetch` finds in the returned map, for requests that fit into one chunk:
  -- under each key the series of the results for that key, one for each label, in the order in which
  -- the pages named them first; and in each series the samples of all results for its key and label,
  -- in the order in which the pages gave them, the last one for a bucket kept. A key and a label are
  -- told apart from others, as in the code, by the text of the two with a NUL between them.
  pub fetch-points :
      (key : Text) (size : ℕ) (w : Window) (reqs : List MetricRequest) (world : S)
      (by_id : Requests) (q : MetricDataQuery) (qs : List MetricDataQuery) (after : Store V)
      → build {E = E} w reqs [] [] ≡ ok (by_id, q ∷ qs)
      → length (q ∷ qs) ≤ size
      → (fetch send size w reqs world).1 ≡ ok after
      → (rs : List (MetricDataResult V)) × (heard send max_pages (q ∷ qs) none world ≡ some rs)
        × (series_of key after
            ≡ keyed key (map (gathered_series w by_id rs) (first_names by_id rs [])))
  unfolding empty_store get
  fetch-points key size w reqs world by_id q qs after h k f =
      let one = fetch_one size w reqs world by_id q qs h k in
      let (rs, heard_all, kept) =
        (walk_iff send max_pages w by_id (q ∷ qs) none world empty_store after).0 (sym one ∙ f) in
      (
        rs,
        heard_all,
        series_of-absorb_results {E = E} key w by_id rs empty_store after refl (λ t. refl)
            empty-Indexed (λ k. refl) kept,
      )
