-- ===== src/Fetch.antt =====
-- server/src/aws/metrics.ts, `MetricFetcher`: it asks CloudWatch for every request of a page, in
-- chunks and page by page, and collects the answers into series. A series is an object that the
-- result and the index share: it stands on a heap, and both hold its place there. The calls of
-- CloudWatch are the parameter `send`, over a state `S` of that service.
pub mod Walk
pub mod Heap
pub mod Points
pub mod Places
pub mod Names
pub mod Listing
pub mod Collected
pub mod Pages
pub mod Results
pub mod Build
use skills_dashboard.Common.{
  ℕ, zero, suc, ◌+◌, ◌-◌, ◌*◌, ◌/◌, ◌%◌, ◌^◌, ◌≤◌, ◌<◌, min, ◌≡◌, refl, sym, ap, ◌∙◌, subst, ◌≢◌,
  ◌↔◌, ◌⊎◌, inl, inr, Bool, true, false, ◌&&◌, ◌||◌, not, Option, none, some, List, [], ◌∷◌, ◌++◌,
  map, append-nil, append_assoc, arith, ltb, leb, ◌==◌, if◌then◌else◌, Bool-cases, Option-cases,
  length, get_elem?, set, take, drop, replicate, length-append, length-map, length-replicate,
  Listed, All, All-Listed, All-append, Result, ok, err, ◌>>=◌, ◌>>◌, >>=-eq-ok, Result-cases,
}
use skills_dashboard.Common.{
  ℤ, pos, negsuc, pos_part, neg_part, sub_ℕ, ◌+ℤ◌, ◌-ℤ◌, ◌≤ℤ◌, ◌<ℤ◌, ltb_ℤ, eqb_ℤ, +ℤ_parts,
  -ℤ_parts, eq_of_parts, part_cases, eqb_ℤ_eq, eqb_ℤ_refl, int_laws, floor_to, trunc_div,
}
use skills_dashboard.Text.{Text, text, is_empty}
use skills_dashboard.TextMap.{get, put}
use skills_dashboard.Window.{Window, period_seconds}
use skills_dashboard.Catalog.{MetricSpec}
use skills_dashboard.Catalog.Search.{SearchError, search_expression, query_id}
use skills_dashboard.Metrics.{absorb}

pub record MetricRequest : Type 0 where
  pub key : Option Text
  pub spec : MetricSpec
  pub filters : List (Text × Text)

-- A text that is given and not empty, or the default.
abbrev pub text_or : Text → Option Text → Text
text_or d none = d
text_or d (some s) = if is_empty s then d else s

unfoldable pub result_key : MetricRequest → Text
result_key r = text_or r.spec.key r.key

pub record MetricSeries (V : Type 0) : Type 0 where
  pub key : Text
  pub label : Text
  pub points : List (ℤ × V)

-- What `fetch` asks for, and one result and one page of what CloudWatch answers.
pub record MetricDataQuery : Type 0 where
  pub id : Text
  pub expression : Text
  pub period : ℕ

pub record MetricDataResult (V : Type 0) : Type 0 where
  pub id : Option Text
  pub label : Option Text
  pub stamps : List ℤ
  pub values : List V

pub record Page (V : Type 0) : Type 0 where
  pub results : List (MetricDataResult V)
  pub next_token : Option Text

pub data FetchError (E : Type 0) : Type 0 where
  search_failed : Text → SearchError → FetchError E
  duplicate_id : Text → Text → FetchError E
  too_many_pages : FetchError E
  send_failed : E → FetchError E
  unknown_id : Text → FetchError E
  uneven_result : Text → ℕ → ℕ → FetchError E

abbrev pub Requests : Type 0
Requests = List (Text × MetricRequest)

abbrev pub max_queries_per_call : ℕ
max_queries_per_call = 500

abbrev pub max_pages : ℕ
max_pages = 20

-- `options.maxQueries` if it is given and positive.
unfoldable pub chunk_size : Option ℕ → ℕ
chunk_size none = max_queries_per_call
chunk_size (some n) = if ltb 0 n then n else max_queries_per_call

-- `key + sep + label`
abbrev pub tag : Text → Text → Text
tag key label = key ++ 0 ∷ label

module _ {E : Type 0} where
  -- The search of one request, its error wrapped.
  unfoldable pub search : Window → MetricRequest → Result (FetchError E) Text
  search w r = elim (search_expression r.spec r.filters (period_seconds w.period)) [
    | err e ↦ err (search_failed (result_key r) e)
    | ok t ↦ ok t
  ]

  -- The loop over the requests: `byID` and `queries`.
  unfoldable pub build :
      Window
      → List MetricRequest
      → Requests
      → List MetricDataQuery
      → Result (FetchError E) (Requests × List MetricDataQuery)
  unfolding search
  build w [] by_id queries = ok (by_id, queries)
  build w (r ∷ reqs) by_id queries = do
    expression ← search w r
    let id = query_id (result_key r)
    let query : MetricDataQuery = record {
      id = id;
      expression = expression;
      period = period_seconds w.period;
    }
    elim (get id by_id) [
      | some _ ↦ err (duplicate_id id (result_key r))
      | none ↦ build w reqs (put id r by_id) (queries ++ query ∷ [])
    ]

-- What has been collected: the series, their places by key in `out`, and by tag in `index`.
pub record Store (V : Type 0) : Type 0 where
  pub heap : List (MetricSeries V)
  pub out : List (Text × List ℕ)
  pub index : List (Text × ℕ)

abbrev pub ids_or_empty : Option (List ℕ) → List ℕ
ids_or_empty none = []
ids_or_empty (some ids) = ids

-- An element of a list, changed in place.
abbrev pub modify : {A : Type 0} → ℕ → (A → A) → List A → List A
modify i f [] = []
modify zero f (x ∷ xs) = f x ∷ xs
modify (suc i) f (x ∷ xs) = x ∷ modify i f xs

module _ {V : Type 0} where
  unfoldable pub empty_store : Store V
  empty_store = record { heap = []; out = []; index = [] }

  -- `index.get(k)`, and what a miss does.
  unfoldable pub series_for : Text → Text → Store V → ℕ × Store V
  unfolding get put
  series_for key label s = elim (get (tag key label) s.index) [
    | some id ↦ (id, s)
    | none ↦ (
      length s.heap,
      record {
        heap = s.heap ++ record { key = key; label = label; points = [] } ∷ [];
        out = put key (ids_or_empty (get key s.out) ++ length s.heap ∷ []) s.out;
        index = put (tag key label) (length s.heap) s.index;
      },
    )
  ]

  -- The loop over the stamps and values of a result.
  unfoldable pub add_points : Window → ℕ → List (ℤ × V) → Store V → Store V
  add_points w id samples s = record s {
    heap = modify id (λ m. record m { points = absorb w m.points samples }) s.heap;
  }

  abbrev pub zip : List ℤ → List V → List (ℤ × V)
  zip (t ∷ ts) (v ∷ vs) = (t, v) ∷ zip ts vs
  zip _ _ = []

  unfoldable pub label_of : MetricRequest → MetricDataResult V → Text
  label_of req r = text_or req.spec.label r.label

  unfoldable pub add_result : Window → MetricRequest → MetricDataResult V → Store V → Store V
  unfolding series_for add_points label_of
  add_result w req r s =
      let found = series_for (result_key req) (label_of req r) s in
      add_points w found.0 (zip r.stamps r.values) found.1

module _ {E V : Type 0} where
  -- The body of the loop over the results of a page, for what `byID` has.
  unfoldable pub absorb_for :
      Window → Option MetricRequest → MetricDataResult V → Store V → Result (FetchError E) (Store V)
  unfolding add_result
  absorb_for w none r s = err (unknown_id (text_or [] r.id))
  absorb_for w (some req) r s =
      if length r.stamps == length r.values
      then ok (add_result w req r s)
      else err (uneven_result (text_or [] r.id) (length r.stamps) (length r.values))

  unfoldable pub absorb_result :
      Window → Requests → MetricDataResult V → Store V → Result (FetchError E) (Store V)
  unfolding absorb_for get
  absorb_result w by_id r s = absorb_for w (get (text_or [] r.id) by_id) r s

  unfoldable pub absorb_results :
      Window → Requests → List (MetricDataResult V) → Store V → Result (FetchError E) (Store V)
  unfolding absorb_result
  absorb_results w by_id [] s = ok s
  absorb_results w by_id (r ∷ rs) s = do
    after ← absorb_result w by_id r s
    absorb_results w by_id rs after
