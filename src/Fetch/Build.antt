-- ===== src/Fetch/Build.antt =====
-- server/src/aws/metrics.ts, `fetch`: the queries that it builds, and the map back to the requests.
use skills_dashboard.Common.{
  ◌+◌, ◌≡◌, sym, ap, ◌∙◌, subst, ◌≢◌, inl, inr, Option, none, some, List, [], ◌∷◌, ◌++◌, arith,
  Option-cases, length, length-append, Listed, Result, ok, err, >>=-eq-ok,
}
use skills_dashboard.Text.{Text}
use skills_dashboard.TextMap.{get, put, get-put_self, get-put_ne}
use skills_dashboard.Window.{Window, period_seconds}
use skills_dashboard.Catalog.Search.{query_id}
use skills_dashboard.Fetch.{
  MetricDataQuery, MetricRequest, FetchError, Requests, result_key, search, build, duplicate_id,
}

-- The identifier of a request's query.
abbrev pub id_of : MetricRequest → Text
id_of r = query_id (result_key r)

abbrev query_of : Window → MetricRequest → Text → MetricDataQuery
query_of w r expression = record {
  id = id_of r;
  expression = expression;
  period = period_seconds w.period;
}

abbrev proceed :
    {E : Type 0}
    → Window
    → MetricRequest
    → List MetricRequest
    → Requests
    → List MetricDataQuery
    → Text
    → Option MetricRequest
    → Result (FetchError E) (Requests × List MetricDataQuery)
proceed w r reqs by_id queries expression o = elim o [
  | some _ ↦ err (duplicate_id (id_of r) (result_key r))
  | none ↦ build w reqs (put (id_of r) r by_id) (queries ++ query_of w r expression ∷ [])
]

module _ {E : Type 0} where
  -- One round of the loop that goes on.
  build_cons :
      (w : Window) (r : MetricRequest) (reqs : List MetricRequest) (by_id : Requests)
      (queries : List MetricDataQuery) (result : Requests × List MetricDataQuery)
      → build {E = E} w (r ∷ reqs) by_id queries ≡ ok result
      → (expression : Text) × (search {E = E} w r ≡ ok expression)
        × (get (id_of r) by_id ≡ none)
        × (build {E = E} w reqs (put (id_of r) r by_id) (queries ++ query_of w r expression ∷ [])
            ≡ ok result)
  unfolding build
  build_cons w r reqs by_id queries result h =
      let (expression, found, rest) = >>=-eq-ok (search {E = E} w r) _ h in
      elim (Option-cases (get (id_of r) by_id)) [
        | inl e ↦ (
          expression,
          found,
          e,
          sym (ap (proceed {E = E} w r reqs by_id queries expression) e) ∙ rest,
        )
        | inr (other, e) ↦
            cc (sym (ap (proceed {E = E} w r reqs by_id queries expression) e) ∙ rest)
      ]

  -- What the loop adds leaves what it has.
  build_keeps :
      (w : Window) (reqs : List MetricRequest) (by_id : Requests) (queries : List MetricDataQuery)
      (result : Requests × List MetricDataQuery)
      → build {E = E} w reqs by_id queries ≡ ok result
      → (id : Text) (r : MetricRequest) → get id by_id ≡ some r
      → get id result.0 ≡ some r
  unfolding build
  build_keeps w [] by_id queries result h id r k =
      let same : (by_id, queries) ≡ result = cc in subst (λ m. get id m.0 ≡ some r) same k
  build_keeps w (q ∷ reqs) by_id queries result h id r k =
      let (expression, _, free, rest) = build_cons w q reqs by_id queries result h in
      let apart : id_of q ≢ id = λ same. cc (subst (λ i. get i by_id ≡ none) same free, k) in
      build_keeps w reqs (put (id_of q) q by_id) (queries ++ query_of w q expression ∷ []) result
        rest id r (get-put_ne (id_of q) id q by_id apart ∙ k)

  -- When the queries can be built, there is one for each request, and the identifier of each request
  -- leads back to that request and no other.
  pub build-get :
      (w : Window) (reqs : List MetricRequest) (by_id : Requests) (queries : List MetricDataQuery)
      (result : Requests × List MetricDataQuery)
      → build {E = E} w reqs by_id queries ≡ ok result
      → (length result.1 ≡ length queries + length reqs)
        × ((r : MetricRequest) → Listed r reqs → get (id_of r) result.0 ≡ some r)
  unfolding build
  build-get w [] by_id queries result h =
      let same : (by_id, queries) ≡ result = cc in
      (subst (λ m. length m.1 ≡ length queries + 0) same (omega arith), λ r l. absurd l)
  build-get w (q ∷ reqs) by_id queries result h =
      let (expression, _, free, rest) = build_cons w q reqs by_id queries result h in
      let grown = queries ++ query_of w q expression ∷ [] in
      let (n, back) = build-get w reqs (put (id_of q) q by_id) grown result rest in
      (
        omega (arith, n, length-append queries (query_of w q expression ∷ [])),
        λ r l. elim l [
          | inl e ↦
              subst (λ x. get (id_of x) result.0 ≡ some x) (sym e)
                (build_keeps w reqs (put (id_of q) q by_id) grown result rest (id_of q) q
                  (get-put_self (id_of q) q by_id))
          | inr m ↦ back r m
        ],
      )
