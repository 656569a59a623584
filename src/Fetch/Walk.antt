-- ===== src/Fetch/Walk.antt =====
-- server/src/aws/metrics.ts, `fetchChunk` and `fetch`: the walk over the pages of a chunk and over
-- the chunks, with the calls of CloudWatch as a parameter.
use skills_dashboard.Common.{
  ℕ, zero, suc, Bool, true, Option, none, some, List, [], ◌∷◌, if◌then◌else◌, length, get_elem?,
  take, drop, Result, ok, err,
}
use skills_dashboard.Text.{Text, is_empty}
use skills_dashboard.TextMap.{put}
use skills_dashboard.Window.{Window}
use skills_dashboard.Fetch.{
  MetricRequest, MetricSeries, MetricDataQuery, Page, FetchError, Requests, Store, too_many_pages,
  send_failed, max_pages, tag, build, empty_store, absorb_results,
}

-- `resp.NextToken === undefined || resp.NextToken === ''`
abbrev pub is_last : Option Text → Bool
is_last none = true
is_last (some t) = is_empty t

module _ {V : Type 0} where
  -- The two loops that fill `index` at the start of a chunk.
  unfoldable pub index_ids :
      List (MetricSeries V) → Text → List ℕ → List (Text × ℕ) → List (Text × ℕ)
  unfolding put
  index_ids heap key [] index = index
  index_ids heap key (id ∷ ids) index = elim (get_elem? heap id) [
    | none ↦ index_ids heap key ids index
    | some m ↦ index_ids heap key ids (put (tag key m.label) id index)
  ]

  unfoldable pub index_all :
      List (MetricSeries V) → List (Text × List ℕ) → List (Text × ℕ) → List (Text × ℕ)
  unfolding index_ids
  index_all heap [] index = index
  index_all heap ((key, ids) ∷ out) index = index_all heap out (index_ids heap key ids index)

  unfoldable pub reindex : Store V → Store V
  unfolding index_all
  reindex s = record s { index = index_all s.heap s.out [] }

-- `queries.slice(start, start + chunkSize)`, for each start: fuel is the number of queries, and a
-- chunk takes at least one.
unfoldable pub chunks : {A : Type 0} → ℕ → ℕ → List A → List (List A)
chunks n size [] = []
chunks zero size (q ∷ qs) = []
chunks (suc n) size (q ∷ qs) = take size (q ∷ qs) ∷ chunks n size (drop size (q ∷ qs))

module _ {S E V : Type 0}
    (send : S → List MetricDataQuery → Option Text → S × Result E (Page V)) where
  -- The loop over the pages, with `n` pages left; a page beyond the last allowed one throws.
  unfoldable pub walk :
      ℕ
      → Window
      → Requests
      → List MetricDataQuery
      → Option Text
      → S
      → Store V
      → S × Result (FetchError E) (Store V)
  unfolding absorb_results
  walk zero w by_id queries token world s = (world, err too_many_pages)
  walk (suc n) w by_id queries token world s =
      let reply = send world queries token in
      elim reply.1 [
        | err e ↦ (reply.0, err (send_failed e))
        | ok page ↦ elim (absorb_results w by_id page.results s) [
          | err e ↦ (reply.0, err e)
          | ok after ↦
              let rest = walk n w by_id queries page.next_token reply.0 after in
              if is_last page.next_token then (reply.0, ok after) else rest
        ]
      ]

  unfoldable pub fetch_chunk :
      Window → Requests → List MetricDataQuery → S → Store V → S × Result (FetchError E) (Store V)
  unfolding walk reindex
  fetch_chunk w by_id queries world s = walk max_pages w by_id queries none world (reindex s)

  -- The loop over the chunks.
  unfoldable pub fetch_chunks :
      Window
      → Requests
      → List (List MetricDataQuery)
      → S
      → Store V
      → S × Result (FetchError E) (Store V)
  unfolding fetch_chunk
  fetch_chunks w by_id [] world s = (world, ok s)
  fetch_chunks w by_id (c ∷ cs) world s =
      let first = fetch_chunk w by_id c world s in
      elim first.1 [ err e ↦ (first.0, err e) | ok after ↦ fetch_chunks w by_id cs first.0 after ]

  -- `fetch`; no request needs no call.
  unfoldable pub fetch : ℕ → Window → List MetricRequest → S → S × Result (FetchError E) (Store V)
  unfolding fetch_chunks build chunks empty_store
  fetch size w reqs world = elim (build w reqs [] []) [
    | err e ↦ (world, err e)
    | ok (by_id, queries) ↦
        fetch_chunks w by_id (chunks (length queries) size queries) world empty_store
  ]
