-- ===== src/Cache/Waits.antt =====
-- Calls that enter, loads that end, and waiting calls that run preserve the invariant.
use skills_dashboard.Common.{
  ℕ, ◌<◌, ◌≡◌, refl, sym, subst, ◌≢◌, inl, inr, true, false, none, some, List, [], ◌∷◌, ◌++◌, arith,
  Bool-cases, Option-cases, All, All-append, Result,
}
use skills_dashboard.Text.{Text}
use skills_dashboard.Cache.{
  Cache, Entry, Job, waiter, job_entry, job_key, prune, wait_on, enter, resolve, remove_own, put,
  run_waiter, fresh,
}
use skills_dashboard.Cache.Ordering.{Leads, Leads-append, Leads-append_other, All-map}
use skills_dashboard.Cache.Inv.{Queued, EntryOk, Inv, put-elim, EntryOk-jobs, Queued-put, known-put}
use skills_dashboard.Cache.Moves.{prune-Inv, remove_own-Inv, start-Inv}

module _ {E V : Type 0} where
  -- A call that waits for an entry whose load has ended.
  wait_on-ended :
      (c : ℕ) (k : Text) (id : ℕ) (s : Cache E V)
      → s.entries k ≡ some id
      → (s.heap id).promise ≢ none
      → Inv s
      → Inv (record s { jobs = s.jobs ++ waiter c k id ∷ [] })
  wait_on-ended c k id s e ended v =
      let (lt, same, clean) = v.known k id e in
      record {
        known = v.known;
        ready = All-append (Queued s) s.jobs _ v.ready ((lt, ended, same), tt);
        each = λ i l. EntryOk-jobs (Leads-append i s.jobs _) (v.each i l);
      }

  -- A call that waits for an entry that is still loading.
  wait_on-loading :
      (c : ℕ) (k : Text) (id : ℕ) (s : Cache E V)
      → s.entries k ≡ some id
      → (s.heap id).promise ≡ none
      → Inv s
      → Inv (record s {
        heap =
            put s.heap id
              (record (s.heap id) { reactions = (s.heap id).reactions ++ waiter c k id ∷ [] });
      })
  wait_on-loading c k id s e loading v =
      let (lt, same, clean) = v.known k id e in
      let o = v.each id lt in
      record {
        known = λ j i h. known-put s id more j i refl refl (v.known j i h);
        ready = All-map (λ j. Queued-put s id more j (λ p. p) refl) s.jobs v.ready;
        each = λ i l.
            put-elim (EntryOk s.entries s.jobs s.epoch i) s.heap id more i
              (λ q. rw q (record {
                leads = λ u. rw loading (Leads-append id _ _ (rw loading at (o.leads u)));
                pending = All-append _ (s.heap id).reactions _ o.pending ((refl, sym same), tt);
                shared = o.shared;
                past = o.past;
              }))
              (λ ne. v.each i l);
      }
    where
      more : Entry E V
      more = record (s.heap id) { reactions = (s.heap id).reactions ++ waiter c k id ∷ [] }

  wait_on-Inv :
      (c : ℕ) (k : Text) (id : ℕ) (s : Cache E V)
      → s.entries k ≡ some id
      → Inv s
      → Inv (wait_on c k id s)
  unfolding wait_on
  wait_on-Inv c k id s e v = elim (Option-cases (s.heap id).promise) [
    | inl loading ↦ rw (loading, wait_on) (wait_on-loading c k id s e loading v)
    | inr (o, ended) ↦ rw (ended, wait_on) (wait_on-ended c k id s e (λ n. cc) v)
  ]

  pub enter-Inv : (c : ℕ) (k : Text) (s : Cache E V) → Inv s → Inv (enter c k s)
  unfolding enter
  enter-Inv c k s v = elim (Option-cases ((prune s).entries k)) [
    | inl free ↦ rw (free, enter) (start-Inv c k (prune s) free (prune-Inv s v))
    | inr (id, e) ↦ rw (e, enter) (wait_on-Inv c k id (prune s) e (prune-Inv s v))
  ]

  pub resolve-Inv :
      (id : ℕ) (r : Result E V) (s : Cache E V)
      → id < s.next
      → (s.heap id).promise ≡ none
      → Inv s
      → Inv (resolve id r s)
  unfolding resolve
  resolve-Inv id r s lt loading v =
      let o = v.each id lt in
      record {
        known = λ j i h. known-put s id done j i refl refl (v.known j i h);
        ready =
            All-append _ s.jobs _
              (All-map (λ j. Queued-put s id done j (λ p n. cc) refl) s.jobs v.ready)
              (All-map woken (s.heap id).reactions o.pending);
        each = λ i l.
            put-elim (EntryOk s.entries (s.jobs ++ (s.heap id).reactions) s.epoch i) s.heap id done
              i
              (λ q. rw q (record {
                leads = λ u.
                    Leads-append_other id s.jobs _ (All-map others s.jobs v.ready)
                      (rw loading at (o.leads u));
                pending = tt;
                shared = o.shared;
                past = o.past;
              }))
              (λ ne. EntryOk-jobs (Leads-append i s.jobs _) (v.each i l));
      }
    where
      done : Entry E V
      done = record (s.heap id) { promise = some r; reactions = [] }

      others : (j : Job) → Queued s j → job_entry j ≢ id
      others j (_, p, _) q = p (subst (λ i. (s.heap i).promise ≡ none) (sym q) loading)

      woken :
          (j : Job)
          → (job_entry j ≡ id) × (job_key j ≡ (s.heap id).key)
          → (job_entry j < s.next)
            × ((put s.heap id done (job_entry j)).promise ≢ none)
            × ((put s.heap id done (job_entry j)).key ≡ job_key j)
      woken j (q, k) = (
        omega arith,
        put-elim (λ x. x.promise ≢ none) s.heap id done (job_entry j) (λ _ n. cc)
            (λ ne. absurd (ne q)),
        put-elim (λ x. x.key ≡ job_key j) s.heap id done (job_entry j) (λ _. sym k)
            (λ ne. absurd (ne q)),
      )

  -- A waiting call that is at the head of the queue finds its entry settled: its loading call was
  -- queued before it.
  pub waiter-settled :
      (c : ℕ) (k : Text) (id : ℕ) (rest : List Job) (s : Cache E V)
      → s.jobs ≡ waiter c k id ∷ rest
      → Inv s
      → ((s.heap id).settled ≡ true) × Inv (record s { jobs = rest })
  waiter-settled c k id rest s head v = (
    settled_now,
    record {
      known = v.known;
      ready = queue.1;
      each = λ i lt. EntryOk-jobs (λ l. (front i l).1) (v.each i lt);
    },
  )
    where
      queue : Queued s (waiter c k id) × All (Queued s) rest
      queue = subst (All (Queued s)) head v.ready

      front : (i : ℕ) → Leads i s.jobs → (id ≢ i) × Leads i rest
      front i l = subst (Leads i) head l

      leading : (s.heap id).settled ≡ false → Leads id s.jobs
      leading u = elim (Option-cases (s.heap id).promise) [
        | inl loading ↦ absurd (queue.0.1 loading)
        | inr (o, ended) ↦ rw ended at ((v.each id queue.0.0).leads u)
      ]

      settled_now : (s.heap id).settled ≡ true
      settled_now = elim (Bool-cases (s.heap id).settled) [
        | inl done ↦ done
        | inr u ↦ absurd ((front id (leading u)).0 refl)
      ]

  pub run_waiter-Inv :
      (c : ℕ) (k : Text) (id : ℕ) (rest : List Job) (s : Cache E V)
      → s.jobs ≡ waiter c k id ∷ rest
      → Inv s
      → Inv (run_waiter c k id (record s { jobs = rest }))
  unfolding run_waiter
  run_waiter-Inv c k id rest s head v =
      let (done, popped) = waiter-settled c k id rest s head v in
      elim (Bool-cases (fresh k id (record s { jobs = rest }))) [
        | inl served ↦ rw served popped
        | inr again ↦ rw again (
            enter-Inv c k (remove_own k id (record s { jobs = rest }))
              (remove_own-Inv k id (record s { jobs = rest }) done popped))
      ]
