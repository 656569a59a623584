-- ===== src/Cache/Owner.antt =====
-- The loading call that runs on after its load has ended preserves the invariant.
use skills_dashboard.Common.{
  ℕ, ◌+◌, ◌<◌, ◌≡◌, refl, sym, ◌∙◌, subst, ◌≢◌, inl, inr, Bool, true, false, Option, none, some,
  List, ◌∷◌, arith, if◌then◌else◌, Bool-cases, All,
}
use skills_dashboard.Text.{Text, text_eq}
use skills_dashboard.Text.Laws.{text_eq-eq}
use skills_dashboard.Cache.{
  Cache, Entry, Job, owner, remove_own, put, bind, is_id, run_owner, failed,
}
use skills_dashboard.Cache.Ordering.{Leads, All-map}
use skills_dashboard.Cache.Inv.{
  Queued, EntryOk, Inv, bind_self, bind-none-some, bind-other, put-elim, EntryOk-entries,
  EntryOk-jobs, Leads-pop, is_id-some, Queued-put, known-put,
}

module _ {E V : Type 0} where
  module _ (c : ℕ) (k : Text) (id : ℕ) (rest : List Job) (s : Cache E V)
      (head : s.jobs ≡ owner c k id ∷ rest) (v : Inv s) where
    owner_queue : Queued s (owner c k id) × All (Queued s) rest
    owner_queue = subst (All (Queued s)) head v.ready

    owner_others : (i : ℕ) → i < s.next → i ≢ id → EntryOk s.entries rest s.epoch i (s.heap i)
    owner_others i lt ne =
        EntryOk-jobs (λ l. Leads-pop i id (owner c k id) rest refl ne (subst (Leads i) head l))
          (v.each i lt)

    -- The entry after its loading call has run.
    abbrev closed : ℕ → Bool → Entry E V
    closed expires poisoned = record (s.heap id) {
      settled = true;
      expires = expires;
      poisoned = poisoned;
    }

    closed-EntryOk :
        (entries : Text → Option ℕ) (expires : ℕ) (poisoned : Bool)
        → EntryOk entries rest s.epoch id (closed expires poisoned)
    closed-EntryOk entries expires poisoned =
        let o = v.each id owner_queue.0.0 in
        record { leads = λ u. cc; pending = o.pending; shared = λ u b. cc; past = o.past }

    closed-Queued :
        (expires : ℕ) (poisoned : Bool)
        → All
            (Queued (record s { jobs = rest; heap = put s.heap id (closed expires poisoned) }))
            rest
    closed-Queued expires poisoned =
        All-map (λ j. Queued-put s id (closed expires poisoned) j (λ p. p) refl) rest owner_queue.1

    close-Inv :
        (expires : ℕ)
        → Inv (record s {
          jobs = rest;
          heap = put s.heap id (record (s.heap id) { settled = true; expires = expires });
        })
    close-Inv expires = record {
      known = λ j i h.
          known-put s id (closed expires (s.heap id).poisoned) j i refl refl (v.known j i h);
      ready = closed-Queued expires (s.heap id).poisoned;
      each = λ i lt.
          put-elim (EntryOk s.entries rest s.epoch i) s.heap id
            (closed expires (s.heap id).poisoned) i
            (λ q. rw q (closed-EntryOk s.entries expires (s.heap id).poisoned)) (owner_others i lt);
    }

    -- The cache where the loading call failed because its caller left, before the key is given up.
    abbrev left : Cache E V
    left = record s {
      jobs = rest;
      heap = put s.heap id (record (s.heap id) { settled = true; poisoned = true });
    }

    -- The invariant holds with any map that leaves out this entry and no other unsettled one.
    left-with :
        (f : Text → Option ℕ)
        → ((j : Text) (i : ℕ) → f j ≡ some i → (s.entries j ≡ some i) × (i ≢ id))
        → ((i : ℕ) → i ≢ id → s.entries (s.heap i).key ≡ some i → f (s.heap i).key ≡ some i)
        → Inv (record left { entries = f })
    left-with f drops keeps = record {
      known = λ j i h.
          let (e, ne) = drops j i h in
          let (lt, same, clean) = v.known j i e in
          (
            lt,
            put-elim (λ x. x.key ≡ j) s.heap id gone i (λ q. absurd (ne q)) (λ _. same),
            put-elim (λ x. x.poisoned ≡ false) s.heap id gone i (λ q. absurd (ne q)) (λ _. clean),
          );
      ready = closed-Queued (s.heap id).expires true;
      each = λ i lt.
          put-elim (EntryOk f rest s.epoch i) s.heap id gone i
            (λ q. rw q (closed-EntryOk f (s.heap id).expires true))
            (λ ne. EntryOk-entries (λ u e. keeps i ne e) (owner_others i lt ne));
    }
      where
        gone : Entry E V
        gone = closed (s.heap id).expires true

    -- The key of the entry is the one that its loading call asked for.
    own_key : (j : Text) → s.entries j ≡ some id → j ≡ k
    own_key j e = sym (v.known j id e).1 ∙ owner_queue.0.2

    left-Inv : Inv (remove_own k id left)
    unfolding remove_own
    left-Inv = elim (Bool-cases (is_id (s.entries k) id)) [
      | inl own ↦ rw own (left-with (bind s.entries k none) (drops own) (keeps own))
      | inr other ↦ rw other (left-with s.entries (absent other) (λ i ne e. e))
    ]
      where
        drops :
            is_id (s.entries k) id ≡ true
            → (j : Text) (i : ℕ) → bind s.entries k none j ≡ some i
            → (s.entries j ≡ some i) × (i ≢ id)
        drops own j i h =
            let e = bind-none-some s.entries k j i h in
            (
              e,
              λ q.
                  let same : j ≡ k = own_key j (subst (λ n. s.entries j ≡ some n) q e) in
                  let taken : bind s.entries k none k ≡ some i =
                    subst (λ x. bind s.entries k none x ≡ some i) same h in
                  let missing : none ≡ some i = sym (bind_self s.entries k none) ∙ taken in cc,
            )

        keeps :
            is_id (s.entries k) id ≡ true
            → (i : ℕ) → i ≢ id
            → s.entries (s.heap i).key ≡ some i
            → bind s.entries k none (s.heap i).key ≡ some i
        keeps own i ne e = elim (Bool-cases (text_eq (s.heap i).key k)) [
          | inl q ↦
              let named : s.entries k ≡ some i =
                subst (λ x. s.entries x ≡ some i) (text_eq-eq (s.heap i).key k q) e in
              let one : some id ≡ some i = sym (is_id-some (s.entries k) id own) ∙ named in
              let same : i ≡ id = cc in absurd (ne same)
          | inr q ↦ bind-other s.entries k _ none q ∙ e
        ]

        absent :
            is_id (s.entries k) id ≡ false
            → (j : Text) (i : ℕ) → s.entries j ≡ some i
            → (s.entries j ≡ some i) × (i ≢ id)
        absent other j i e = (
          e,
          λ q.
              let e' : s.entries j ≡ some id = subst (λ n. s.entries j ≡ some n) q e in
              let named : s.entries k ≡ some id =
                subst (λ x. s.entries x ≡ some id) (own_key j e') e' in
              let wrong : is_id (some id) id ≡ false =
                subst (λ o. is_id o id ≡ false) named other in
              ground arith,
        )

    pub run_owner-Inv : (aborted : Bool) → Inv (run_owner k id aborted (record s { jobs = rest }))
    unfolding run_owner
    run_owner-Inv aborted = elim (Bool-cases (failed (s.heap id).promise)) [
      | inr fine ↦ rw fine (close-Inv (s.now + s.ttl))
      | inl bad ↦ rw bad (choose aborted)
    ]
      where
        choose :
            (b : Bool)
            → Inv (
                if b then remove_own k id left else record s {
                  jobs = rest;
                  heap =
                      put s.heap id
                        (record (s.heap id) { settled = true; expires = s.now + s.error_ttl });
                })
        choose true = left-Inv
        choose false = close-Inv (s.now + s.error_ttl)
