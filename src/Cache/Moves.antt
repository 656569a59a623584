-- ===== src/Cache/Moves.antt =====
-- Each change that a call makes to the cache preserves the invariant.
use skills_dashboard.Common.{
  ℕ, suc, ◌+◌, ◌<◌, ◌≡◌, refl, sym, ◌∙◌, subst, ◌≢◌, inl, inr, true, false, Option, none, some, [],
  ◌∷◌, arith, Bool-cases,
}
use skills_dashboard.Text.{Text, text_eq}
use skills_dashboard.Text.Laws.{text_eq-eq}
use skills_dashboard.Cache.{
  Cache, Entry, Job, owner, job_entry, job_key, kept, prune, start, remove_own, invalidate, put,
  bind, is_id,
}
use skills_dashboard.Cache.Ordering.{All-map}
use skills_dashboard.Cache.Inv.{
  Queued, EntryOk, Inv, bind_self, bind-none-some, bind-other, put-elim, EntryOk-entries,
  is_id-some,
}

module _ {E V : Type 0} where
  kept-some : (s : Cache E V) (o : Option ℕ) (id : ℕ) → kept s o ≡ some id → o ≡ some id
  kept-some s none id h = cc
  kept-some s (some i) id h = ground arith

  kept_unsettled :
      (s : Cache E V) (o : Option ℕ) (id : ℕ)
      → (s.heap id).settled ≡ false
      → o ≡ some id
      → kept s o ≡ some id
  kept_unsettled s none id u h = cc
  kept_unsettled s (some i) id u h = let e : i ≡ id = cc in rw (e, u)

  pub prune-Inv : (s : Cache E V) → Inv s → Inv (prune s)
  unfolding prune
  prune-Inv s v = record {
    known = λ k id e. v.known k id (kept-some s (s.entries k) id e);
    ready = v.ready;
    each = λ id lt. EntryOk-entries (kept_unsettled s _ id) (v.each id lt);
  }

  pub clock-Inv : (s : Cache E V) (n : ℕ) → Inv s → Inv (record s { now = n })
  clock-Inv s n v = record { known = v.known; ready = v.ready; each = v.each }

  pub invalidate-Inv : (s : Cache E V) → Inv s → Inv (invalidate s)
  unfolding invalidate
  invalidate-Inv s v = record {
    known = λ k id e. cc;
    ready = v.ready;
    each = λ id lt.
        let o = v.each id lt in
        record {
          leads = o.leads;
          pending = o.pending;
          shared = λ u b. absurd (omega (arith, o.past));
          past = omega (arith, o.past);
        };
  }

  pub remove_own-Inv :
      (k : Text) (id : ℕ) (s : Cache E V)
      → (s.heap id).settled ≡ true
      → Inv s
      → Inv (remove_own k id s)
  unfolding remove_own
  remove_own-Inv k id s done v = elim (Bool-cases (is_id (s.entries k) id)) [
    | inr other ↦ rw other v
    | inl own ↦ rw own (record {
      known = λ j i e. v.known j i (bind-none-some s.entries k j i e);
      ready = v.ready;
      each = λ i lt. EntryOk-entries (still i own) (v.each i lt);
    })
  ]
    where
      still :
          (i : ℕ)
          → is_id (s.entries k) id ≡ true
          → (s.heap i).settled ≡ false
          → s.entries (s.heap i).key ≡ some i
          → bind s.entries k none (s.heap i).key ≡ some i
      still i own u e = elim (Bool-cases (text_eq (s.heap i).key k)) [
        | inl q ↦
            let named : s.entries k ≡ some i =
              subst (λ x. s.entries x ≡ some i) (text_eq-eq _ k q) e in
            let one : some id ≡ some i = sym (is_id-some (s.entries k) id own) ∙ named in
            let same : id ≡ i = cc in
            let wrong : (s.heap i).settled ≡ true =
              subst (λ n. (s.heap n).settled ≡ true) same done in
            cc
        | inr q ↦ bind-other s.entries k _ none q ∙ e
      ]

  module _ (c : ℕ) (k : Text) (s : Cache E V) (free : s.entries k ≡ none) (v : Inv s) where
    -- The entry that a miss makes.
    abbrev made : Entry E V
    made = record {
      key = k;
      promise = none;
      expires = s.now + s.ttl;
      settled = false;
      reactions = owner c k s.next ∷ [];
      poisoned = false;
      born = s.epoch;
    }

    start-known :
        (j : Text) (i : ℕ)
        → bind s.entries k (some s.next) j ≡ some i
        → (i < suc s.next)
          × ((put s.heap s.next made i).key ≡ j)
          × ((put s.heap s.next made i).poisoned ≡ false)
    start-known j i e = elim (Bool-cases (text_eq j k)) [
      | inl q ↦
          let new : s.next ≡ i = (let h : some s.next ≡ some i = rw q at e in cc) in
          (
            omega arith,
            put-elim (λ x. x.key ≡ j) s.heap s.next made i (λ _. sym (text_eq-eq j k q))
                (λ ne. absurd (ne (sym new))),
            put-elim (λ x. x.poisoned ≡ false) s.heap s.next made i (λ _. refl)
                (λ ne. absurd (ne (sym new))),
          )
      | inr q ↦
          let (lt, same, clean) = v.known j i (sym (bind-other s.entries k j _ q) ∙ e) in
          (
            omega arith,
            put-elim (λ x. x.key ≡ j) s.heap s.next made i (λ n. absurd (omega arith)) (λ _. same),
            put-elim (λ x. x.poisoned ≡ false) s.heap s.next made i (λ n. absurd (omega arith))
                (λ _. clean),
          )
    ]

    start-Queued : (j : Job) → Queued s j → Queued (start c k s) j
    unfolding start
    start-Queued j (lt, p, q) = (
      omega arith,
      put-elim (λ x. x.promise ≢ none) s.heap s.next made (job_entry j) (λ n. absurd (omega arith))
          (λ _. p),
      put-elim (λ x. x.key ≡ job_key j) s.heap s.next made (job_entry j) (λ n. absurd (omega arith))
          (λ _. q),
    )

    start-others :
        (i : ℕ)
        → s.entries (s.heap i).key ≡ some i
        → bind s.entries k (some s.next) (s.heap i).key ≡ some i
    start-others i e = elim (Bool-cases (text_eq (s.heap i).key k)) [
      | inl q ↦
          let named : s.entries k ≡ some i =
            subst (λ x. s.entries x ≡ some i) (text_eq-eq (s.heap i).key k q) e in
          cc
      | inr q ↦ bind-other s.entries k _ _ q ∙ e
    ]

    pub start-Inv : Inv (start c k s)
    unfolding start
    start-Inv = record {
      known = start-known;
      ready = All-map start-Queued s.jobs v.ready;
      each = λ i lt.
          put-elim (EntryOk (bind s.entries k (some s.next)) s.jobs s.epoch i) s.heap s.next made i
            (λ e. record {
              leads = λ u. inl (sym e);
              pending = ((sym e, refl), tt);
              shared = λ u b. rw e (bind_self s.entries k (some s.next));
              past = omega arith;
            })
            (λ ne. EntryOk-entries (λ u e. start-others i e) (v.each i (omega arith)));
    }
