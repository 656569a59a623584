-- ===== src/Cache/Inv.antt =====
-- The invariant of the cache, and the changes that preserve it.
use skills_dashboard.Common.{
  ℕ, ◌≤◌, ◌<◌, ◌≡◌, sym, ◌∙◌, subst, ◌≢◌, inl, inr, true, false, Option, none, some, List, ◌∷◌,
  arith, ◌==◌, Bool-cases, All, Result,
}
use skills_dashboard.Text.{Text, text_eq}
use skills_dashboard.Text.Laws.{text_eq_refl}
use skills_dashboard.Cache.{Cache, Entry, Job, owner, waiter, job_entry, job_key, put, bind, is_id}
use skills_dashboard.Cache.Ordering.{Leads}

abbrev pub OnPromise : {A : Type 0} → Option A → Type 0 → Type 0 → Type 0
OnPromise none P Q = P
OnPromise (some _) P Q = Q

-- Before the load ends the calls stand on the entry, and afterwards in the queue.
abbrev pub Front : {E V : Type 0} → ℕ → Entry E V → List Job → Type 0
Front id e jobs = OnPromise e.promise (Leads id e.reactions) (Leads id jobs)

-- A job in the queue is for an entry in use, whose load has ended, under the key that was asked for.
abbrev pub Queued : {E V : Type 0} → Cache E V → Job → Type 0
Queued s j =
    (job_entry j < s.next)
    × ((s.heap (job_entry j)).promise ≢ none)
    × ((s.heap (job_entry j)).key ≡ job_key j)

-- What holds of the entry at place `id`: its loading call comes first until it has run, the calls that
-- await it know its key, and until its loading call has run its key names it, unless the cache was
-- invalidated since.
pub record EntryOk {E V : Type 0} (entries : Text → Option ℕ) (jobs : List Job) (epoch id : ℕ)
    (e : Entry E V) : Type 0 where
  pub leads : e.settled ≡ false → Front id e jobs
  pub pending : All (λ j. (job_entry j ≡ id) × (job_key j ≡ e.key)) e.reactions
  pub shared : e.settled ≡ false → e.born ≡ epoch → entries e.key ≡ some id
  pub past : e.born ≤ epoch

pub record Inv {E V : Type 0} (s : Cache E V) : Type 0 where
  pub known :
      (k : Text) (id : ℕ)
      → s.entries k ≡ some id
      → (id < s.next) × ((s.heap id).key ≡ k) × ((s.heap id).poisoned ≡ false)
  pub ready : All (Queued s) s.jobs
  pub each : (id : ℕ) → id < s.next → EntryOk s.entries s.jobs s.epoch id (s.heap id)

pub bind_self : (f : Text → Option ℕ) (k : Text) (o : Option ℕ) → bind f k o k ≡ o
bind_self f k o = rw (text_eq_refl k)

pub bind-none-some :
    (f : Text → Option ℕ) (k j : Text) (id : ℕ) → bind f k none j ≡ some id → f j ≡ some id
bind-none-some f k j id h = ground arith

pub bind-other :
    (f : Text → Option ℕ) (k j : Text) (o : Option ℕ) → text_eq j k ≡ false → bind f k o j ≡ f j
bind-other f k j o h = rw h

pub put-elim {κ} :
    {A : Type 0} (P : A → Type κ) (f : ℕ → A) (id : ℕ) (a : A) (i : ℕ)
    → (i ≡ id → P a)
    → (i ≢ id → P (f i))
    → P (put f id a i)
put-elim P f id a i yes_case no_case = elim (Bool-cases (i == id)) [
  | inl e ↦ rw e (yes_case (ground arith))
  | inr e ↦ rw e (no_case (ground arith))
]

pub Leads-pop :
    (id i : ℕ) (j : Job) (rest : List Job)
    → job_entry j ≡ i
    → id ≢ i
    → Leads id (j ∷ rest)
    → Leads id rest
Leads-pop id i (owner c k n) rest e ne (inl q) = absurd (ne (sym q ∙ e))
Leads-pop id i (owner c k n) rest e ne (inr l) = l
Leads-pop id i (waiter c k n) rest e ne (m, l) = l

pub is_id-some : (o : Option ℕ) (id : ℕ) → is_id o id ≡ true → o ≡ some id
is_id-some none id h = cc
is_id-some (some i) id h = ground arith

module _ {E V : Type 0} where
  pub EntryOk-entries :
      {entries entries' : Text → Option ℕ} {jobs : List Job} {epoch id : ℕ} {e : Entry E V}
      → (e.settled ≡ false → entries e.key ≡ some id → entries' e.key ≡ some id)
      → EntryOk entries jobs epoch id e
      → EntryOk entries' jobs epoch id e
  EntryOk-entries keep v = record {
    leads = v.leads;
    pending = v.pending;
    shared = λ u b. keep u (v.shared u b);
    past = v.past;
  }

  Front-jobs :
      (id : ℕ) (e : Entry E V) (jobs jobs' : List Job)
      → (Leads id jobs → Leads id jobs')
      → Front id e jobs
      → Front id e jobs'
  Front-jobs id e jobs jobs' f h = go e.promise h
    where
      go :
          (o : Option (Result E V))
          → OnPromise o (Leads id e.reactions) (Leads id jobs)
          → OnPromise o (Leads id e.reactions) (Leads id jobs')
      go none l = l
      go (some r) l = f l

  pub EntryOk-jobs :
      {entries : Text → Option ℕ} {jobs jobs' : List Job} {epoch id : ℕ} {e : Entry E V}
      → (Leads id jobs → Leads id jobs')
      → EntryOk entries jobs epoch id e
      → EntryOk entries jobs' epoch id e
  EntryOk-jobs {jobs} {jobs'} {id} {e} f v = record {
    leads = λ u. Front-jobs id e jobs jobs' f (v.leads u);
    pending = v.pending;
    shared = v.shared;
    past = v.past;
  }

  -- A queued job stays so where an entry is replaced by one of the same key.
  pub Queued-put :
      (s : Cache E V) (id : ℕ) (e : Entry E V) (j : Job)
      → ((s.heap id).promise ≢ none → e.promise ≢ none)
      → e.key ≡ (s.heap id).key
      → Queued s j
      → (job_entry j < s.next)
        × ((put s.heap id e (job_entry j)).promise ≢ none)
        × ((put s.heap id e (job_entry j)).key ≡ job_key j)
  Queued-put s id e j keeps same (lt, p, k) = (
    lt,
    put-elim (λ x. x.promise ≢ none) s.heap id e (job_entry j)
        (λ q. keeps (subst (λ i. (s.heap i).promise ≢ none) q p)) (λ ne. p),
    put-elim (λ x. x.key ≡ job_key j) s.heap id e (job_entry j)
        (λ q. same ∙ subst (λ i. (s.heap i).key ≡ job_key j) q k) (λ ne. k),
  )

  -- So does what is known of a key.
  pub known-put :
      (s : Cache E V) (id : ℕ) (e : Entry E V) (k : Text) (i : ℕ)
      → e.key ≡ (s.heap id).key
      → e.poisoned ≡ (s.heap id).poisoned
      → (i < s.next) × ((s.heap i).key ≡ k) × ((s.heap i).poisoned ≡ false)
      → (i < s.next) × ((put s.heap id e i).key ≡ k) × ((put s.heap id e i).poisoned ≡ false)
  known-put s id e k i same same' (lt, q, p) = (
    lt,
    put-elim (λ x. x.key ≡ k) s.heap id e i (λ n. same ∙ subst (λ m. (s.heap m).key ≡ k) n q)
        (λ ne. q),
    put-elim (λ x. x.poisoned ≡ false) s.heap id e i
        (λ n. same' ∙ subst (λ m. (s.heap m).poisoned ≡ false) n p) (λ ne. p),
  )
