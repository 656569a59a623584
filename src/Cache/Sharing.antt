-- ===== src/Cache/Sharing.antt =====
-- What callers may rely on in every state that a new cache can reach.
use skills_dashboard.Common.{
  ℕ, ◌<◌, ◌≡◌, sym, ap, ◌∙◌, true, false, Option, some, List, ◌∷◌, arith, Result,
}
use skills_dashboard.Text.{Text}
use skills_dashboard.Cache.{Cache, Entry, Job, waiter, new_cache, served, is_id}
use skills_dashboard.Cache.Steps.{
  Step, Reach, calls, ends, owner_runs, waiter_runs, clock, invalidates, here, step,
}
use skills_dashboard.Cache.Inv.{Inv, is_id-some}
use skills_dashboard.Cache.Moves.{clock-Inv, invalidate-Inv}
use skills_dashboard.Cache.Waits.{enter-Inv, resolve-Inv, run_waiter-Inv, waiter-settled}
use skills_dashboard.Cache.Owner.{run_owner-Inv}

module _ {E V : Type 0} where
  Step-Inv : {s t : Cache E V} → Step s t → Inv s → Inv t
  Step-Inv {s} (calls c k) v = enter-Inv c k s v
  Step-Inv {s} (ends id o lt loading) v = resolve-Inv id o s lt loading v
  Step-Inv {s} (owner_runs c k id rest aborted head) v = run_owner-Inv c k id rest s head v aborted
  Step-Inv {s} (waiter_runs c k id rest head) v = run_waiter-Inv c k id rest s head v
  Step-Inv {s} (clock n) v = clock-Inv s n v
  Step-Inv {s} invalidates v = invalidate-Inv s v

  new_cache-Inv :
      (blank : Entry E V) (ttl error_ttl : Option ℕ) (now : ℕ)
      → Inv (new_cache blank ttl error_ttl now)
  unfolding new_cache
  new_cache-Inv blank ttl error_ttl now = record {
    known = λ k id e. cc;
    ready = tt;
    each = λ id lt. absurd (omega arith);
  }

  Reach-Inv : {s t : Cache E V} → Inv s → Reach s t → Inv t
  Reach-Inv v here = v
  Reach-Inv v (step r st) = Step-Inv st (Reach-Inv v r)

  -- The states of a cache that was just constructed, and of everything that can happen to it.
  abbrev pub IsReachable : Cache E V → Type 0
  IsReachable s =
      (blank : Entry E V) × (ttl : Option ℕ) × (error_ttl : Option ℕ) × (now : ℕ) × Reach
        (new_cache blank ttl error_ttl now) s

  reachable-Inv : (s : Cache E V) → IsReachable s → Inv s
  reachable-Inv s (blank, ttl, error_ttl, now, r) =
      Reach-Inv (new_cache-Inv blank ttl error_ttl now) r

  -- However calls, loads, the clock and `invalidate` interleave: since the last `invalidate`, a key
  -- has at most one load whose calling `do` has not run on. Every other caller shares it.
  pub single_flight :
      (s : Cache E V) (i j : ℕ)
      → IsReachable s
      → i < s.next
      → j < s.next
      → (s.heap i).settled ≡ false
      → (s.heap j).settled ≡ false
      → (s.heap i).born ≡ s.epoch
      → (s.heap j).born ≡ s.epoch
      → (s.heap i).key ≡ (s.heap j).key
      → i ≡ j
  single_flight s i j reach li lj ui uj bi bj same =
      let v = reachable-Inv s reach in
      let a = (v.each i li).shared ui bi in
      let b = (v.each j lj).shared uj bj in
      let c : some i ≡ some j = sym a ∙ ap s.entries same ∙ b in cc

  -- What a waiting caller is handed when it runs is the outcome of a load for the key that it asked
  -- for. That load's own call has run on before it, has not failed because its caller left, and the
  -- outcome is not past its time.
  pub served_sound :
      (s : Cache E V) (c : ℕ) (k : Text) (id : ℕ) (rest : List Job) (o : Result E V)
      → IsReachable s
      → s.jobs ≡ waiter c k id ∷ rest
      → served k id s ≡ some o
      → ((s.heap id).promise ≡ some o)
        × ((s.heap id).key ≡ k)
        × ((s.heap id).settled ≡ true)
        × ((s.heap id).poisoned ≡ false)
        × (s.now < (s.heap id).expires)
  unfolding served
  served_sound s c k id rest o reach head h =
      let v = reachable-Inv s reach in
      let (done, _) = waiter-settled c k id rest s head v in
      let current : is_id (s.entries k) id ≡ true = ground arith in
      let (_, same, clean) = v.known k id (is_id-some (s.entries k) id current) in
      (ground arith, same, done, clean, ground arith)
