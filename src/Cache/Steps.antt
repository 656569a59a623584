-- ===== src/Cache/Steps.antt =====
-- What can happen to a cache, in any order: calls, loads that end, suspended calls that run in the
-- order of the queue, the clock, and `invalidate`.
use skills_dashboard.Common.{ℕ, ◌<◌, ◌≡◌, Bool, none, List, ◌∷◌, Result}
use skills_dashboard.Text.{Text}
use skills_dashboard.Cache.{
  Cache, Job, owner, waiter, enter, resolve, run_owner, run_waiter, invalidate,
}

module _ {E V : Type 0} where
  pub data Step (s : Cache E V) : Cache E V → Type 0 where
    calls : (c : ℕ) (k : Text) → Step s (enter c k s)
    ends :
        (id : ℕ) (o : Result E V)
        → id < s.next
        → (s.heap id).promise ≡ none
        → Step s (resolve id o s)
    owner_runs :
        (c : ℕ) (k : Text) (id : ℕ) (rest : List Job) (aborted : Bool)
        → s.jobs ≡ owner c k id ∷ rest
        → Step s (run_owner k id aborted (record s { jobs = rest }))
    waiter_runs :
        (c : ℕ) (k : Text) (id : ℕ) (rest : List Job)
        → s.jobs ≡ waiter c k id ∷ rest
        → Step s (run_waiter c k id (record s { jobs = rest }))
    clock : (n : ℕ) → Step s (record s { now = n })
    invalidates : Step s (invalidate s)

  pub data Reach (s : Cache E V) : Cache E V → Type 0 where
    here : Reach s s
    step : {t u : Cache E V} → Reach s t → Step t u → Reach s u
