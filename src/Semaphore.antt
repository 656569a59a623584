-- ===== src/Semaphore.antt =====
-- server/src/aws/insights.ts, the class `Semaphore`, and how `InsightsRunner.run` holds it. A step is
-- what runs between two suspensions. Callers are numbers.
pub mod Accounting
pub mod Overshoot
use skills_dashboard.Common.{
  ℕ, zero, suc, ◌+◌, ◌-◌, ◌*◌, ◌/◌, ◌%◌, ◌^◌, ◌≤◌, ◌<◌, min, ◌≡◌, refl, sym, ap, ◌∙◌, subst, ◌≢◌,
  ◌↔◌, ◌⊎◌, inl, inr, Bool, true, false, ◌&&◌, ◌||◌, not, Option, none, some, List, [], ◌∷◌, ◌++◌,
  map, append-nil, append_assoc, arith, ltb, leb, ◌==◌, if◌then◌else◌, Bool-cases, Option-cases,
  length, get_elem?, set, take, drop, replicate, length-append, length-map, length-replicate,
  Listed, All, All-Listed, All-append, Result, ok, err, ◌>>=◌, ◌>>◌, >>=-eq-ok, Result-cases,
}
use skills_dashboard.Common.{
  ℤ, pos, negsuc, pos_part, neg_part, sub_ℕ, ◌+ℤ◌, ◌-ℤ◌, ◌≤ℤ◌, ◌<ℤ◌, ltb_ℤ, eqb_ℤ, +ℤ_parts,
  -ℤ_parts, eq_of_parts, part_cases, eqb_ℤ_eq, eqb_ℤ_refl, int_laws, floor_to, trunc_div,
}

pub record Semaphore : Type 0 where
  -- `free`, which the source decrements without a test after a wait
  pub free : ℤ
  -- the callers whose `grant` stands in `waiting`, the oldest first
  pub waiting : List ℕ
  -- the callers that were granted a place and have not run on yet, in the order of the queue
  pub woken : List ℕ
  -- the callers between `acquire` and `release`
  pub holders : List ℕ

-- `options.concurrency` if it is given and positive, or 6.
unfoldable pub concurrency : Option ℕ → ℕ
concurrency none = 6
concurrency (some n) = if ltb 0 n then n else 6

unfoldable pub new_semaphore : ℕ → Semaphore
new_semaphore n = record { free = pos n; waiting = []; woken = []; holders = [] }

-- The list without the first occurrence of a caller: `indexOf` and `splice`.
unfoldable pub without : ℕ → List ℕ → List ℕ
without t [] = []
without t (u ∷ us) = if u == t then us else u ∷ without t us

-- `acquire`, up to its suspension; an aborted caller throws.
unfoldable pub acquire : ℕ → Bool → Semaphore → Semaphore
acquire t true s = s
acquire t false s =
    if ltb_ℤ (pos 0) s.free
    then record s { free = s.free -ℤ pos 1; holders = t ∷ s.holders }
    else record s { waiting = s.waiting ++ t ∷ [] }

-- `onAbort` of a caller that waits; once it is granted a place the listener is gone.
unfoldable pub abort : ℕ → Semaphore → Semaphore
abort t s = record s { waiting = without t s.waiting }

-- `waiting.shift()`, and the call of what it gives.
unfoldable pub wake_next : Semaphore → List ℕ → Semaphore
wake_next s [] = s
wake_next s (t ∷ ts) = record s { waiting = ts; woken = s.woken ++ t ∷ [] }

-- `release`
unfoldable pub release : ℕ → Semaphore → Semaphore
release t s =
    wake_next (record s { free = s.free +ℤ pos 1; holders = without t s.holders }) s.waiting

-- `acquire` after its wait: the caller at the head of the queue runs on.
unfoldable pub run_on : ℕ → List ℕ → Semaphore → Semaphore
run_on t rest s = record s { free = s.free -ℤ pos 1; woken = rest; holders = t ∷ s.holders }

-- What can happen, in any order.
pub data Step (s : Semaphore) : Semaphore → Type 0 where
  acquires : (t : ℕ) (aborted : Bool) → Step s (acquire t aborted s)
  aborts : (t : ℕ) → Step s (abort t s)
  releases : (t : ℕ) → Listed t s.holders → Step s (release t s)
  runs_on : (t : ℕ) (rest : List ℕ) → s.woken ≡ t ∷ rest → Step s (run_on t rest s)

pub data Reach (s : Semaphore) : Semaphore → Type 0 where
  here : Reach s s
  step : {t u : Semaphore} → Reach s t → Step t u → Reach s u

-- The same steps, where no call of `acquire` runs between a `release` and the caller that it woke.
pub data CalmStep (s : Semaphore) : Semaphore → Type 0 where
  calm_acquires : (t : ℕ) (aborted : Bool) → s.woken ≡ [] → CalmStep s (acquire t aborted s)
  calm_aborts : (t : ℕ) → CalmStep s (abort t s)
  calm_releases : (t : ℕ) → Listed t s.holders → CalmStep s (release t s)
  calm_runs_on : (t : ℕ) (rest : List ℕ) → s.woken ≡ t ∷ rest → CalmStep s (run_on t rest s)

pub data CalmReach (s : Semaphore) : Semaphore → Type 0 where
  calm_here : CalmReach s s
  calm_step : {t u : Semaphore} → CalmReach s t → CalmStep t u → CalmReach s u
