-- ===== src/Semaphore/Accounting.antt =====
-- The places of a semaphore are never lost, and when its bound holds.
use skills_dashboard.Common.{
  ℕ, ◌+◌, ◌≤◌, ◌≡◌, refl, ap, ◌≢◌, inl, inr, Bool, true, false, List, [], ◌∷◌, arith, Bool-cases,
  length, length-append, Listed,
}
use skills_dashboard.Common.{
  ℤ, pos, pos_part, neg_part, ◌+ℤ◌, ◌≤ℤ◌, ◌<ℤ◌, ltb_ℤ, +ℤ_parts, -ℤ_parts, eq_of_parts, part_cases,
}
use skills_dashboard.Semaphore.{
  Semaphore, new_semaphore, without, acquire, abort, wake_next, release, run_on, Step, acquires,
  aborts, releases, runs_on, Reach, here, step, CalmStep, calm_acquires, calm_aborts, calm_releases,
  calm_runs_on, CalmReach, calm_here, calm_step,
}

-- Every place is free or held, and where callers wait, every free place is on its way to one.
pub record Accounts (n : ℕ) (s : Semaphore) : Type 0 where
  pub conserved : s.free +ℤ pos (length s.holders) ≡ pos n
  pub no_idle : s.waiting ≢ [] → s.free ≤ℤ pos (length s.woken)

length-without : (t : ℕ) (us : List ℕ) → Listed t us → length (without t us) + 1 ≡ length us
unfolding without
length-without t [] l = absurd l
length-without t (u ∷ us) (inl e) = ground arith
length-without t (u ∷ us) (inr l) = ground (arith, length-without t us l)

without-nil : (t : ℕ) (us : List ℕ) → us ≡ [] → without t us ≡ []
unfolding without
without-nil t us e = rw e

-- The count of an integer as two parts, for `omega`.
conserved-parts : (n : ℕ) (f : ℤ) (k : ℕ) → f +ℤ pos k ≡ pos n → pos_part f + k ≡ n + neg_part f
conserved-parts n f k e =
    omega (arith, +ℤ_parts f (pos k), ap pos_part e, ap neg_part e, part_cases f)

parts-conserved : (n : ℕ) (f : ℤ) (k : ℕ) → pos_part f + k ≡ n + neg_part f → f +ℤ pos k ≡ pos n
parts-conserved n f k e = eq_of_parts _ _ (omega (arith, +ℤ_parts f (pos k)))

module _ (n : ℕ) (s : Semaphore) (v : Accounts n s) where
  acquire-Accounts : (t : ℕ) (aborted : Bool) → Accounts n (acquire t aborted s)
  unfolding acquire
  acquire-Accounts t true = v
  acquire-Accounts t false = elim (Bool-cases (ltb_ℤ (pos 0) s.free)) [
    | inl open_place ↦ rw open_place (record {
      conserved =
          parts-conserved n _ _ (omega (arith, -ℤ_parts, conserved-parts n _ _ v.conserved));
      no_idle = λ w. omega (arith, -ℤ_parts, v.no_idle w);
    })
    | inr full ↦ rw full (record { conserved = v.conserved; no_idle = λ w. ground arith })
  ]

  abort-Accounts : (t : ℕ) → Accounts n (abort t s)
  unfolding abort
  abort-Accounts t = record {
    conserved = v.conserved;
    no_idle = λ w. v.no_idle (λ e. w (without-nil t s.waiting e));
  }

  release-Accounts : (t : ℕ) → Listed t s.holders → Accounts n (release t s)
  unfolding release wake_next
  release-Accounts t l = woken_next s.waiting refl v.no_idle
    where
      balance : s.free +ℤ pos 1 +ℤ pos (length (without t s.holders)) ≡ pos n
      balance = parts-conserved n _ _ (
          omega (
            arith,
            +ℤ_parts,
            conserved-parts n s.free (length s.holders) v.conserved,
            length-without t s.holders l,
          ))

      woken_next :
          (ws : List ℕ)
          → s.waiting ≡ ws
          → (ws ≢ [] → s.free ≤ℤ pos (length s.woken))
          → Accounts n
              (wake_next (record s { free = s.free +ℤ pos 1; holders = without t s.holders }) ws)
      woken_next [] e idle = record { conserved = balance; no_idle = λ w. absurd (w e) }
      woken_next (u ∷ ws) e idle = record {
        conserved = balance;
        no_idle = λ w. omega (arith, +ℤ_parts, idle (λ q. cc), length-append s.woken (u ∷ []));
      }

  run_on-Accounts : (t : ℕ) (rest : List ℕ) → s.woken ≡ t ∷ rest → Accounts n (run_on t rest s)
  unfolding run_on
  run_on-Accounts t rest e = record {
    conserved = parts-conserved n _ _ (omega (arith, -ℤ_parts, conserved-parts n _ _ v.conserved));
    no_idle = λ w. omega (arith, -ℤ_parts, v.no_idle w, ap length e);
  }

Step-Accounts : {n : ℕ} {s t : Semaphore} → Step s t → Accounts n s → Accounts n t
Step-Accounts {n} {s} (acquires t aborted) v = acquire-Accounts n s v t aborted
Step-Accounts {n} {s} (aborts t) v = abort-Accounts n s v t
Step-Accounts {n} {s} (releases t l) v = release-Accounts n s v t l
Step-Accounts {n} {s} (runs_on t rest e) v = run_on-Accounts n s v t rest e

new_semaphore-Accounts : (n : ℕ) → Accounts n (new_semaphore n)
unfolding new_semaphore
new_semaphore-Accounts n = record {
  conserved = parts-conserved n _ _ (omega arith);
  no_idle = λ w. absurd (w refl);
}

Reach-Accounts_from : {n : ℕ} {s t : Semaphore} → Accounts n s → Reach s t → Accounts n t
Reach-Accounts_from v here = v
Reach-Accounts_from v (step r st) = Step-Accounts st (Reach-Accounts_from v r)

-- In every interleaving the free places and the holders make up the size of the semaphore, so that no
-- place is lost by an abort or a failure; and while callers wait, no more places are free than woken
-- callers are about to take, so that nobody waits for a place that lies idle.
pub Reach-Accounts : (n : ℕ) (s : Semaphore) → Reach (new_semaphore n) s → Accounts n s
Reach-Accounts n s r = Reach-Accounts_from (new_semaphore-Accounts n) r

-- What the calm steps keep besides: every woken caller has a free place kept for it.
abbrev Reserved : Semaphore → Type 0
Reserved s = pos (length s.woken) ≤ℤ s.free

calm-Step : {s t : Semaphore} → CalmStep s t → Step s t
calm-Step (calm_acquires t aborted e) = acquires t aborted
calm-Step (calm_aborts t) = aborts t
calm-Step (calm_releases t l) = releases t l
calm-Step (calm_runs_on t rest e) = runs_on t rest e

calm-Reserved : {s t : Semaphore} → CalmStep s t → Reserved s → Reserved t
unfolding acquire abort release wake_next run_on
calm-Reserved {s} (calm_acquires t true e) h = h
calm-Reserved {s} (calm_acquires t false e) h = elim (Bool-cases (ltb_ℤ (pos 0) s.free)) [
  | inl open_place ↦ rw open_place (
      let some_free : pos 0 <ℤ s.free = ground arith in
      omega (arith, -ℤ_parts, some_free, ap length e))
  | inr full ↦ rw full h
]
calm-Reserved {s} (calm_aborts t) h = h
calm-Reserved {s} (calm_releases t l) h = woken_next s.waiting
  where
    woken_next :
        (ws : List ℕ)
        → Reserved
            (wake_next (record s { free = s.free +ℤ pos 1; holders = without t s.holders }) ws)
    woken_next [] = omega (arith, +ℤ_parts)
    woken_next (u ∷ ws) = omega (arith, +ℤ_parts, length-append s.woken (u ∷ []))
calm-Reserved {s} (calm_runs_on t rest e) h = omega (arith, -ℤ_parts, ap length e)

calm-both : (n : ℕ) (s : Semaphore) → CalmReach (new_semaphore n) s → Accounts n s × Reserved s
unfolding new_semaphore
calm-both n s calm_here = (new_semaphore-Accounts n, omega arith)
calm-both n s (calm_step r st) =
    let (v, h) = calm-both n _ r in (Step-Accounts (calm-Step st) v, calm-Reserved st h)

-- Where no call of `acquire` runs between a `release` and the caller that it woke, at most `n` callers
-- hold a semaphore of size `n`, those already woken counted in.
pub CalmReach-bound :
    (n : ℕ) (s : Semaphore) → CalmReach (new_semaphore n) s → length s.holders + length s.woken ≤ n
CalmReach-bound n s r =
    let (v, h) = calm-both n s r in omega (arith, conserved-parts n _ _ v.conserved, h)
