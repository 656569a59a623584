-- ===== src/Tests/Semaphore.antt =====
-- Runs of the semaphore of server/src/aws/insights.ts, and its properties at inputs.
use skills_dashboard.Common.{◌+◌, ◌≤◌, ◌≡◌, refl, inl, false, some, [], ◌∷◌, arith, length}
use skills_dashboard.Common.{pos, ◌+ℤ◌, ◌-ℤ◌}
use skills_dashboard.Semaphore.{
  Semaphore, new_semaphore, acquire, release, abort, run_on, without, wake_next, Reach, here, step,
  acquires, releases, CalmReach, calm_here, calm_step, calm_acquires, calm_releases, concurrency,
}
use skills_dashboard.Semaphore.Accounting.{Accounts, Reach-Accounts, CalmReach-bound}
use skills_dashboard.Semaphore.Overshoot.{overshoot}

program : Unit {0}
unfolding new_semaphore acquire release abort run_on without wake_next ◌+ℤ◌ ◌-ℤ◌ concurrency
program = tt

default_size : concurrency (some 0) ≡ 6
unfolding program
default_size = refl

abbrev contended : Semaphore
contended = release 1 (acquire 2 false (acquire 1 false (new_semaphore 1)))

contended_state : (contended.free ≡ pos 1) × (contended.woken ≡ 2 ∷ []) × (contended.holders ≡ [])
unfolding program
contended_state = (refl, refl, refl)

contended-reachable : Reach (new_semaphore 1) contended
unfolding program
contended-reachable =
    step (step (step here (acquires 1 false)) (acquires 2 false)) (releases 1 (inl refl))

contended-calm : CalmReach (new_semaphore 1) contended
unfolding program
contended-calm =
    calm_step
      (calm_step (calm_step calm_here (calm_acquires 1 false refl)) (calm_acquires 2 false refl))
      (calm_releases 1 (inl refl))

Reach-Accounts_example : Accounts 1 contended
Reach-Accounts_example = Reach-Accounts 1 contended contended-reachable

CalmReach-bound_example : length contended.holders + length contended.woken ≤ 1
CalmReach-bound_example = CalmReach-bound 1 contended contended-calm

overshoot_example : (s : Semaphore) × Reach (new_semaphore 8) s × (length s.holders ≡ 8 + 1)
overshoot_example = overshoot 8 (omega arith)
