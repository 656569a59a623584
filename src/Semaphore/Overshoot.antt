-- ===== src/Semaphore/Overshoot.antt =====
-- How more callers than its size come to hold a semaphore.
use skills_dashboard.Common.{
  ℕ, zero, suc, ◌+◌, ◌≤◌, ◌<◌, ◌≡◌, refl, subst, inl, false, List, [], ◌∷◌, arith, length,
  replicate, length-replicate,
}
use skills_dashboard.Common.{pos, negsuc, sub_ℕ, ◌+ℤ◌, ◌-ℤ◌}
use skills_dashboard.Semaphore.{
  Semaphore, new_semaphore, without, acquire, wake_next, release, run_on, acquires, releases,
  runs_on, Reach, here, step,
}

-- `k` callers of a fresh semaphore of size `n` are served at once.
abbrev served : ℕ → ℕ → List ℕ → Semaphore
served n k hs = record { free = sub_ℕ n k; waiting = []; woken = []; holders = hs }

served-step :
    (n k : ℕ) (hs : List ℕ) → k < n → acquire 0 false (served n k hs) ≡ served n (suc k) (0 ∷ hs)
unfolding acquire ◌-ℤ◌
served-step n k hs h = ground arith

whole : (n : ℕ) → pos n ≡ sub_ℕ n 0
whole n = ground arith

none_left : (n : ℕ) → sub_ℕ n n ≡ pos 0
none_left n = ground arith

fill : (n k : ℕ) → k ≤ n → Reach (new_semaphore n) (served n k (replicate k 0))
unfolding new_semaphore
fill n zero h =
    subst
      (λ f. Reach (new_semaphore n) (record { free = f; waiting = []; woken = []; holders = [] }))
      (whole n) here
fill n (suc k) h =
    subst (Reach (new_semaphore n)) (served-step n k (replicate k 0) h)
      (step (fill n k (omega arith)) (acquires 0 false))

-- The four steps from a full semaphore: a caller waits, a holder releases, another caller takes the
-- place before the first one runs on, and then that one runs on all the same.
abbrev overtake : (hs : List ℕ) → Semaphore
overtake hs = record { free = negsuc 0; waiting = []; woken = []; holders = 1 ∷ 2 ∷ hs }

abbrev full : List ℕ → Semaphore
full hs = record { free = pos 0; waiting = []; woken = []; holders = 0 ∷ hs }

overtaken : (t : Semaphore) (hs : List ℕ) → Reach t (full hs) → Reach t (overtake hs)
unfolding acquire release wake_next run_on without ◌-ℤ◌ ◌+ℤ◌
overtaken t hs r =
    step (step (step (step r (acquires 1 false)) (releases 0 (inl refl))) (acquires 2 false))
      (runs_on 1 [] refl)

-- A semaphore of any size can come to be held by one caller more than its size: `release` frees the
-- place before the caller that it wakes takes it, and a call of `acquire` that runs in between takes
-- the same place.
pub overshoot :
    (n : ℕ) → 0 < n → (s : Semaphore) × Reach (new_semaphore n) s × (length s.holders ≡ n + 1)
overshoot zero h = elim h [ ]
overshoot (suc n) h = (
  overtake (replicate n 0),
  overtaken (new_semaphore (suc n)) (replicate n 0) (
      subst
        (λ f.
          Reach (new_semaphore (suc n))
            (record { free = f; waiting = []; woken = []; holders = replicate (suc n) 0 }))
        (none_left (suc n)) (fill (suc n) (suc n) (omega arith))),
  omega (arith, length-replicate {A = ℕ} n 0),
)
