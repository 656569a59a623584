-- ===== src/Tests/Cache.antt =====
-- Runs of server/src/aws/cache.ts, and its properties at inputs that meet their hypotheses.
use skills_dashboard.Common.{ℕ, ◌<◌, ◌≡◌, refl, true, false, none, some, [], ◌∷◌, arith, ok, err}
use skills_dashboard.Text.{Text, text}
use skills_dashboard.Cache.{
  Cache, Entry, waiter, new_cache, prune, wait_on, start, enter, resolve, remove_own, run_owner,
  run_waiter, served, invalidate,
}
use skills_dashboard.Cache.Steps.{calls, ends, owner_runs, here, step}
use skills_dashboard.Cache.Sharing.{IsReachable, single_flight, served_sound}

program : Unit {0}
unfolding new_cache prune wait_on start enter resolve remove_own run_owner run_waiter served
    invalidate
program = tt

abbrev blank : Entry ℕ ℕ
blank = record {
  key = [];
  promise = none;
  expires = 0;
  settled = false;
  reactions = [];
  poisoned = false;
  born = 0;
}

abbrev key : Text
key = text "waf"

abbrev fresh_cache : Cache ℕ ℕ
fresh_cache = new_cache blank none none 100

-- Two callers ask for one key, and share a load.
abbrev asked : Cache ℕ ℕ
asked = enter 2 key (enter 1 key fresh_cache)

one_load : asked.next ≡ 1
unfolding program
one_load = refl

asked-IsReachable : IsReachable asked
asked-IsReachable = (blank, none, none, 100, step (step here (calls 1 key)) (calls 2 key))

-- The load ends well, and the loading call runs on.
abbrev ended : Cache ℕ ℕ
ended = resolve 0 (ok 7) asked

abbrev owned : Cache ℕ ℕ
owned = run_owner key 0 false (record ended { jobs = waiter 2 key 0 ∷ [] })

owned-IsReachable : IsReachable owned
unfolding program
owned-IsReachable = (
  blank,
  none,
  none,
  100,
  step (step (step (step here (calls 1 key)) (calls 2 key)) (ends 0 (ok 7) (omega arith) refl))
      (owner_runs 1 key 0 (waiter 2 key 0 ∷ []) false refl),
)

owned-jobs : owned.jobs ≡ waiter 2 key 0 ∷ []
unfolding program
owned-jobs = refl

owned-served : served key 0 owned ≡ some (ok 7)
unfolding program
owned-served = refl

-- The loading call fails because its caller left: the other caller is handed nothing, and loads anew.
abbrev left : Cache ℕ ℕ
left = run_owner key 0 true (record (resolve 0 (err 9) asked) { jobs = waiter 2 key 0 ∷ [] })

left_alone : (served key 0 left ≡ none) × ((run_waiter 2 key 0 left).next ≡ 2)
unfolding program
left_alone = (refl, refl)

asked-unsettled : (asked.heap 0).settled ≡ false
unfolding program
asked-unsettled = refl

asked-born : (asked.heap 0).born ≡ asked.epoch
unfolding program
asked-born = refl

asked-used : 0 < asked.next
unfolding program
asked-used = omega arith

single_flight_example : ◌≡◌ {A = ℕ} 0 0
single_flight_example =
    single_flight asked 0 0 asked-IsReachable asked-used asked-used asked-unsettled asked-unsettled
      asked-born asked-born refl

served_sound_example :
    ((owned.heap 0).promise ≡ some (ok 7))
    × ((owned.heap 0).key ≡ key)
    × ((owned.heap 0).settled ≡ true)
    × ((owned.heap 0).poisoned ≡ false)
    × (owned.now < (owned.heap 0).expires)
served_sound_example =
    served_sound owned 2 key 0 [] (ok 7) owned-IsReachable owned-jobs owned-served
