-- ===== src/Cache.antt =====
-- server/src/aws/cache.ts: a cache that folds concurrent misses into one load, as a state machine.
-- A step is what runs between two suspensions of `do`. Entries are objects that callers share, so
-- they stand on a heap, and `entries` maps a key to a place on it. Values are of a type `V`, errors
-- of a type `E`. `poisoned` and `born` are not in the source: they record that an entry failed
-- because its own caller left, and how many calls of `invalidate` came before it.
pub mod Steps
pub mod Ordering
pub mod Inv
pub mod Moves
pub mod Waits
pub mod Owner
pub mod Sharing
use skills_dashboard.Common.{
  ℕ, zero, suc, ◌+◌, ◌-◌, ◌*◌, ◌/◌, ◌%◌, ◌^◌, ◌≤◌, ◌<◌, min, ◌≡◌, refl, sym, ap, ◌∙◌, subst, ◌≢◌,
  ◌↔◌, ◌⊎◌, inl, inr, Bool, true, false, ◌&&◌, ◌||◌, not, Option, none, some, List, [], ◌∷◌, ◌++◌,
  map, append-nil, append_assoc, arith, ltb, leb, ◌==◌, if◌then◌else◌, Bool-cases, Option-cases,
  length, get_elem?, set, take, drop, replicate, length-append, length-map, length-replicate,
  Listed, All, All-Listed, All-append, Result, ok, err, ◌>>=◌, ◌>>◌, >>=-eq-ok, Result-cases,
}
use skills_dashboard.Text.{Text, text_eq}

-- A suspended call of `do`: the one that loads the entry, or one that waits for it, by its number,
-- the key that it asks for and the entry that it awaits.
pub data Job : Type 0 where
  owner waiter : ℕ → Text → ℕ → Job

abbrev pub job_entry : Job → ℕ
job_entry (owner c k id) = id
job_entry (waiter c k id) = id

abbrev pub job_key : Job → Text
job_key (owner c k id) = k
job_key (waiter c k id) = k

pub record Entry (E V : Type 0) : Type 0 where
  pub key : Text
  pub promise : Option (Result E V)
  pub expires : ℕ
  pub settled : Bool
  pub reactions : List Job
  pub poisoned : Bool
  pub born : ℕ

pub record Cache (E V : Type 0) : Type 0 where
  pub entries : Text → Option ℕ
  pub heap : ℕ → Entry E V
  pub next : ℕ
  pub now : ℕ
  pub jobs : List Job
  pub epoch : ℕ
  pub ttl : ℕ
  pub error_ttl : ℕ

-- A time to live that is given and positive, or the default.
abbrev ttl_or : ℕ → Option ℕ → ℕ
ttl_or d none = d
ttl_or d (some n) = if ltb 0 n then n else d

abbrev pub put : {A : Type 0} → (ℕ → A) → ℕ → A → ℕ → A
put f id a j = if j == id then a else f j

abbrev pub bind : (Text → Option ℕ) → Text → Option ℕ → Text → Option ℕ
bind f k o j = if text_eq j k then o else f j

abbrev pub is_id : Option ℕ → ℕ → Bool
is_id none id = false
is_id (some i) id = i == id

module _ {E V : Type 0} where
  -- The constructor, on a heap of which no place is in use.
  unfoldable pub new_cache : Entry E V → Option ℕ → Option ℕ → ℕ → Cache E V
  new_cache blank ttl error_ttl now = record {
    entries = λ k. none;
    heap = λ id. blank;
    next = 0;
    now = now;
    jobs = [];
    epoch = 0;
    ttl = ttl_or 30_000 ttl;
    error_ttl = ttl_or 5_000 error_ttl;
  }

  -- `prune` keeps an entry that is not settled, or not past its time.
  abbrev pub kept : Cache E V → Option ℕ → Option ℕ
  kept s none = none
  kept s (some id) = if (s.heap id).settled && ltb (s.heap id).expires s.now then none else some id

  unfoldable pub prune : Cache E V → Cache E V
  prune s = record s { entries = λ k. kept s (s.entries k) }

  -- `await waiting.promise`
  unfoldable pub wait_on : ℕ → Text → ℕ → Cache E V → Cache E V
  wait_on c k id s = elim (s.heap id).promise [
    | some _ ↦ record s { jobs = s.jobs ++ waiter c k id ∷ [] }
    | none ↦ record s {
      heap =
          put s.heap id
            (record (s.heap id) { reactions = (s.heap id).reactions ++ waiter c k id ∷ [] });
    }
  ]

  -- A miss: the key is taken before anything is awaited.
  unfoldable pub start : ℕ → Text → Cache E V → Cache E V
  start c k s = record s {
    entries = bind s.entries k (some s.next);
    heap = put s.heap s.next (record {
      key = k;
      promise = none;
      expires = s.now + s.ttl;
      settled = false;
      reactions = owner c k s.next ∷ [];
      poisoned = false;
      born = s.epoch;
    });
    next = suc s.next;
  }

  -- One round of the loop of `do`, up to its first suspension.
  unfoldable pub enter : ℕ → Text → Cache E V → Cache E V
  enter c k s = elim ((prune s).entries k) [
    | some id ↦ wait_on c k id (prune s)
    | none ↦ start c k (prune s)
  ]

  -- The load of an entry ends: the calls that await it are queued in the order in which they came.
  unfoldable pub resolve : ℕ → Result E V → Cache E V → Cache E V
  resolve id o s = record s {
    heap = put s.heap id (record (s.heap id) { promise = some o; reactions = [] });
    jobs = s.jobs ++ (s.heap id).reactions;
  }

  -- `if (this.entries.get(key) === entry) this.entries.delete(key)`
  unfoldable pub remove_own : Text → ℕ → Cache E V → Cache E V
  remove_own k id s =
      if is_id (s.entries k) id then record s { entries = bind s.entries k none } else s

  abbrev pub failed : Option (Result E V) → Bool
  failed (some (err _)) = true
  failed _ = false

  -- The loading call after its await; `aborted` is `signal?.aborted === true`.
  unfoldable pub run_owner : Text → ℕ → Bool → Cache E V → Cache E V
  run_owner k id aborted s =
      if failed (s.heap id).promise
      then (if aborted
          then remove_own k id (record s {
            heap = put s.heap id (record (s.heap id) { settled = true; poisoned = true });
          })
          else record s {
            heap =
                put s.heap id
                  (record (s.heap id) { settled = true; expires = s.now + s.error_ttl });
          })
      else record s {
        heap = put s.heap id (record (s.heap id) { settled = true; expires = s.now + s.ttl });
      }

  abbrev pub fresh : Text → ℕ → Cache E V → Bool
  fresh k id s = is_id (s.entries k) id && ltb s.now (s.heap id).expires

  -- A waiting call after its await: it is served, or goes round again.
  unfoldable pub run_waiter : ℕ → Text → ℕ → Cache E V → Cache E V
  run_waiter c k id s = if fresh k id s then s else enter c k (remove_own k id s)

  -- What a waiting call hands to its caller when it runs, if it does not go round again.
  unfoldable pub served : Text → ℕ → Cache E V → Option (Result E V)
  served k id s = if fresh k id s then (s.heap id).promise else none

  unfoldable pub invalidate : Cache E V → Cache E V
  invalidate s = record s { entries = λ k. none; epoch = suc s.epoch }
