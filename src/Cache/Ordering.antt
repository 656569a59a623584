-- ===== src/Cache/Ordering.antt =====
-- The loading call of an entry stands before every call that waits for it.
use skills_dashboard.Common.{ℕ, ◌≡◌, ◌≢◌, ◌⊎◌, inl, inr, List, [], ◌∷◌, ◌++◌, All}
use skills_dashboard.Cache.{Job, owner, waiter, job_entry}

-- Of the jobs for an entry, the first is its loading call.
abbrev pub Leads : ℕ → List Job → Type 0
Leads id [] = ⊥
Leads id (owner c k i ∷ js) = (i ≡ id) ⊎ Leads id js
Leads id (waiter c k i ∷ js) = (i ≢ id) × Leads id js

pub Leads-append : (id : ℕ) (xs ys : List Job) → Leads id xs → Leads id (xs ++ ys)
Leads-append id [] ys l = absurd l
Leads-append id (owner c k i ∷ xs) ys (inl e) = inl e
Leads-append id (owner c k i ∷ xs) ys (inr l) = inr (Leads-append id xs ys l)
Leads-append id (waiter c k i ∷ xs) ys (n, l) = (n, Leads-append id xs ys l)

pub Leads-append_other :
    (id : ℕ) (xs ys : List Job) → All (λ j. job_entry j ≢ id) xs → Leads id ys → Leads id (xs ++ ys)
Leads-append_other id [] ys h l = l
Leads-append_other id (owner c k i ∷ xs) ys (n, h) l = inr (Leads-append_other id xs ys h l)
Leads-append_other id (waiter c k i ∷ xs) ys (n, h) l = (n, Leads-append_other id xs ys h l)

pub All-map {ℓ κ} :
    {A : Type 0} {P : A → Type ℓ} {Q : A → Type κ} (f : (x : A) → P x → Q x) (xs : List A)
    → All P xs
    → All Q xs
All-map f [] h = tt
All-map f (x ∷ xs) (p, h) = (f x p, All-map f xs h)
