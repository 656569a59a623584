-- ===== src/Config/Fields.antt =====
-- server/src/config/config.ts, `inspect`: when a field has no problem.
use skills_dashboard.Common.{
  ◌≡◌, refl, sym, subst, ◌≢◌, ◌↔◌, ◌⊎◌, inl, inr, Bool, true, false, ◌&&◌, ◌||◌, not, Option, none,
  some, List, [], ◌∷◌, ◌++◌, arith, if◌then◌else◌, Bool-cases, Listed, All, ok, err,
}
use skills_dashboard.Common.{ℤ, pos, ltb_ℤ, eqb_ℤ, ◌≤ℤ◌, eqb_ℤ_eq, eqb_ℤ_refl}
use skills_dashboard.Text.{Text, text, text_eq, is_empty, includes}
use skills_dashboard.Text.Laws.{text_eq_iff, text_eq-eq}
use skills_dashboard.Config.{is_alb_dimension, is_queryable_header}
use skills_dashboard.Config.Dimension.{Dimension, is_alb_dimension_iff}
use skills_dashboard.Config.Repair.{
  UrlProblem, url_problems_for, Problem, unfit_headers, region_problems, load_balancer_problems,
  status_problems, headers_problem, header_problems,
}

pub is_empty_iff : (s : Text) → (is_empty s ≡ false) ↔ (s ≢ [])
is_empty_iff [] = (λ h. cc, λ h. absurd (h refl))
is_empty_iff (c ∷ s) = (λ h e. cc, λ h. refl)

-- A list of at most one problem is empty when its condition does not hold.
no_problem_iff : (b : Bool) (p : Problem) → ((if b then p ∷ [] else []) ≡ []) ↔ (b ≡ false)
no_problem_iff true p = (λ h. cc, λ h. cc)
no_problem_iff false p = (λ h. refl, λ h. refl)

append-nil_iff : (ps qs : List Problem) → (ps ++ qs ≡ []) ↔ ((ps ≡ []) × (qs ≡ []))
append-nil_iff [] qs = (λ h. (refl, h), λ (_, h). h)
append-nil_iff (p ∷ ps) qs = (λ h. cc, λ (h, _). cc)

pub joined :
    {A B : Type 0} {ps qs : List Problem}
    → (ps ≡ []) ↔ A
    → (qs ≡ []) ↔ B
    → (ps ++ qs ≡ []) ↔ (A × B)
joined {ps = ps} {qs = qs} f g = (
  λ h. let (p, q) = (append-nil_iff ps qs).0 h in (f.0 p, g.0 q),
  λ (a, b). (append-nil_iff ps qs).1 (f.1 a, g.1 b),
)

pub neither_none : (b : Bool) (x y : UrlProblem) → (if b then some x else some y) ≢ none
neither_none true x y h = cc
neither_none false x y h = cc

pub both_none :
    (b d : Bool) (x y : UrlProblem)
    → (if b then some x else (if d then some y else none)) ≡ none
    → (b ≡ false) × (d ≡ false)
both_none true d x y h = cc
both_none false true x y h = cc
both_none false false x y h = (refl, refl)

pub web_protocol :
    (p : Text)
    → (not (text_eq p (text "http:")) && not (text_eq p (text "https:"))) ≡ false
    → (p ≡ text "http:") ⊎ (p ≡ text "https:")
web_protocol p h = elim (Bool-cases (text_eq p (text "http:"))) [
  | inl e ↦ inl (text_eq-eq p (text "http:") e)
  | inr e ↦ inr (text_eq-eq p (text "https:") (ground arith))
]

pub protocol_allowed :
    (p : Text)
    → (p ≡ text "http:") ⊎ (p ≡ text "https:")
    → (not (text_eq p (text "http:")) && not (text_eq p (text "https:"))) ≡ false
protocol_allowed p (inl e) = rw e
protocol_allowed p (inr e) = rw e

pub url_problems_for-none :
    (s : Text) (o : Option UrlProblem) → url_problems_for s o ≡ [] → o ≡ none
url_problems_for-none s none h = refl
url_problems_for-none s (some reason) h = cc

-- A check of a boolean passes.
pub passed : {E : Type 0} (b : Bool) (e : E) → (if b then ok (tt {0}) else err e) ≡ ok tt → b ≡ true
passed true e h = refl
passed false e h = cc

pub stopped :
    {E : Type 0} (b : Bool) (e : E) → (if b then err e else ok (tt {0})) ≡ ok tt → b ≡ false
stopped true e h = cc
stopped false e h = refl

pub includes_iff : (ts : List Text) (s : Text) → (includes ts s ≡ true) ↔ Listed s ts
unfolding includes
includes_iff [] s = (λ h. cc, λ l. absurd l)
includes_iff (t ∷ ts) s = (
  λ h. elim (Bool-cases (text_eq t s)) [
    | inl e ↦ inl (sym (text_eq-eq t s e))
    | inr e ↦ inr ((includes_iff ts s).0 (ground arith))
  ],
  λ l. elim l [
    | inl e ↦ let hit = (text_eq_iff t s).1 (sym e) in rw hit
    | inr later ↦ let rest = (includes_iff ts s).1 later in ground arith
  ],
)

-- The conditions that a configuration has to meet, field by field.
abbrev pub BalancerFits : Text → Type 0
BalancerFits s = (s ≡ []) ⊎ Dimension s

abbrev pub StatusFits : ℤ → Type 0
StatusFits n = (n ≡ pos 0) ⊎ ((pos 100 ≤ℤ n) × (n ≤ℤ pos 599))

pub region_problems_iff : (r : Text) → (region_problems r ≡ []) ↔ (r ≢ [])
unfolding region_problems
region_problems_iff r = (
  λ h. (is_empty_iff r).0 ((no_problem_iff (is_empty r) _).0 h),
  λ h. (no_problem_iff (is_empty r) _).1 ((is_empty_iff r).1 h),
)

pub load_balancer_problems_iff : (s : Text) → (load_balancer_problems s ≡ []) ↔ BalancerFits s
unfolding load_balancer_problems
load_balancer_problems_iff [] = (λ h. inl refl, λ h. refl)
load_balancer_problems_iff (c ∷ s) = elim (Bool-cases (is_alb_dimension (c ∷ s))) [
  | inl e ↦ (λ h. inr ((is_alb_dimension_iff (c ∷ s)).0 e), λ h. rw e)
  | inr e ↦ (
    λ h. cc (rw e at h),
    λ h. elim h [ inl n ↦ cc | inr f ↦ cc ((is_alb_dimension_iff (c ∷ s)).1 f, e) ],
  )
]

fitting_status_iff :
    (n : ℤ)
    → ((not (eqb_ℤ n (pos 0)) && (ltb_ℤ n (pos 100) || ltb_ℤ (pos 599) n)) ≡ false) ↔ StatusFits n
fitting_status_iff n = elim (Bool-cases (eqb_ℤ n (pos 0))) [
  | inl e ↦ (λ h. inl (eqb_ℤ_eq n (pos 0) e), λ h. rw e)
  | inr e ↦ (
    λ h.
        let within : (ltb_ℤ n (pos 100) || ltb_ℤ (pos 599) n) ≡ false = rw e at h in
        inr (ground arith, ground arith),
    λ h. elim h [
      | inl z ↦ cc (subst (λ m. eqb_ℤ m (pos 0) ≡ false) z e, eqb_ℤ_refl (pos 0))
      | inr (lower, upper) ↦ rw e (ground arith)
    ],
  )
]

pub status_problems_iff : (n : ℤ) → (status_problems n ≡ []) ↔ StatusFits n
unfolding status_problems
status_problems_iff n = (
  λ h. (fitting_status_iff n).0 ((no_problem_iff _ _).0 h),
  λ h. (no_problem_iff _ _).1 ((fitting_status_iff n).1 h),
)

headers_problem_iff : (hs : List Text) → (headers_problem hs ≡ []) ↔ (hs ≡ [])
headers_problem_iff [] = (λ h. refl, λ h. refl)
headers_problem_iff (h ∷ hs) = (λ e. cc, λ e. cc)

unfit_headers_iff :
    (hs : List Text) → (unfit_headers hs ≡ []) ↔ All (λ h. is_queryable_header h ≡ true) hs
unfolding unfit_headers
unfit_headers_iff [] = (λ h. tt, λ h. refl)
unfit_headers_iff (h ∷ hs) = elim (Bool-cases (is_queryable_header h)) [
  | inl e ↦
      (λ k. (e, (unfit_headers_iff hs).0 (rw e at k)), λ (_, k). rw e ((unfit_headers_iff hs).1 k))
  | inr e ↦ (λ k. cc (rw e at k), λ (k, _). cc)
]

pub header_problems_iff :
    (hs : List Text) → (header_problems hs ≡ []) ↔ All (λ h. is_queryable_header h ≡ true) hs
unfolding header_problems
header_problems_iff hs = (
  λ h. (unfit_headers_iff hs).0 ((headers_problem_iff (unfit_headers hs)).0 h),
  λ h. (headers_problem_iff (unfit_headers hs)).1 ((unfit_headers_iff hs).1 h),
)
