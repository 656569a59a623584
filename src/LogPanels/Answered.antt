-- ===== src/LogPanels/Answered.antt =====
-- server/src/http/panels-logs.ts, `runLogQueries`: no query is left without an answer.
use skills_dashboard.Common.{
  ◌≡◌, refl, sym, ap, ◌∙◌, subst, ◌≢◌, ◌⊎◌, inl, inr, true, false, ◌&&◌, ◌||◌, not, some, List, [],
  ◌∷◌, ltb, ◌==◌, Bool-cases, length, Listed, Result, ok, err,
}
use skills_dashboard.Text.{Text, text_eq, is_empty}
use skills_dashboard.Text.Laws.{text_eq-eq, text_eq_refl}
use skills_dashboard.TextMap.{get, put, get-put_self, get-put_ne}
use skills_dashboard.Window.{Window}
use skills_dashboard.Runner.{Query, QueryResult}
use skills_dashboard.LogPanels.{LogSource, LogError, no_log_group, failed}
use skills_dashboard.LogPanels.Runs.{
  LogRun, Handed, returned, all_failed, threw, empty_run, record_outcome, run_all, run_key,
  load_run, all_errors, run_log_queries,
}

-- The map has a value for the key.
abbrev pub Held : {A : Type 0} → Text → List (Text × A) → Type 0
Held {A} k m = (a : A) × (get k m ≡ some a)

put-Held_self : {A : Type 0} (k j : Text) (a : A) (m : List (Text × A)) → k ≡ j → Held j (put k a m)
put-Held_self k j a m e = (a, subst (λ i. get i (put k a m) ≡ some a) e (get-put_self k a m))

put-Held : {A : Type 0} (k j : Text) (a : A) (m : List (Text × A)) → Held j m → Held j (put k a m)
put-Held k j a m (b, h) = elim (Bool-cases (text_eq k j)) [
  | inl e ↦ put-Held_self k j a m (text_eq-eq k j e)
  | inr e ↦
      let differs : k ≢ j = λ same.
        (let yes : text_eq k j ≡ true = subst (λ i. text_eq k i ≡ true) same (text_eq_refl k) in
          cc (yes, e)) in
      (b, get-put_ne k j a m differs ∙ h)
]

-- A query has a result or an error.
abbrev pub Answered : LogRun → Text → Type 0
Answered run id = Held id run.results ⊎ Held id run.errors

record_outcome-Answered :
    (q : Query) (r : Result Text QueryResult) (run : LogRun) (id : Text)
    → (q.id ≡ id) ⊎ Answered run id
    → Answered (record_outcome q r run) id
unfolding record_outcome
record_outcome-Answered q (ok r) run id (inl e) = inl (put-Held_self q.id id r run.results e)
record_outcome-Answered q (ok r) run id (inr (inl h)) = inl (put-Held q.id id r run.results h)
record_outcome-Answered q (ok r) run id (inr (inr h)) = inr h
record_outcome-Answered q (err m) run id (inl e) =
    inr (put-Held_self q.id id (failed m) run.errors e)
record_outcome-Answered q (err m) run id (inr (inl h)) = inl h
record_outcome-Answered q (err m) run id (inr (inr h)) =
    inr (put-Held q.id id (failed m) run.errors h)

run_all-Answered :
    (outcome : Query → Result Text QueryResult) (order : List Query) (run : LogRun) (q : Query)
    → Listed q order ⊎ Answered run q.id
    → Answered (run_all outcome order run) q.id
unfolding run_all
run_all-Answered outcome [] run q (inl l) = absurd l
run_all-Answered outcome [] run q (inr h) = h
run_all-Answered outcome (p ∷ order) run q (inl (inl e)) =
    run_all-Answered outcome order (record_outcome p (outcome p) run) q
      (inr (record_outcome-Answered p (outcome p) run q.id (inl (ap (λ x. x.id) (sym e)))))
run_all-Answered outcome (p ∷ order) run q (inl (inr l)) =
    run_all-Answered outcome order (record_outcome p (outcome p) run) q (inl l)
run_all-Answered outcome (p ∷ order) run q (inr h) =
    run_all-Answered outcome order (record_outcome p (outcome p) run) q
      (inr (record_outcome-Answered p (outcome p) run q.id (inr h)))

all_errors-Held :
    (e : LogError) (queries : List Query) (errors : List (Text × LogError)) (q : Query)
    → Listed q queries ⊎ Held q.id errors
    → Held q.id (all_errors e queries errors)
unfolding all_errors
all_errors-Held e [] errors q (inl l) = absurd l
all_errors-Held e [] errors q (inr h) = h
all_errors-Held e (p ∷ queries) errors q (inl (inl s)) =
    all_errors-Held e queries (put p.id e errors) q
      (inr (put-Held_self p.id q.id e errors (ap (λ x. x.id) (sym s))))
all_errors-Held e (p ∷ queries) errors q (inl (inr l)) =
    all_errors-Held e queries (put p.id e errors) q (inl l)
all_errors-Held e (p ∷ queries) errors q (inr h) =
    all_errors-Held e queries (put p.id e errors) q (inr (put-Held p.id q.id e errors h))

-- What the cache settles with: the load's own end, or another failure.
abbrev pub Settles : (Query → Result Text QueryResult) → List Query → List Query → Handed → Type 0
Settles outcome queries order handed =
    (handed ≡ load_run outcome queries order) ⊎ ((m : Text) × (handed ≡ threw m))

-- The run in what is handed out.
run_of : List Query → Handed → LogRun
unfolding all_errors
run_of queries (returned run) = run
run_of queries (all_failed run) = run
run_of queries (threw e) = record { results = []; errors = all_errors (failed e) queries [] }

run_of-load_run :
    (outcome : Query → Result Text QueryResult) (queries order : List Query)
    → run_of queries (load_run outcome queries order) ≡ run_all outcome order empty_run
unfolding run_of load_run
run_of-load_run outcome queries order =
    let run : LogRun = run_all outcome order empty_run in
    elim (Bool-cases (ltb 0 (length queries) && (length run.errors == length queries))) [
      | inl e ↦ rw e refl
      | inr e ↦ rw e refl
    ]

run_log_queries_run :
    (digest : Text → Text) (handed : Text → Handed) (src : LogSource) (w : Window) (name : Text)
    (queries : List Query)
    → (is_empty src.group || not src.has_runner) ≡ false
    → run_log_queries digest handed src w name queries
      ≡ run_of queries (handed (run_key digest src w name queries))
unfolding run_log_queries run_of
run_log_queries_run digest handed src w name queries h =
    rw h (by_cases (handed (run_key digest src w name queries)))
  where
    by_cases :
        (x : Handed)
        → (elim x [
          | returned run ↦ run
          | all_failed run ↦ run
          | threw e ↦ record { results = []; errors = all_errors (failed e) queries [] }
        ])
          ≡ run_of queries x
    by_cases (returned run) = refl
    by_cases (all_failed run) = refl
    by_cases (threw e) = refl

-- Each query of a set has a result or an error in what `runLogQueries` returns: with no group or no
-- runner, when all queries fail, when some do, and when the cache throws.
pub run_log_queries-Answered :
    (digest : Text → Text) (handed : Text → Handed) (src : LogSource) (w : Window) (name : Text)
    (outcome : Query → Result Text QueryResult) (queries order : List Query) (q : Query)
    → Settles outcome queries order (handed (run_key digest src w name queries))
    → Listed q queries
    → Listed q order
    → Answered (run_log_queries digest handed src w name queries) q.id
unfolding run_log_queries run_of
run_log_queries-Answered digest handed src w name outcome queries order q settles l o =
    elim (Bool-cases (is_empty src.group || not src.has_runner)) [
      | inl e ↦ rw (run_log_queries, e) (inr (all_errors-Held no_log_group queries [] q (inl l)))
      | inr e ↦
          subst (λ run. Answered run q.id)
            (sym (run_log_queries_run digest handed src w name queries e)) (settled settles)
    ]
  where
    threw_answered : (m : Text) → Answered (run_of queries (threw m)) q.id
    threw_answered m = inr (all_errors-Held (failed m) queries [] q (inl l))

    settled :
        Settles outcome queries order (handed (run_key digest src w name queries))
        → Answered (run_of queries (handed (run_key digest src w name queries))) q.id
    settled (inl e) =
        subst (λ run. Answered run q.id)
          (sym (ap (run_of queries) e ∙ run_of-load_run outcome queries order))
          (run_all-Answered outcome order empty_run q (inl o))
    settled (inr (m, e)) = subst (λ h. Answered (run_of queries h) q.id) (sym e) (threw_answered m)
