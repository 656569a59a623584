-- ===== src/Runner/Answers.antt =====
-- server/src/aws/insights.ts, `runHeld` and `poll`: what a result is made of.
use skills_dashboard.Common.{
  ℕ, zero, suc, ◌+◌, ◌-◌, ◌≡◌, refl, sym, ap, ◌∙◌, subst, ◌≢◌, ◌⊎◌, inl, inr, Option, none, some,
  [], ◌∷◌, leb, if◌then◌else◌, Bool-cases, Result, ok, err,
}
use skills_dashboard.Text.{Text}
use skills_dashboard.Window.{Window}
use skills_dashboard.Runner.{
  Query, QueryResult, Answer, Status, complete, failed, cancelled, timed_out, unfinished, RunError,
  aborted, build_result, wait_round, on_status, on_reply, Api, start_query, poll, deadline_of,
  rounds, finish, run_id, on_start, run_held,
}

module _ {S : Type 0} (api : Api S) (interval : ℕ) where
  -- A result that the walk returns is built from an answer that CloudWatch gave, in a state of the
  -- query that is complete.
  abbrev pub Answered : Text → Query → QueryResult → Type 0
  Answered id q r =
      (world : S) × (a : Answer) × ((api.results world id).1 ≡ ok a)
      × (a.status ≡ complete)
      × (r ≡ build_result q a)

  module _ (deadline : ℕ) where
    wait_round-ok :
        (q : Query) (s : S) (rest : S × Result RunError QueryResult) (r : QueryResult)
        → (wait_round api interval deadline q s rest).1 ≡ ok r
        → rest.1 ≡ ok r
    unfolding wait_round
    wait_round-ok q s rest r h = elim (Bool-cases (leb deadline (api.now s + interval))) [
      | inl e ↦ cc (
          subst
            (λ b.
              Path (Result RunError QueryResult)
                (if b then (api.wait s (deadline - api.now s), err (aborted q.id)) else rest).1
                (ok r))
            e h)
      | inr e ↦
          subst
            (λ b.
              Path (Result RunError QueryResult)
                (if b then (api.wait s (deadline - api.now s), err (aborted q.id)) else rest).1
                (ok r))
            e h
    ]

    on_status-ok :
        (q : Query) (a : Answer) (s : S) (rest : S × Result RunError QueryResult) (t : Status)
        (r : QueryResult)
        → (on_status api interval deadline q a s rest t).1 ≡ ok r
        → ((t ≡ complete) × (r ≡ build_result q a)) ⊎ (rest.1 ≡ ok r)
    unfolding on_status
    on_status-ok q a s rest complete r h = inl (refl, cc)
    on_status-ok q a s rest failed r h = cc
    on_status-ok q a s rest cancelled r h = cc
    on_status-ok q a s rest timed_out r h = cc
    on_status-ok q a s rest unfinished r h = inr (wait_round-ok q s rest r h)

    on_reply-ok :
        (q : Query) (s : S) (rest : S × Result RunError QueryResult) (reply : Result Text Answer)
        (r : QueryResult)
        → (on_reply api interval deadline q s rest reply).1 ≡ ok r
        → ((a : Answer) × (reply ≡ ok a) × (a.status ≡ complete) × (r ≡ build_result q a))
          ⊎ (rest.1 ≡ ok r)
    unfolding on_reply
    on_reply-ok q s rest (err e) r h = cc
    on_reply-ok q s rest (ok a) r h = elim (on_status-ok q a s rest a.status r h) [
      | inl (e, k) ↦ inl (a, refl, e, k)
      | inr k ↦ inr k
    ]

    poll-Answered :
        (n : ℕ) (id : Text) (q : Query) (s : S) (r : QueryResult)
        → (poll api interval deadline n id q s).1 ≡ ok r
        → Answered id q r
    unfolding poll
    poll-Answered zero id q s r h = cc
    poll-Answered (suc n) id q s r h =
        let reply = api.results s id in
        let rest = poll api interval deadline n id q (api.wait reply.0 interval) in
        elim (on_reply-ok q reply.0 rest reply.1 r h) [
          | inl (a, k, e, made) ↦ (s, a, k, e, made)
          | inr more ↦ poll-Answered n id q (api.wait reply.0 interval) r more
        ]

  finish-ok :
      (started timeout : ℕ) (id : Text) (s : S) (o : Result RunError QueryResult) (r : QueryResult)
      → (finish api interval timeout started id (s, o)).1 ≡ ok r
      → (found : QueryResult) × (o ≡ ok found) × (r ≡ record found { elapsed = r.elapsed })
  unfolding finish
  finish-ok started timeout id s (ok found) r h =
      let same : record found { elapsed = api.now s - started } ≡ r = cc in
      (found, refl, sym same ∙ ap (λ x. record found { elapsed = x.elapsed }) same)
  finish-ok started timeout id s (err e) r h = cc

  run_id-ok :
      (timeout : ℕ) (signal : Option ℕ) (started : ℕ) (q : Query) (id : Text) (s : S)
      (r : QueryResult)
      → (run_id api interval timeout signal started q id s).1 ≡ ok r
      → (id ≢ [])
        × ((found : QueryResult) × Answered id q found × (r ≡ record found { elapsed = r.elapsed }))
  unfolding run_id
  run_id-ok timeout signal started q [] s r h = cc
  run_id-ok timeout signal started q (c ∷ id) s r h =
      let d = deadline_of api interval timeout signal started in
      let ended = poll api interval d (rounds api interval timeout) (c ∷ id) q s in
      let (found, k, made) = finish-ok started timeout (c ∷ id) ended.0 ended.1 r h in
      (λ e. cc, (found, poll-Answered d (rounds api interval timeout) (c ∷ id) q s found k, made))

  on_start-ok :
      (timeout : ℕ) (signal : Option ℕ) (started : ℕ) (q : Query) (s : S)
      (reply : Result Text (Option Text)) (r : QueryResult)
      → (on_start api interval timeout signal started q s reply).1 ≡ ok r
      → (id : Text) × (reply ≡ ok (some id))
        × (id ≢ [])
        × ((found : QueryResult) × Answered id q found × (r ≡ record found { elapsed = r.elapsed }))
  unfolding on_start
  on_start-ok timeout signal started q s (err e) r h = cc
  on_start-ok timeout signal started q s (ok none) r h =
      absurd ((run_id-ok timeout signal started q [] s r h).0 refl)
  on_start-ok timeout signal started q s (ok (some id)) r h =
      let (there, rest) = run_id-ok timeout signal started q id s r h in (id, refl, there, rest)

  -- A result that a query returns is made of an answer that CloudWatch gave for the very query that
  -- was started, in a state that is complete; only the time that it took is added.
  pub run_held-Answered :
      (timeout : ℕ) (signal : Option ℕ) (log_group : Text) (w : Window) (q : Query) (s : S)
      (r : QueryResult)
      → (run_held api interval timeout signal log_group w q s).1 ≡ ok r
      → (id : Text) × ((api.start s (start_query log_group w q)).1 ≡ ok (some id))
        × (id ≢ [])
        × ((found : QueryResult) × Answered id q found × (r ≡ record found { elapsed = r.elapsed }))
  unfolding run_held
  run_held-Answered timeout signal log_group w q s r h =
      let begun = api.start s (start_query log_group w q) in
      on_start-ok timeout signal (api.now s) q begun.0 begun.1 r h
