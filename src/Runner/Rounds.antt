-- ===== src/Runner/Rounds.antt =====
-- server/src/aws/insights.ts, `runHeld` and `poll`: the walk to a result ends, and what it ends with.
use skills_dashboard.Common.{
  ℕ, zero, suc, ◌+◌, ◌-◌, ◌*◌, ◌/◌, ◌%◌, ◌≤◌, ◌<◌, ◌≡◌, subst, ◌≢◌, inl, inr, Option, none, some,
  [], ◌∷◌, arith, leb, if◌then◌else◌, Bool-cases, Result, ok, err,
}
use skills_dashboard.Text.{Text}
use skills_dashboard.Window.{Window}
use skills_dashboard.Common.Floor.{div-mul}
use skills_dashboard.Runner.{
  Query, QueryResult, Answer, Status, complete, failed, cancelled, timed_out, unfinished, RunError,
  aborted, out_of_rounds, wait_round, on_status, on_reply, Api, StartQuery, start_query, poll,
  deadline_of, finish, run_id, on_start, run_held, or_empty,
}

module _ {S : Type 0} (api : Api S) (interval : ℕ) where
  module _ (deadline : ℕ) where
    -- Only the next round can run out of rounds, and only if it comes before the deadline.
    wait_round-out :
        (q : Query) (s : S) (rest : S × Result RunError QueryResult)
        → (wait_round api interval deadline q s rest).1 ≡ err out_of_rounds
        → (api.now s + interval < deadline) × (rest.1 ≡ err out_of_rounds)
    unfolding wait_round
    wait_round-out q s rest h = elim (Bool-cases (leb deadline (api.now s + interval))) [
      | inl e ↦ cc (
          subst
            (λ b.
              Path (Result RunError QueryResult)
                (if b then (api.wait s (deadline - api.now s), err (aborted q.id)) else rest).1
                (err out_of_rounds))
            e h)
      | inr e ↦
          let early : api.now s + interval < deadline = ground arith in
          (
            early,
            subst
                (λ b.
                  Path (Result RunError QueryResult)
                    (if b then (api.wait s (deadline - api.now s), err (aborted q.id)) else rest).1
                    (err out_of_rounds))
                e h,
          )
    ]

    on_status-out :
        (q : Query) (a : Answer) (s : S) (rest : S × Result RunError QueryResult) (t : Status)
        → (on_status api interval deadline q a s rest t).1 ≡ err out_of_rounds
        → (api.now s + interval < deadline) × (rest.1 ≡ err out_of_rounds)
    unfolding on_status
    on_status-out q a s rest complete h = cc
    on_status-out q a s rest failed h = cc
    on_status-out q a s rest cancelled h = cc
    on_status-out q a s rest timed_out h = cc
    on_status-out q a s rest unfinished h = wait_round-out q s rest h

    on_reply-out :
        (q : Query) (s : S) (rest : S × Result RunError QueryResult) (reply : Result Text Answer)
        → (on_reply api interval deadline q s rest reply).1 ≡ err out_of_rounds
        → (api.now s + interval < deadline) × (rest.1 ≡ err out_of_rounds)
    unfolding on_reply
    on_reply-out q s rest (err e) h = cc
    on_reply-out q s rest (ok a) h = on_status-out q a s rest a.status h

  -- The clock does not go back, and a wait lasts as long as it is given.
  module _ (onward : (s : S) (id : Text) → api.now s ≤ api.now (api.results s id).0)
      (lasts : (s : S) (ms : ℕ) → api.now s + ms ≤ api.now (api.wait s ms)) where
    poll_ends :
        (deadline n : ℕ) (id : Text) (q : Query) (s : S)
        → deadline ≤ api.now s + n * interval
        → (poll api interval deadline (suc n) id q s).1 ≢ err out_of_rounds
    unfolding poll
    poll_ends deadline zero id q s h out =
        let reply = api.results s id in
        let (early, _) =
          on_reply-out deadline q reply.0 (api.wait reply.0 interval, err out_of_rounds) reply.1
            out in
        let o = onward s id in omega arith
    poll_ends deadline (suc n) id q s h out =
        let reply = api.results s id in
        let next = api.wait reply.0 interval in
        let (_, more) =
          on_reply-out deadline q reply.0 (poll api interval deadline (suc n) id q next) reply.1
            out in
        let o = onward s id in
        let l = lasts reply.0 interval in
        let in_time : deadline ≤ api.now next + n * interval = grind arith in
        poll_ends deadline n id q next in_time more

    deadline_within :
        (timeout : ℕ) (signal : Option ℕ) (started : ℕ)
        → deadline_of api interval timeout signal started ≤ started + timeout
    deadline_within timeout none started = omega arith
    deadline_within timeout (some t) started = omega arith

    -- The rounds reach past the timeout.
    rounds_enough :
        (timeout : ℕ) (signal : Option ℕ) (started t : ℕ)
        → 0 < interval
        → started ≤ t
        → deadline_of api interval timeout signal started ≤ t + (timeout / interval + 1) * interval
    rounds_enough timeout signal started t h k =
        let whole = div-mul timeout interval in
        let rest : timeout % interval < interval = ground arith in
        let within = deadline_within timeout signal started in grind (arith, whole, rest, within)

    finish-out :
        (started timeout : ℕ) (id : Text) (s : S) (o : Result RunError QueryResult)
        → (finish api interval timeout started id (s, o)).1 ≡ err out_of_rounds
        → o ≡ err out_of_rounds
    unfolding finish
    finish-out started timeout id s (ok r) h = cc
    finish-out started timeout id s (err e) h = h

    run_id-out :
        (timeout : ℕ) (signal : Option ℕ) (started : ℕ) (q : Query) (id : Text) (s : S)
        → 0 < interval
        → started ≤ api.now s
        → (run_id api interval timeout signal started q id s).1 ≢ err out_of_rounds
    unfolding run_id
    run_id-out timeout signal started q [] s h k out = cc
    run_id-out timeout signal started q (c ∷ id) s h k out =
        let d = deadline_of api interval timeout signal started in
        let ended = poll api interval d (suc (timeout / interval + 1)) (c ∷ id) q s in
        poll_ends d (timeout / interval + 1) (c ∷ id) q s
          (rounds_enough timeout signal started (api.now s) h k)
          (finish-out started timeout (c ∷ id) ended.0 ended.1 out)

    on_start-out :
        (timeout : ℕ) (signal : Option ℕ) (started : ℕ) (q : Query) (s : S)
        (reply : Result Text (Option Text))
        → 0 < interval
        → started ≤ api.now s
        → (on_start api interval timeout signal started q s reply).1 ≢ err out_of_rounds
    unfolding on_start
    on_start-out timeout signal started q s (err e) h k out = cc
    on_start-out timeout signal started q s (ok o) h k out =
        run_id-out timeout signal started q (or_empty o) s h k out

    -- A query always comes to an end within the rounds that its timeout allows: the walk to its
    -- result never stops for want of rounds, whatever CloudWatch answers, if the clock does not go
    -- back and a wait lasts as long as it is given.
    pub run_held_ends :
        (timeout : ℕ) (signal : Option ℕ) (log_group : Text) (w : Window) (q : Query) (s : S)
        → 0 < interval
        → ((u : S) (i : StartQuery) → api.now u ≤ api.now (api.start u i).0)
        → (run_held api interval timeout signal log_group w q s).1 ≢ err out_of_rounds
    unfolding run_held
    run_held_ends timeout signal log_group w q s h begins =
        let i = start_query log_group w q in
        on_start-out timeout signal (api.now s) q (api.start s i).0 (api.start s i).1 h (begins s i)
