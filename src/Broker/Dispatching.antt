-- ===== src/Broker/Dispatching.antt =====
-- Dispatch, claims and completion as sequences of steps.
use deadpool.Base.{
  ℕ, ◌≡◌, refl, Bool, true, false, Option, none, some, [], ◌||◌, inl, inr, if-case, option-case,
  arith,
}
use deadpool.Result.{result-case}
use deadpool.Dict.{lookup, insert, values, nat_key, text_key}
use deadpool.Scheduler.{pop}
use deadpool.Broker.State.{
  Broker, Request, Setup, RequestState, accepted_queued, running, succeeded, task_failed,
  execution_timed_out, queue_timed_out, worker_lost, result_encoding_failed, result_too_large,
  is_terminal, is_closed,
}
use deadpool.Broker.Step.{Steps, Keeps, rewrite, done, one, ◌⨟◌}
use deadpool.Broker.Handlers.{then_send, then_frame, terminal_locked-Steps, purge_session-Steps}
use deadpool.Broker.Cancel.{is_queued, is_running, overdue, expire_queued}
use deadpool.Broker.Cancelling.{expire_queued-Steps}
use deadpool.Broker.Dispatch.{
  stage, waits, is_over, expired, take_staged, restore, handed_over, with_pid, publish,
  claim_dispatch, Outcome, returned, raised, unencodable, too_large, worker_outcome, timeout,
  failure, invalid, conclude, purge_closed, unstage, complete_local, cancelled_local,
}

module _ (e : Setup) where
  -- A record whose state, reservation and outcome stay is written back.
  keep :
      (ref : ℕ) (r r' : Request) (b : Broker)
      → lookup ref b.records ≡ some r
      → Keeps r r'
      → Steps e b (record b { records = insert ref r' b.records })
  keep ref r r' b eq k = one (rewrite ref r r' eq k refl refl (refl, refl))

  stage-Steps :
      (ref : ℕ) (r : Request) (b : Broker)
      → lookup ref b.records ≡ some r
      → Steps e b (stage ref r b)
  unfolding stage
  stage-Steps ref r b eq =
      then_frame e
        (keep ref r (record r { local_future = some (record { pid = none }) }) b eq
          (record {
            session_id = refl;
            reserved = refl;
            released = refl;
            advances = inl refl;
            outcome = λ _. (refl, refl, inl refl);
          }))
        (refl, refl, (refl, refl))

  pub take_staged-Steps : (now : ℕ) (b : Broker) → Steps e b (take_staged e now b).1
  unfolding take_staged
  take_staged-Steps now b₀ =
      let b : Broker = expire_queued e now (values b₀.requests) b₀ in
      expire_queued-Steps e now (values b₀.requests) b₀
      ⨟ if-case (λ (x : Option ℕ × Broker). Steps e b x.1) (waits e b || is_over b.state)
          (λ _. done)
          (λ _.
            result-case (λ (x : Option ℕ × Broker). Steps e b x.1) (pop b.scheduler) (λ x _. done)
              (λ (ref, scheduler) _.
                let popped : Broker = record b { scheduler = scheduler } in
                let framed : Steps e b popped = then_frame e done (refl, refl, (refl, refl)) in
                option-case (λ (x : Option ℕ × Broker). Steps e b x.1) (lookup ref b.records)
                  (λ _. framed)
                  (λ r eq.
                    if-case (λ (x : Option ℕ × Broker). Steps e b x.1) (is_queued r.state)
                      (λ _. framed ⨟ stage-Steps ref r popped eq) (λ _. framed))))

  pub restore-Steps : (ref : ℕ) (b : Broker) → Steps e b (restore ref b)
  unfolding restore
  restore-Steps ref b =
      option-case (Steps e b) (lookup ref b.records) (λ _. done)
        (λ r eq.
          then_frame e
            (keep ref r (record r { local_future = none }) b eq
              (record {
                session_id = refl;
                reserved = refl;
                released = refl;
                advances = inl refl;
                outcome = λ _. (refl, refl, inl refl);
              }))
            (refl, refl, (refl, refl)))

  pub handed_over-Steps : (ref : ℕ) (b : Broker) → Steps e b (handed_over ref b)
  unfolding handed_over
  handed_over-Steps ref b =
      option-case (Steps e b) (lookup ref b.records) (λ _. done)
        (λ r eq.
          keep ref r (record r { payload = [] }) b eq
            (record {
              session_id = refl;
              reserved = refl;
              released = refl;
              advances = inl refl;
              outcome = λ _. (refl, refl, inl refl);
            }))

  publish-Steps :
      (ref pid : ℕ) (r r' : Request) (b : Broker)
      → lookup ref b.records ≡ some r
      → Keeps r (record r' { local_future = with_pid pid r'.local_future })
      → Steps e b (publish e ref pid r' b)
  unfolding publish
  publish-Steps ref pid r r' b eq k =
      then_send e _ _ _ _
        (keep ref r (record r' { local_future = with_pid pid r'.local_future }) b eq k)

  queued-open : (s : RequestState) → is_queued s ≡ true → is_terminal s ≡ false
  queued-open accepted_queued h = refl
  queued-open running h = ground arith
  queued-open succeeded h = ground arith
  queued-open task_failed h = ground arith
  queued-open execution_timed_out h = ground arith
  queued-open _ h = ground arith

  claimed :
      (pid : ℕ) (r : Request)
      → is_queued r.state ≡ true
      → Keeps r (record r { state = running; local_future = with_pid pid r.local_future })
  claimed pid r q = record {
    session_id = refl;
    reserved = refl;
    released = refl;
    advances = inr (queued-open r.state q, refl);
    outcome = λ _. (refl, refl, inl refl);
  }

  overdue-Steps :
      (ref : ℕ) (r : Request) (b : Broker) → Steps e b (cancelled_local ref r (expired e ref b))
  unfolding expired
  overdue-Steps ref r b =
      option-case (Steps e b) r.local_future (λ _. expired-Steps)
        (λ f _. then_frame e expired-Steps (refl, refl, (refl, refl)))
    where
      expired-Steps : Steps e b (expired e ref b)
      expired-Steps = terminal_locked-Steps e ref queue_timed_out _ _ _ b refl refl

  pub claim_dispatch-Steps :
      (now ref pid : ℕ) (b : Broker) → Steps e b (claim_dispatch e now ref pid b).1
  unfolding claim_dispatch
  claim_dispatch-Steps now ref pid b =
      let P : Bool × Broker → Type 0 = λ x. Steps e b x.1 in
      option-case P (lookup ref b.records) (λ _. done)
        (λ r eq.
          if-case P (is_queued r.state)
            (λ q.
              if-case P (overdue now r.queue_deadline) (λ _. overdue-Steps ref r b)
                (λ _.
                  then_frame e done (refl, refl, (refl, refl))
                  ⨟ publish-Steps ref pid r (record r { state = running }) _ eq (claimed pid r q)))
            (λ _.
              if-case P (is_running r.state)
                (λ _. publish-Steps ref pid r r b eq (record {
                  session_id = refl;
                  reserved = refl;
                  released = refl;
                  advances = inl refl;
                  outcome = λ _. (refl, refl, inl refl);
                }))
                (λ _. done)))

  conclude-Steps :
      (ref : ℕ) (r : Request) (outcome : Outcome) (b : Broker)
      → Steps e b (conclude e ref r outcome b)
  unfolding conclude
  conclude-Steps ref r (worker_outcome returned p d) b =
      terminal_locked-Steps e ref succeeded _ _ _ b refl refl
  conclude-Steps ref r (worker_outcome raised p d) b =
      terminal_locked-Steps e ref task_failed _ _ _ b refl refl
  conclude-Steps ref r (worker_outcome unencodable p d) b =
      terminal_locked-Steps e ref result_encoding_failed _ _ _ b refl refl
  conclude-Steps ref r (worker_outcome too_large p d) b =
      terminal_locked-Steps e ref result_too_large _ _ _ b refl refl
  conclude-Steps ref r (timeout t) b =
      terminal_locked-Steps e ref execution_timed_out _ _ _ b refl refl
  conclude-Steps ref r (failure t) b = terminal_locked-Steps e ref worker_lost _ _ _ b refl refl
  conclude-Steps ref r invalid b = terminal_locked-Steps e ref worker_lost _ _ _ b refl refl

  purge_closed-Steps : (r : Request) (b : Broker) → Steps e b (purge_closed r b)
  unfolding purge_closed
  purge_closed-Steps r b =
      if-case (Steps e b) (is_closed r.connection b)
        (λ _.
          option-case (Steps e b) (lookup r.session_id b.sessions) (λ _. done)
            (λ s _.
              if-case (Steps e b) s.registered_session (λ _. purge_session-Steps e r.session_id b)
                (λ _. done)))
        (λ _. done)

  unstage-Steps : (b : Broker) → Steps e b (unstage b)
  unstage-Steps b = then_frame e done (refl, refl, (refl, refl))

  pub complete_local-Steps :
      (ref : ℕ) (outcome : Outcome) (b : Broker) → Steps e b (complete_local e ref outcome b)
  unfolding complete_local
  complete_local-Steps ref outcome b =
      option-case (Steps e b) (lookup ref b.records) (λ _. done)
        (λ r _.
          if-case (Steps e b) (is_terminal r.state)
            (λ _. unstage-Steps b ⨟ purge_closed-Steps r (unstage b))
            (λ _.
              conclude-Steps ref r outcome b
              ⨟ unstage-Steps (conclude e ref r outcome b)
              ⨟ purge_closed-Steps r (unstage (conclude e ref r outcome b))))
