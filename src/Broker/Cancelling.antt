-- ===== src/Broker/Cancelling.antt =====
-- Cancellation, expiry, shutdown and disconnection as sequences of steps.
use deadpool.Base.{
  ℕ, ◌≡◌, refl, Bool, true, false, not, String, List, [], ◌∷◌, if-case, option-case, ◌&&◌, is_some,
}
use deadpool.Dict.{lookup, values, nat_key, text_key}
use deadpool.Protocol.Frame.{MessageType}
use deadpool.Protocol.Json.{Fields}
use deadpool.Broker.State.{
  Broker, Request, Setup, RequestState, accepted_queued, running, cancelled, queue_timed_out,
  is_terminal, DisconnectPolicy, cancel_queued, continue_running, terminate, get, owned_request,
  session_of, authorized,
}
use deadpool.Broker.Step.{Steps, done, ◌⨟◌}
use deadpool.Broker.Handlers.{
  then_send, then_frame, terminal_locked-Steps, remove_request-Steps, purge_session-Steps,
}
use deadpool.Broker.Cancel.{
  is_queued, is_running, overdue, truth, is_clean, cancels_queued, disconnect_running, end_queued,
  end_running, cancel_record, cancel, disconnect_record, disconnect_records, disconnect,
  close_connection, expire_queued, shutdown_records, acknowledge, status,
}

module _ (e : Setup) where
  pub end_queued-Steps :
      (ref : ℕ) (r : Request) (state : RequestState) (kind : MessageType) (text : String)
      (b : Broker)
      → is_terminal state ≡ true
      → is_queued state ≡ false
      → Steps e b (end_queued e ref r state kind text b)
  unfolding end_queued
  end_queued-Steps ref r state kind text b t q =
      let unqueued = then_frame e done (refl, refl, (refl, refl)) in
      let ended = unqueued ⨟ terminal_locked-Steps e ref state kind _ _ _ t q in
      if-case (Steps e b) (is_some r.local_future)
        (λ _. then_frame e ended (refl, refl, (refl, refl))) (λ _. ended)

  pub end_running-Steps :
      (ref : ℕ) (r : Request) (text : String) (b : Broker) → Steps e b (end_running e ref r text b)
  unfolding end_running
  end_running-Steps ref r text b =
      let ended = terminal_locked-Steps e ref cancelled _ _ _ b refl refl in
      if-case (Steps e b) (is_some r.local_future)
        (λ _. then_frame e ended (refl, refl, (refl, refl))) (λ _. ended)

  cancel_record-Steps :
      (n : ℕ) (control : Fields) (ref : ℕ) (r : Request) (state : RequestState) (b : Broker)
      → Steps e b (cancel_record e n control ref r state b).1
  unfolding cancel_record
  cancel_record-Steps n control ref r accepted_queued b =
      end_queued-Steps ref r cancelled _ _ b refl refl
  cancel_record-Steps n control ref r running b =
      if-case (λ (x : String × Broker). Steps e b x.1)
        (truth (get "hard" control) && authorized e n "hard_cancel" control b)
        (λ _. end_running-Steps ref r _ b) (λ _. done)
  cancel_record-Steps n control ref r _ b = done

  pub cancel-Steps : (n : ℕ) (control : Fields) (b : Broker) → Steps e b (cancel e n control b)
  unfolding cancel
  cancel-Steps n control b = then_send e n _ _ _ (
      option-case (λ (x : String × Broker). Steps e b x.1)
        (owned_request n (get "request_id" control) b) (λ _. done)
        (λ ref _.
          option-case (λ (x : String × Broker). Steps e b x.1) (lookup ref b.records) (λ _. done)
            (λ r _. cancel_record-Steps n control ref r r.state b)))

  disconnect_running-Steps :
      (policy : DisconnectPolicy) (ref : ℕ) (r : Request) (b : Broker)
      → Steps e b (disconnect_running e policy ref r b)
  unfolding disconnect_running
  disconnect_running-Steps cancel_queued ref r b = done
  disconnect_running-Steps continue_running ref r b = done
  disconnect_running-Steps terminate ref r b =
      if-case (Steps e b) (is_some r.local_future) (λ _. end_running-Steps ref r _ b) (λ _. done)

  disconnect_record-Steps :
      (ref : ℕ) (r : Request) (state : RequestState) (b : Broker)
      → Steps e b (disconnect_record e ref r state b)
  unfolding disconnect_record
  disconnect_record-Steps ref r accepted_queued b = end_queued-Steps ref r cancelled _ _ b refl refl
  disconnect_record-Steps ref r running b = disconnect_running-Steps e.disconnect_policy ref r b
  disconnect_record-Steps ref r _ b = done

  disconnect_records-Steps : (refs : List ℕ) (b : Broker) → Steps e b (disconnect_records e refs b)
  unfolding disconnect_records
  disconnect_records-Steps [] b = done
  disconnect_records-Steps (ref ∷ refs) b =
      option-case (Steps e b) (lookup ref b.records) (λ _. done)
        (λ r _. disconnect_record-Steps ref r r.state b)
      ⨟ disconnect_records-Steps refs _

  close_connection-Steps : (n : ℕ) (b : Broker) → Steps e b (close_connection e n b)
  close_connection-Steps n b =
      option-case (Steps e b) (lookup n b.connections) (λ _. done)
        (λ c _. then_frame e done (refl, refl, (refl, refl)))

  pub disconnect-Steps : (n : ℕ) (b : Broker) → Steps e b (disconnect e n b)
  unfolding disconnect
  disconnect-Steps n b =
      option-case (Steps e b) (session_of n b) (λ _. close_connection-Steps n b)
        (λ (sid, s) _.
          if-case (Steps e b) (not (is_clean n b) && cancels_queued e.disconnect_policy)
            (λ _. close_connection-Steps n b ⨟ disconnect_records-Steps (values s.requests) _)
            (λ _. close_connection-Steps n b)
          ⨟ purge_session-Steps e sid _)

  pub expire_queued-Steps :
      (now : ℕ) (refs : List ℕ) (b : Broker) → Steps e b (expire_queued e now refs b)
  unfolding expire_queued
  expire_queued-Steps now [] b = done
  expire_queued-Steps now (ref ∷ refs) b =
      option-case (Steps e b) (lookup ref b.records) (λ _. done)
        (λ r _.
          if-case (Steps e b) (is_queued r.state && overdue now r.queue_deadline)
            (λ _. end_queued-Steps ref r queue_timed_out _ _ b refl refl) (λ _. done))
      ⨟ expire_queued-Steps now refs _

  pub shutdown_records-Steps :
      (hard : Bool) (text : String) (refs : List ℕ) (b : Broker)
      → Steps e b (shutdown_records e hard text refs b)
  unfolding shutdown_records
  shutdown_records-Steps hard text [] b = done
  shutdown_records-Steps hard text (ref ∷ refs) b =
      option-case (Steps e b) (lookup ref b.records) (λ _. done)
        (λ r _.
          if-case (Steps e b) (is_queued r.state)
            (λ _. end_queued-Steps ref r cancelled _ _ b refl refl)
            (λ _.
              if-case (Steps e b) (hard && is_running r.state && is_some r.local_future)
                (λ _. end_running-Steps ref r text b) (λ _. done)))
      ⨟ shutdown_records-Steps hard text refs _

  pub acknowledge-Steps :
      (n : ℕ) (control : Fields) (b : Broker) → Steps e b (acknowledge n control b)
  unfolding acknowledge
  acknowledge-Steps n control b =
      option-case (Steps e b) (owned_request n (get "request_id" control) b) (λ _. done)
        (λ ref _.
          option-case (Steps e b) (lookup ref b.records) (λ _. done)
            (λ r _.
              if-case (Steps e b) (is_terminal r.state) (λ _. remove_request-Steps e ref b)
                (λ _. done)))

  pub status-Steps : (n : ℕ) (control : Fields) (b : Broker) → Steps e b (status e n control b)
  unfolding status
  status-Steps n control b = then_send e n _ _ _ done
