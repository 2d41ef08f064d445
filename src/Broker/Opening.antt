-- ===== src/Broker/Opening.antt =====
-- Sessions that begin and end, group cancellation and the messages of a connection as sequences of
-- steps.
use deadpool.Base.{
  ℕ, ◌≡◌, refl, Bool, false, String, List, [], ◌∷◌, if-case, option-case, leb, ◌&&◌,
}
use deadpool.Result.{Result, ok, err, result-case}
use deadpool.Dict.{lookup, has, values, nat_key, text_key}
use deadpool.Protocol.Json.{Json, Fields}
use deadpool.Protocol.Frame.{
  MessageType, ping, submit as submit_message, cancel_request, cancel_group as cancel_group_message,
  status_request, stats_request, result_ack, close_session as close_session_message,
}
use deadpool.Protocol.Reader.{Message}
use deadpool.Broker.State.{
  Broker, Request, Connection, Setup, RequestState, accepted_queued, running, cancelled, get,
  session_of, authorized,
}
use deadpool.Broker.Hello.{validate_hello, refusal, principal_of, text_in}
use deadpool.Broker.Cancel.{truth}
use deadpool.Broker.Step.{Steps, opens, done, one, ◌⨟◌}
use deadpool.Broker.Handlers.{then_send, then_frame}
use deadpool.Broker.Submitting.{submit-Steps}
use deadpool.Broker.Cancelling.{
  end_queued-Steps, end_running-Steps, cancel-Steps, acknowledge-Steps, status-Steps,
}
use deadpool.Broker.Sessions.{
  connect, takes_connections, principal_connections, reject_hello, open_session, begin_session,
  handshake, first_message,
}
use deadpool.Broker.Groups.{
  GroupCounts, group_record, group_records, end_group, group_of, cancel_group,
}
use deadpool.Broker.Messages.{
  told, all_terminal, mark_clean, close_session, handle_kind, handle_message,
}

module _ (e : Setup) where
  abbrev Reached : Broker → Result (Unit {0}) × Broker → Type 0
  Reached b x = Steps e b x.1

  pub connect-Steps : (over_unix : Bool) (b : Broker) → Steps e b (connect over_unix b)
  unfolding connect
  connect-Steps over_unix b =
      if-case (Steps e b) (takes_connections b.state)
        (λ _. then_frame e done (refl, refl, (refl, refl))) (λ _. done)

  reject_hello-Steps : (n : ℕ) (text : String) (b : Broker) → Reached b (reject_hello e n text b)
  reject_hello-Steps n text b = then_send e n _ _ _ done

  open_session-Steps :
      (n : ℕ) (c : Connection) (client_id principal : String) (limit : ℕ) (b : Broker)
      → leb e.limits.max_connections_per_principal (principal_connections principal b) ≡ false
      → Steps e b (open_session n c client_id principal limit b)
  unfolding open_session
  open_session-Steps n c client_id principal limit b h =
      one (opens _ (record { outcomes = refl; bytes = refl; room = h }) refl refl (refl, refl))

  begin_session-Steps :
      (n : ℕ) (c : Connection) (hello : Fields) (principal : String) (b : Broker)
      → Reached b (begin_session e n c hello principal b)
  unfolding begin_session
  begin_session-Steps n c hello principal b =
      if-case (Reached b) (has (text_in (get "client_instance_id" hello)) b.client_sessions)
        (λ _. reject_hello-Steps n _ b)
        (λ _.
          if-case (Reached b)
            (leb e.limits.max_connections_per_principal (principal_connections principal b))
            (λ _. reject_hello-Steps n _ b)
            (λ h. then_send e n _ _ _ (open_session-Steps n c _ principal _ b h)))

  pub handshake-Steps :
      (n : ℕ) (c : Connection) (hello : Fields) (b : Broker) → Reached b (handshake e n c hello b)
  unfolding handshake
  handshake-Steps n c hello b =
      result-case (Reached b) (validate_hello hello) (λ _ _. done)
        (λ _ _.
          option-case (Reached b) (refusal e.limits e.identity hello)
            (λ _.
              option-case (Reached b) (principal_of e.identity n c.over_unix hello)
                (λ _. reject_hello-Steps n _ b)
                (λ principal _. begin_session-Steps n c hello principal b))
            (λ text _. reject_hello-Steps n text b))

  pub first_message-Steps :
      (n : ℕ) (c : Connection) (m : Message) (b : Broker) → Reached b (first_message e n c m b)
  unfolding first_message
  first_message-Steps n c m b =
      if-case (Reached b) _ (λ _. handshake-Steps n c m.control b) (λ _. done)

  pub told-Steps :
      (n : ℕ) (b : Broker) (x : Result (Unit {0}) × Broker) → Reached b x → Steps e b (told e n x)
  unfolding told
  told-Steps n b (ok _, c) p = p
  told-Steps n b (err x, c) p = then_send e n _ _ _ p

  abbrev Grouped : Broker → GroupCounts × Broker → Type 0
  Grouped b x = Steps e b x.1

  pub group_record-Steps :
      (n : ℕ) (control : Fields) (ref : ℕ) (r : Request) (state : RequestState) (k : GroupCounts)
      (b : Broker)
      → Grouped b (group_record e n control ref r state (k, b))
  unfolding group_record
  group_record-Steps n control ref r accepted_queued k b =
      end_queued-Steps e ref r cancelled _ _ b refl refl
  group_record-Steps n control ref r running k b =
      if-case (Grouped b) (truth (get "hard" control) && authorized e n "hard_cancel" control b)
        (λ _. end_running-Steps e ref r _ b) (λ _. done)
  group_record-Steps n control ref r _ k b = done

  pub group_records-Steps :
      (n : ℕ) (control : Fields) (refs : List ℕ) (start : Broker) (x : GroupCounts × Broker)
      → Grouped start x
      → Grouped start (group_records e n control refs x)
  unfolding group_records
  group_records-Steps n control [] start (k, b) p = p
  group_records-Steps n control (ref ∷ refs) start (k, b) p =
      group_records-Steps n control refs start _ (
        option-case (Grouped start) (lookup ref b.records) (λ _. p)
          (λ r _. p ⨟ group_record-Steps n control ref r r.state k b))

  end_group-Steps :
      (n : ℕ) (control : Fields) (refs : List ℕ) (b : Broker)
      → Grouped b (end_group e n control refs b)
  unfolding end_group
  end_group-Steps n control [] b = done
  end_group-Steps n control (ref ∷ refs) b = group_records-Steps n control (ref ∷ refs) b _ done

  pub cancel_group-Steps :
      (n : ℕ) (control : Fields) (b : Broker) → Steps e b (cancel_group e n control b)
  unfolding cancel_group
  cancel_group-Steps n control b =
      then_send e n _ _ _ (end_group-Steps n control (group_of n (get "group_id" control) b) b)

  mark_clean-Steps : (n : ℕ) (b : Broker) → Steps e b (mark_clean n b)
  mark_clean-Steps n b =
      option-case (Steps e b) (lookup n b.connections) (λ _. done)
        (λ c _. then_frame e done (refl, refl, (refl, refl)))

  close_session-Steps :
      (n : ℕ) (control : Fields) (b : Broker) → Reached b (close_session e n control b)
  unfolding close_session
  close_session-Steps n control b =
      option-case (Reached b) (session_of n b) (λ _. done)
        (λ (sid, s) _.
          if-case (Reached b) (all_terminal (values s.requests) b)
            (λ _. then_send e n _ _ _ (mark_clean-Steps n b)) (λ _. done))

  handle_kind-Steps :
      (n now : ℕ) (statistics : Json) (kind : MessageType) (m : Message) (b : Broker)
      → Reached b (handle_kind e n now statistics kind m b)
  unfolding handle_kind
  handle_kind-Steps n now statistics ping m b = then_send e n _ _ _ done
  handle_kind-Steps n now statistics submit_message m b = submit-Steps e n now m b
  handle_kind-Steps n now statistics cancel_request m b = cancel-Steps e n m.control b
  handle_kind-Steps n now statistics cancel_group_message m b = cancel_group-Steps n m.control b
  handle_kind-Steps n now statistics status_request m b = status-Steps e n m.control b
  handle_kind-Steps n now statistics stats_request m b = then_send e n _ _ _ done
  handle_kind-Steps n now statistics result_ack m b = acknowledge-Steps e n m.control b
  handle_kind-Steps n now statistics close_session_message m b = close_session-Steps n m.control b
  handle_kind-Steps n now statistics _ m b = done

  pub handle_message-Steps :
      (n now : ℕ) (statistics : Json) (m : Message) (b : Broker)
      → Reached b (handle_message e n now statistics m b)
  unfolding handle_message
  handle_message-Steps n now statistics m b = handle_kind-Steps n now statistics m.kind m b
