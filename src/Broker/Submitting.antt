-- ===== src/Broker/Submitting.antt =====
-- A submission as a sequence of steps.
use deadpool.Base.{
  ℕ, ◌≡◌, refl, true, false, not, String, Option, none, some, if-case, option-case, arith,
}
use deadpool.Result.{Result, ok, err, result-case, >>=-eq-ok}
use deadpool.Python.{ℤ, pos, negsuc, above, to_nat}
use deadpool.Dict.{lookup, nat_key, text_key}
use deadpool.Dict.Laws.{lookup-insert_self}
use deadpool.Protocol.Reader.{Message}
use deadpool.Broker.State.{
  Broker, Request, Session, Setup, RequestState, accepted_queued, running, Mode, same, session_of,
  get,
}
use deadpool.Broker.Requests.{send_record, resend}
use deadpool.Broker.Step.{Steps, update, reserve, done, one, ◌⨟◌}
use deadpool.Broker.Handlers.{then_send, then_frame}
use deadpool.Broker.Submit.{
  over_quota, reject, admit, request_of, accept_request, submit_admitted, submit_new,
  with_watermark, submit_sequenced, check_submission, with_received, submit, finite_nonnegative,
  optional_finite_nonnegative, with_default,
}

module _ (e : Setup) where
  resend-Steps : (state : RequestState) (r : Request) (b : Broker) → Steps e b (resend e state r b)
  unfolding resend
  resend-Steps accepted_queued r b = then_send e _ _ _ _ done
  resend-Steps running r b = then_send e _ _ _ _ done
  resend-Steps _ r b =
      option-case (Steps e b) r.terminal_kind (λ _. done) (λ kind _. then_send e _ _ _ _ done)

  send_record-Steps : (ref : ℕ) (b : Broker) → Steps e b (send_record e ref b)
  unfolding send_record
  send_record-Steps ref b =
      option-case (Steps e b) (lookup ref b.records) (λ _. done) (λ r _. resend-Steps r.state r b)

  reject-Steps :
      (n : ℕ) (request_id text : String) (b : Broker) → Steps e b (reject e n request_id text b)
  unfolding reject
  reject-Steps n request_id text b =
      then_send e _ _ _ _ (then_frame e done (refl, refl, (refl, refl)))

  -- What an admission and a request say of the quota and of the reservation.
  admit-quota :
      (n : ℕ) (s : Session) (m : Message) (b : Broker) (mode : Mode) (text : String)
      → admit e n s m b ≡ ok (some mode, text)
      → over_quota e.limits s b ≡ false
  unfolding admit
  admit-quota n s m b mode text h = ground arith

  -- A request that the parameters allow is open and reserves what the session may need.
  request_of-reservation :
      (n now sid : ℕ) (s : Session) (request_id : String) (mode : Mode) (m : Message) (r : Request)
      → request_of e n now sid s request_id mode m ≡ ok r
      → (r.session_id ≡ sid)
        × (r.reservation_released ≡ false)
        × (r.reserved_result_bytes ≡ s.max_result_bytes)
  unfolding request_of
  request_of-reservation n now sid s request_id mode m r h =
      let (p, _, h1) =
        >>=-eq-ok (finite_nonnegative (with_default (get "priority" m.control))) _ h in
      let (x, _, h2) =
        >>=-eq-ok (optional_finite_nonnegative (get "execution_timeout" m.control)) _ h1 in
      let (q, _, h3) =
        >>=-eq-ok (optional_finite_nonnegative (get "queue_timeout" m.control)) _ h2 in
      ground (arith, h3)

  accept_request-Steps :
      (n sid : ℕ) (s : Session) (r : Request) (b : Broker)
      → lookup sid b.sessions ≡ some s
      → over_quota e.limits s b ≡ false
      → (r.session_id ≡ sid)
        × (r.reservation_released ≡ false)
        × (r.reserved_result_bytes ≡ s.max_result_bytes)
      → Steps e b (accept_request e n sid s r b)
  unfolding accept_request
  accept_request-Steps n sid s r b eq quota h = then_send e _ _ _ _ (
      one (
        reserve sid s _ r eq
          (record {
            session_id = h.0;
            held = h.1;
            size = h.2;
            quota = quota;
            count = refl;
            bytes = refl;
            watermark = refl;
            stays = (refl, λ h. h);
            total_count = refl;
            total_bytes = refl;
          })
          refl refl))

  abbrev Reached : Broker → Result (Unit {0}) × Broker → Type 0
  Reached b x = Steps e b x.1

  submit_admitted-Steps :
      (n now sid : ℕ) (s : Session) (request_id : String) (m : Message) (b : Broker)
      (admitted : Result (Option Mode × String))
      → lookup sid b.sessions ≡ some s
      → admit e n s m b ≡ admitted
      → Steps e b (submit_admitted e n now sid s request_id m b admitted).1
  unfolding submit_admitted
  submit_admitted-Steps n now sid s request_id m b (err x) eq h = done
  submit_admitted-Steps n now sid s request_id m b (ok (none, text)) eq h =
      reject-Steps n request_id text b
  submit_admitted-Steps n now sid s request_id m b (ok (some mode, text)) eq h =
      result-case (Reached b) (request_of e n now sid s request_id mode m) (λ x _. done)
        (λ r hr.
          accept_request-Steps n sid s r b eq (admit-quota n s m b mode text h)
            (request_of-reservation n now sid s request_id mode m r hr))

  with_watermark-Steps :
      (sid : ℕ) (s : Session) (sequence : ℤ) (b : Broker)
      → lookup sid b.sessions ≡ some s
      → above sequence s.watermark ≡ true
      → Steps e b (with_watermark sid s sequence b)
  with_watermark-Steps sid s (pos n) b eq h =
      one (update sid s _ eq (refl, refl, ground arith, (refl, λ h. h)) refl refl (refl, refl))
  with_watermark-Steps sid s (negsuc n) b eq h = ground arith

  submit_sequenced-Steps :
      (n now sid : ℕ) (s : Session) (request_id : String) (sequence : ℤ) (m : Message) (b : Broker)
      → lookup sid b.sessions ≡ some s
      → Steps e b (submit_sequenced e n now sid s request_id sequence m b).1
  unfolding submit_sequenced submit_new
  submit_sequenced-Steps n now sid s request_id sequence m b eq =
      option-case (Reached b) (lookup request_id s.requests)
        (λ _.
          if-case (Reached b) (not (above sequence s.watermark))
            (λ _. reject-Steps n request_id "stale_request" b)
            (λ newer.
              with_watermark-Steps sid s sequence b eq (ground (arith, newer))
              ⨟ submit_admitted-Steps n now sid (record s { watermark = to_nat sequence })
                  request_id m (with_watermark sid s sequence b) _
                  (lookup-insert_self sid _ b.sessions) refl))
        (λ ref _.
          option-case (Reached b) (lookup ref b.records) (λ _. done)
            (λ r _.
              if-case (Reached b) (same r.digest (e.sha256 m.payload))
                (λ _. send_record-Steps ref b) (λ _. done)))

  session_of-lookup :
      (n sid : ℕ) (s : Session) (b : Broker)
      → session_of n b ≡ some (sid, s)
      → lookup sid b.sessions ≡ some s
  unfolding session_of
  session_of-lookup n sid s b h = ground arith

  pub submit-Steps : (n now : ℕ) (m : Message) (b : Broker) → Steps e b (submit e n now m b).1
  unfolding submit
  submit-Steps n now m b =
      option-case (Reached b) (session_of n b) (λ _. done)
        (λ (sid, s) eq.
          let received : Steps e b (with_received b) =
            then_frame e done (refl, refl, (refl, refl)) in
          result-case (Reached b) (check_submission e s m) (λ x _. received)
            (λ (request_id, sequence) _.
              received
              ⨟ submit_sequenced-Steps n now sid s request_id sequence m (with_received b)
                  (session_of-lookup n sid s b eq)))
