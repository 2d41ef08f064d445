-- ===== src/Client/Honesty/Runs.antt =====
-- Whatever happens to a client keeps it honest: a submission that is reported as not accepted was never
-- sent.
use deadpool.Base.{
  ℕ, ◌+◌, ◌<◌, ◌≡◌, ◌≢◌, refl, Bool, true, false, not, String, Option, none, some, List, [], ◌∷◌,
  arith, ◌||◌, any, if-case, option-case, is_some, Option-cases, List-cases, inl, inr,
}
use deadpool.Result.{Result, ok, err}
use deadpool.Dict.{lookup, insert, nat_key, text_key}
use deadpool.Dict.Laws.{lookup-insert}
use deadpool.Protocol.Frame.{submit as submit_message}
use deadpool.Protocol.Reader.{Message}
use deadpool.Protocol.Json.{Fields}
use deadpool.Broker.State.{same}
use deadpool.Errors.{make}
use deadpool.Future.{is_done, new, set_cancelled, add_done_callback}
use deadpool.Client.State.{
  Setup, Client, RequestFuture, Answer, accepts, runs, completes, rejects, fails, put_outbound,
  new_client,
}
use deadpool.Client.Completion.{id_of, loss_error}
use deadpool.Client.Threads.{
  fail_next, register, abandon, post, Reception, to_accept, to_run, to_complete, to_reject,
  to_answer, to_lose, to_drop, reception, answer, receive_for,
}
use deadpool.Client.Honesty.{
  is_unavailable, is_refusing, is_queued_for, is_reported, is_sent, IsHonest, Same-IsHonest,
  settling-IsHonest,
}
use deadpool.Client.Honesty.Methods.{
  LoadsFairly, set_cancelled-Fair, cancel-Fair, add_done_callback-Fair,
}
use deadpool.Client.Honesty.Steps.{
  Admissible, forget-IsHonest, put_outbound-IsHonest, schedule-IsHonest, lose-IsHonest,
  lane_step-IsHonest,
}
use deadpool.Client.Honesty.Sending.{sender_step-IsHonest}
use deadpool.Client.Calls.{
  Event, registers, posts, sends, receives, works, loses, looks_at_next, adds_callback, cancels,
  asks_cancel, concludes_cancel, stops_waiting, closes, finishes, asked, says, response_of,
  Decision, cancel_message, ask_cancel, conclude_cancel, finish_shutdown, registered, handle, run,
}

module _ {V : Type 0} (e : Setup V) where
  rest-failing :
      (ref : ℕ) (rest : List ℕ) (c : Client V)
      → c.failing ≡ ref ∷ rest
      → IsHonest c
      → IsHonest (record c { failing = rest })
  rest-failing ref rest c h v = record {
    lost = λ k. v.lost (ground (arith, h));
    new_ref = v.new_ref;
    new_touched = v.new_touched;
    new_queued = v.new_queued;
    started = v.started;
    honest = v.honest;
  }

  -- A lost request is reported as not accepted only where its future says that it was not sent.
  loss-Admissible :
      (ref : ℕ) (f : RequestFuture V) (rest : List ℕ) (c : Client V)
      → lookup ref c.table ≡ some f
      → c.failing ≡ ref ∷ rest
      → IsHonest c
      → Admissible e
          (fails ref (loss_error f.submission_state f.request_id))
          (record c { failing = rest })
  unfolding loss_error is_unavailable make
  loss-Admissible ref f rest c k h v = λ u. ground (arith, u, k, h, v.lost, v.started ref)

  fail_next-IsHonest : LoadsFairly e → (c : Client V) → IsHonest c → IsHonest (fail_next e c)
  unfolding fail_next
  fail_next-IsHonest fair c v = elim (List-cases c.failing) [
    | inl h ↦ rw (h, fail_next) v
    | inr (ref, rest, h) ↦
        let w = rest-failing ref rest c h v in
        rw (h, fail_next)
          (option-case IsHonest (lookup ref c.table) (λ _. w)
            (λ f k.
              if-case IsHonest (is_done f || any (same f.request_id) c.terminal_received) (λ _. w)
                (λ _. schedule-IsHonest e fair _ _ (loss-Admissible ref f rest c k h v) w)))
  ]

  -- A new request: no error of a client that is connected says that a request was not accepted.
  entered-IsHonest :
      (id : String) (futures : List (String × ℕ)) (c : Client V)
      → c.connected ≡ true
      → IsHonest c
      → IsHonest (record c {
        sequence = c.sequence + 1;
        futures = futures;
        table = insert (c.sequence + 1) (new id c.pid) c.table;
      })
  unfolding new
  entered-IsHonest id futures c on v =
      let n = c.sequence + 1 in
      record {
        lost = v.lost;
        new_ref = λ r h. ground (arith, h, v.new_ref r, lookup-insert n r (new id c.pid) c.table);
        new_touched = λ r h. v.new_touched r (omega arith);
        new_queued = λ r h. v.new_queued r (omega arith);
        started = λ r h.
            ground
              (arith, h, v.started r, v.new_touched n, lookup-insert n r (new id c.pid) c.table);
        honest = λ r h.
            ground
              (arith, h, on, v.honest r, v.new_ref n, lookup-insert n r (new id c.pid) c.table);
      }

  registered-IsHonest : (c : Client V) → IsHonest c → IsHonest (registered c e)
  unfolding register
  registered-IsHonest c v =
      let P : Result (ℕ × Client V) → Type 0 =
        λ r. IsHonest (elim r [ err x ↦ c | ok (ref, c') ↦ c' ]) in
      if-case P c.closed (λ _. v)
        (λ _.
          if-case P (c.transport_failed || not c.connected) (λ _. v)
            (λ h. entered-IsHonest _ _ c (ground (arith, h)) v))

  abandon-IsHonest : (ref : ℕ) (c : Client V) → IsHonest c → IsHonest (abandon ref c)
  unfolding abandon
  abandon-IsHonest ref c v = Same-IsHonest _ _ refl (forget-IsHonest e ref c v)

  -- A request that is registered is none of those to come.
  registered-old :
      (ref r : ℕ) (m : Message) (c : Client V)
      → lookup ref c.table ≢ none
      → IsHonest c
      → c.sequence < r
      → is_queued_for r (some (some ref, m)) ≡ false
  registered-old ref r m c there v h = ground (arith, h, v.new_ref ref, there)

  post-IsHonest :
      (ref : ℕ) (control : Fields) (payload : List ℕ) (late : Bool) (c : Client V)
      → lookup ref c.table ≢ none
      → IsHonest c
      → IsHonest (post e ref control payload late c).1
  unfolding post
  post-IsHonest ref control payload late c there v =
      let P : Result ℕ × Client V → Type 0 = λ r. IsHonest r.1 in
      let m : Message = record { kind = submit_message; control = control; payload = payload } in
      if-case P (not (e.validate_control control)) (λ _. abandon-IsHonest ref c v)
        (λ _.
          if-case P late (λ _. abandon-IsHonest ref c v)
            (λ _.
              option-case P (put_outbound e.limits _ c) (λ _. abandon-IsHonest ref c v)
                (λ c' h.
                  put_outbound-IsHonest e _ c c' (λ r. registered-old ref r m c there v) h v)))

  answer-IsHonest :
      (token : Option String) (control : Fields) (c : Client V)
      → IsHonest c
      → IsHonest (answer token control c)
  unfolding answer
  answer-IsHonest none control c v = v
  answer-IsHonest (some token) control c v =
      if-case IsHonest (any (same token) c.rpc) (λ _. Same-IsHonest c _ refl v) (λ _. v)

  receive_for-IsHonest :
      LoadsFairly e
      → (r : Reception) (m : Message) (future : Option ℕ) (c : Client V) → IsHonest c
      → IsHonest (receive_for e r m future c)
  unfolding receive_for
  receive_for-IsHonest fair to_accept m (some ref) c v =
      schedule-IsHonest e fair (accepts ref) c tt v
  receive_for-IsHonest fair to_run m (some ref) c v = schedule-IsHonest e fair (runs ref _ _) c tt v
  receive_for-IsHonest fair to_complete m (some ref) c v =
      let c' = record c { terminal_received = id_of ref c ∷ c.terminal_received } in
      schedule-IsHonest e fair (completes ref m) c' tt (Same-IsHonest c c' refl v)
  receive_for-IsHonest fair to_reject m (some ref) c v =
      schedule-IsHonest e fair (rejects ref m.control) c tt v
  receive_for-IsHonest fair to_answer m (some ref) c v = answer-IsHonest _ _ c v
  receive_for-IsHonest fair to_answer m none c v = answer-IsHonest _ _ c v
  receive_for-IsHonest fair to_lose m (some ref) c v = lose-IsHonest e c v
  receive_for-IsHonest fair to_lose m none c v = lose-IsHonest e c v
  receive_for-IsHonest fair to_drop m (some ref) c v = v
  receive_for-IsHonest fair to_drop m none c v = v
  receive_for-IsHonest fair to_accept m none c v = v
  receive_for-IsHonest fair to_run m none c v = v
  receive_for-IsHonest fair to_complete m none c v = v
  receive_for-IsHonest fair to_reject m none c v = v

  ask_cancel-IsHonest :
      (ref : ℕ) (hard : Bool) (token : String) (c : Client V)
      → IsHonest c
      → IsHonest (asked (ask_cancel e ref hard token c) c)
  unfolding ask_cancel
  ask_cancel-IsHonest ref hard token c v =
      let P : Option (Client V) → Type 0 = λ r. IsHonest (asked r c) in
      let waiting = record c { rpc = token ∷ c.rpc } in
      let w : IsHonest waiting = Same-IsHonest c waiting refl v in
      if-case P c.connected
        (λ _.
          elim (Option-cases
            (put_outbound e.limits (some (none, cancel_message ref hard token c)) waiting)) [
              | inl h ↦ rw h v
              | inr (c', h) ↦ rw h (
                  put_outbound-IsHonest e (some (none, cancel_message ref hard token c)) waiting c'
                    (λ r _. refl) h w)
            ])
        (λ _. v)

  conclude_cancel-IsHonest :
      (ref : ℕ) (response : Option Answer) (c : Client V)
      → IsHonest c
      → IsHonest (conclude_cancel ref response c).1
  unfolding conclude_cancel
  conclude_cancel-IsHonest ref response c v =
      let P : Decision × Client V → Type 0 = λ r. IsHonest r.1 in
      if-case P (says "cancelled" (response_of response))
        (λ _. settling-IsHonest ref set_cancelled c (λ f _. set_cancelled-Fair ref c f) v)
        (λ _.
          if-case P (says "running" (response_of response)) (λ _. v)
            (λ _. if-case P (says "terminal" (response_of response)) (λ _. v) (λ _. v)))

  finish_shutdown-IsHonest : (c : Client V) → IsHonest c → IsHonest (finish_shutdown e c)
  unfolding finish_shutdown
  finish_shutdown-IsHonest c v = disconnected (asked (put_outbound e.limits none c) c) put
    where
      disconnected :
          (d : Client V) → IsHonest d → IsHonest (record d { connected = false; lane_open = false })
      disconnected d w = record {
        lost = λ _. refl;
        new_ref = w.new_ref;
        new_touched = w.new_touched;
        new_queued = w.new_queued;
        started = w.started;
        honest = λ r h. (refl, (w.honest r h).1);
      }

      put : IsHonest (asked (put_outbound e.limits none c) c)
      put = elim (Option-cases (put_outbound e.limits none c)) [
        | inl h ↦ rw h v
        | inr (c', h) ↦ rw h (put_outbound-IsHonest e none c c' (λ r _. refl) h v)
      ]

  handle-IsHonest :
      LoadsFairly e → (event : Event) (c : Client V) → IsHonest c → IsHonest (handle e event c)
  unfolding handle
  handle-IsHonest fair registers c v = registered-IsHonest c v
  handle-IsHonest fair (posts ref control payload late) c v =
      if-case IsHonest (is_some (lookup ref c.table))
        (λ h. post-IsHonest ref control payload late c (λ k. ground (arith, h, k)) v) (λ _. v)
  handle-IsHonest fair (sends fine) c v = sender_step-IsHonest e fine c.sender c refl v
  handle-IsHonest fair (receives m) c v = receive_for-IsHonest fair (reception m.kind) m _ c v
  handle-IsHonest fair works c v = lane_step-IsHonest e fair c v
  handle-IsHonest fair loses c v = lose-IsHonest e c v
  handle-IsHonest fair looks_at_next c v = fail_next-IsHonest fair c v
  handle-IsHonest fair (adds_callback ref fn) c v =
      settling-IsHonest ref (add_done_callback fn) c (λ f _. add_done_callback-Fair ref c f fn) v
  handle-IsHonest fair (cancels ref) c v = settling-IsHonest ref _ c (λ f _. cancel-Fair ref c f) v
  handle-IsHonest fair (asks_cancel ref hard token) c v = ask_cancel-IsHonest ref hard token c v
  handle-IsHonest fair (concludes_cancel ref response) c v =
      conclude_cancel-IsHonest ref response c v
  handle-IsHonest fair (stops_waiting token) c v = Same-IsHonest c _ refl v
  handle-IsHonest fair closes c v = Same-IsHonest c _ refl v
  handle-IsHonest fair finishes c v = finish_shutdown-IsHonest c v

  run_from-IsHonest :
      LoadsFairly e → (vs : List Event) (c : Client V) → IsHonest c → IsHonest (run e vs c)
  unfolding run
  run_from-IsHonest fair [] c v = v
  run_from-IsHonest fair (event ∷ vs) c v =
      run_from-IsHonest fair vs (handle e event c) (handle-IsHonest fair event c v)

module _ {V : Type 0} (e : Setup V) where
  new_client-IsHonest : (client_id : String) (pid : ℕ) → IsHonest {V = V} (new_client client_id pid)
  unfolding new_client lookup is_refusing
  new_client-IsHonest client_id pid = record {
    lost = λ h. ground (arith, h);
    new_ref = λ r h. refl;
    new_touched = λ r h. refl;
    new_queued = λ r h. refl;
    started = λ r h. refl;
    honest = λ r h. ground (arith, h);
  }

  -- Whatever the application, the server and the socket do, and however the threads come in between each
  -- other: where the client ends a request with RemoteExecutorUnavailable, which says that it was not
  -- accepted and has not run, or is about to, its connection is gone and no part of the request was ever
  -- written to the socket. The serializer raises no such error of its own, and one that the task itself
  -- raised and that came back is not the client's.
  pub run-honest :
      LoadsFairly e
      → (vs : List Event) (client_id : String) (pid ref : ℕ)
      → is_reported ref (run e vs (new_client client_id pid)) ≡ true
      → ((run e vs (new_client client_id pid)).connected ≡ false)
        × (is_sent ref (run e vs (new_client client_id pid)) ≡ false)
  run-honest fair vs client_id pid ref h =
      (run_from-IsHonest e fair vs (new_client client_id pid)
          (new_client-IsHonest client_id pid)).honest
        ref h
