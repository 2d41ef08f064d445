-- ===== src/Client/Threads.antt =====
-- The threads of deadpool/remote/client.py: the completion lane, the sender, the receiver, and the part
-- of `_connection_lost` that looks at the futures one by one. A step is what one thread does between
-- two points at which another may come in.
use deadpool.Base.{
  ℕ, ◌+◌, Bool, not, String, Option, none, some, List, [], ◌∷◌, ◌++◌, if◌then◌else◌, any, ◌||◌,
}
use deadpool.Result.{Result, ok, err, Error, runtime_error, unavailable, submission_timeout}
use deadpool.Dict.{lookup, insert, nat_key, text_key}
use deadpool.Collections.{discard}
use deadpool.Protocol.Json.{Json, str, Fields}
use deadpool.Protocol.Frame.{
  MessageType, submit as submit_message, accepted, running, result, task_error, timed_out,
  cancelled, worker_lost, result_encoding_failed, result_too_large, queue_timed_out, rejected,
  cancel_response, cancel_group_response, status_response, stats_response, pong,
  close_session_response, goaway, protocol_error, handshake_rejected,
}
use deadpool.Protocol.Reader.{Message}
use deadpool.Broker.State.{same, get}
use deadpool.Broker.Cancel.{truth}
use deadpool.Future.{is_done, new, set_sent, set_accepted, set_running}
use deadpool.Client.State.{
  Setup, Client, Task, accepts, runs, completes, rejects, fails, Sender, idle, marked, ready,
  stopped, reply, on_future, forget, put_outbound, request_id_of,
}
use deadpool.Client.Completion.{complete, reject, fail_and_forget, lose, loss_error, id_of}

-- What `_receive` does with a message, by its type.
pub data Reception : Type 0 where
  to_accept to_run to_complete to_reject to_answer to_lose to_drop : Reception

unfoldable pub reception : MessageType → Reception
reception accepted = to_accept
reception running = to_run
reception result = to_complete
reception task_error = to_complete
reception timed_out = to_complete
reception cancelled = to_complete
reception worker_lost = to_complete
reception result_encoding_failed = to_complete
reception result_too_large = to_complete
reception queue_timed_out = to_complete
reception rejected = to_reject
reception cancel_response = to_answer
reception cancel_group_response = to_answer
reception status_response = to_answer
reception stats_response = to_answer
reception pong = to_answer
reception close_session_response = to_answer
reception goaway = to_lose
reception protocol_error = to_lose
reception handshake_rejected = to_lose
reception _ = to_drop

abbrev text_of : Option Json → Option String
text_of (some (str s)) = some s
text_of _ = none

-- message.control.get("token") or message.control.get("nonce"), where that is a text
unfoldable pub token_of : Fields → Option String
token_of control =
    text_of (if truth (get "token" control) then get "token" control else get "nonce" control)

module _ {V : Type 0} where
  -- `_run_bounded` on the completion lane
  unfoldable pub perform : Setup V → Task → Client V → Client V
  unfolding on_future complete reject fail_and_forget
  perform e (accepts ref) c = on_future ref set_accepted c
  perform e (runs ref pid worker_id) c = on_future ref (set_running pid worker_id) c
  perform e (completes ref m) c = complete e ref m c
  perform e (rejects ref control) c = reject ref control c
  perform e (fails ref x) c = fail_and_forget ref x c

  -- `_schedule_completion`: where the executor is shut down the caller does the work
  unfoldable pub schedule : Setup V → Task → Client V → Client V
  unfolding perform
  schedule e t c = if c.lane_open then record c { lane = c.lane ++ t ∷ [] } else perform e t c

  -- the completion lane takes its next work
  unfoldable pub lane_step : Setup V → Client V → Client V
  unfolding perform
  lane_step e c = elim c.lane [ [] ↦ c | t ∷ rest ↦ perform e t (record c { lane = rest }) ]

  -- the loop of `_connection_lost` over the futures: the next one
  unfoldable pub fail_next : Setup V → Client V → Client V
  unfolding schedule loss_error
  fail_next e c = elim c.failing [
    | [] ↦ c
    | ref ∷ rest ↦
        let c' = record c { failing = rest } in
        elim (lookup ref c.table) [
          | none ↦ c'
          | some f ↦
              if is_done f || any (same f.request_id) c.terminal_received
              then c'
              else schedule e (fails ref (loss_error f.submission_state f.request_id)) c'
        ]
  ]

  -- the locked part of `_submit`: the request's number
  unfoldable pub register : Setup V → Client V → Result (ℕ × Client V)
  register e c =
      if c.closed
      then err runtime_error
      else if c.transport_failed || not c.connected
      then err unavailable
      else let ref = c.sequence + 1 in
        let id = request_id_of e c.client_id ref in
        ok (
          ref,
          record c {
            sequence = ref;
            futures = insert id ref c.futures;
            table = insert ref (new id c.pid) c.table;
          },
        )

  -- self._futures.pop(request_id, None), where the submission raises
  unfoldable pub abandon : ℕ → Client V → Client V
  unfolding forget
  abandon ref c = record (forget ref c) { abandoned = ref ∷ c.abandoned }

  -- the rest of `_submit`: the control is validated, the deadline looked at, and the message queued
  unfoldable pub post : Setup V → ℕ → Fields → List ℕ → Bool → Client V → Result ℕ × Client V
  unfolding abandon put_outbound
  post e ref control payload late c =
      let m : Message = record { kind = submit_message; control = control; payload = payload } in
      if not (e.validate_control control)
      then (err Error.remote_protocol_error, abandon ref c)
      else if late
      then (err submission_timeout, abandon ref c)
      else elim (put_outbound e.limits (some (some ref, m)) c) [
        | none ↦ (err submission_timeout, abandon ref c)
        | some c' ↦ (ok ref, c')
      ]

  -- `_sender_loop`: the next item; a future that is done already is not sent
  unfoldable pub sender_take : Client V → Client V
  unfolding forget
  sender_take c = elim c.outbound [
    | [] ↦ c
    | none ∷ rest ↦ record c { outbound = rest; sender = stopped }
    | some (none, m) ∷ rest ↦ record c { outbound = rest; sender = marked none m }
    | some (some ref, m) ∷ rest ↦ elim (lookup ref c.table) [
      | none ↦ record c { outbound = rest; sender = marked (some ref) m }
      | some f ↦
          if (set_sent f).0
          then record c {
            outbound = rest;
            table = insert ref (set_sent f).1 c.table;
            sender = marked (some ref) m;
          }
          else forget ref (record c { outbound = rest })
    ]
  ]

  -- it reads the socket, and then writes the message; `fine` tells whether the writing succeeds
  unfoldable pub sender_step : Bool → Sender → Client V → Client V
  unfolding sender_take lose
  sender_step fine idle c = sender_take c
  sender_step fine (marked ref m) c =
      if c.connected
      then record c { sender = ready ref m }
      else record (lose c) { sender = stopped }
  sender_step fine (ready ref m) c =
      if fine
      then record c { sender = idle; sent = (ref, m) ∷ c.sent }
      else record (lose c) { sender = stopped; sent = (ref, m) ∷ c.sent }
  sender_step fine stopped c = c

  -- the answer to a waiting call
  unfoldable pub answer : Option String → Fields → Client V → Client V
  answer none control c = c
  answer (some token) control c =
      if any (same token) c.rpc
      then record c { rpc = discard token c.rpc; answers = (token, reply control) ∷ c.answers }
      else c

  -- the branches of `_receive` for a message and the future of its request
  unfoldable pub receive_for : Setup V → Reception → Message → Option ℕ → Client V → Client V
  unfolding schedule answer token_of lose
  receive_for e to_accept m (some ref) c = schedule e (accepts ref) c
  receive_for e to_run m (some ref) c =
      schedule e (runs ref (get "pid" m.control) (get "worker_id" m.control)) c
  receive_for e to_complete m (some ref) c =
      schedule e (completes ref m)
        (record c { terminal_received = id_of ref c ∷ c.terminal_received })
  receive_for e to_reject m (some ref) c = schedule e (rejects ref m.control) c
  receive_for e to_answer m future c = answer (token_of m.control) m.control c
  receive_for e to_lose m future c = lose c
  receive_for e _ m _ c = c

  abbrev future_of : Option Json → Client V → Option ℕ
  future_of (some (str id)) c = lookup id c.futures
  future_of _ c = none

  -- `_receive`
  unfoldable pub receive : Setup V → Message → Client V → Client V
  unfolding receive_for reception
  receive e m c = receive_for e (reception m.kind) m (future_of (get "request_id" m.control) c) c
