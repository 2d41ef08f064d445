-- ===== src/Client/Completion.antt =====
-- What ends a future in deadpool/remote/client.py: `_complete`, `_reject`, `_connection_lost` and
-- `_fail_and_forget`.
use deadpool.Base.{
  ℕ, Bool, true, false, String, Option, none, some, List, [], ◌++◌, if◌then◌else◌, map,
}
use deadpool.Dict.{lookup, values, nat_key, text_key}
use deadpool.Collections.{is_empty, discard}
use deadpool.Protocol.Json.{Json, str, Fields, end, field}
use deadpool.Protocol.Frame.{
  MessageType, result, task_error, timed_out as timed_out_message, cancelled, worker_lost,
  result_encoding_failed, result_too_large, queue_timed_out, result_ack,
}
use deadpool.Protocol.Reader.{Message}
use deadpool.Broker.State.{same, get}
use deadpool.Errors.{
  RemoteError, ErrorClass, remote_executor_error, executor_unavailable, queue_full,
  submission_outcome_unknown, queue_timeout, task_error as task_error_class, result_encoding_error,
  result_too_large as result_too_large_class, process_error, connection_lost, protocol_error,
  accepted, not_accepted, not_started, may_have_run, make, error_for,
}
use deadpool.Future.{
  SubmissionState, local_pending, sent_unacknowledged, set_result, set_exception, set_cancelled,
}
use deadpool.Client.State.{
  remote, timed_out, application, transport_error, Setup, Loaded, loaded, raises, raises_remote,
  Client, RequestFuture, settling, forget, put_outbound,
}

abbrev or_text : String → Option Json → Json
or_text text none = str text
or_text text (some v) = v

abbrev equals : String → Option Json → Bool
equals text (some (str s)) = same s text
equals text _ = false

-- the error of a rejection
unfoldable pub rejection : Fields → String → RemoteError
rejection control request_id =
    if equals "queue_full" (get "reason" control)
    then error_for queue_full request_id
    else if equals "queue_timeout" (get "reason" control)
    then error_for queue_timeout request_id
    else make remote_executor_error (some request_id) (some not_accepted) (some not_started)

-- the exception of `_connection_lost` for a future in a state
unfoldable pub loss_error : SubmissionState → String → RemoteError
loss_error local_pending request_id = error_for executor_unavailable request_id
loss_error sent_unacknowledged request_id = error_for submission_outcome_unknown request_id
loss_error _ request_id = make connection_lost (some request_id) (some accepted) (some may_have_run)

module _ {V : Type 0} where
  -- An exception of the library for the future's request.
  abbrev fail_with : ErrorClass → Bool → RequestFuture V → List ℕ × RequestFuture V
  fail_with class task f = set_exception (remote (error_for class f.request_id)) task f

  -- the RESULT branch of `_complete`, with the handler of its exceptions
  unfoldable pub complete_result : Loaded V → RequestFuture V → List ℕ × RequestFuture V
  complete_result (loaded v) f = set_result v f
  complete_result raises f = fail_with protocol_error false f
  complete_result (raises_remote x) f = set_exception (remote x) false f

  -- the TASK_ERROR branch: the exception that came back, where it is one. An exception of the task is
  -- kept apart from those that the client makes, also where it is of one of the library's classes.
  unfoldable pub complete_error :
      Setup V → Bool → Loaded V → RequestFuture V → List ℕ × RequestFuture V
  complete_error e false (loaded v) f =
      if e.is_exception v
      then set_exception (application v) true f
      else fail_with task_error_class true f
  complete_error e _ _ f = fail_with task_error_class true f

  -- the branches of `_complete`
  unfoldable pub completion :
      Setup V → MessageType → Message → RequestFuture V → List ℕ × RequestFuture V
  unfolding complete_result complete_error
  completion e result m f = complete_result (e.loads m.payload) f
  completion e task_error m f = complete_error e (is_empty m.payload) (e.loads m.payload) f
  completion e timed_out_message m f =
      set_exception (timed_out (or_text "remote task timed out" (get "message" m.control))) false f
  completion e cancelled m f = set_cancelled f
  completion e queue_timed_out m f = fail_with queue_timeout false f
  completion e worker_lost m f = fail_with process_error false f
  completion e result_encoding_failed m f = fail_with result_encoding_error false f
  completion e result_too_large m f = fail_with result_too_large_class false f
  completion e _ m f = ([], f)

  -- the locked part of `_connection_lost` and the answers to the waiting calls
  unfoldable pub lose : Client V → Client V
  lose c = if c.transport_failed then c else record c {
    transport_failed = true;
    connected = false;
    failing = c.failing ++ values c.futures;
    rpc = [];
    answers = map (λ token. (token, transport_error)) c.rpc ++ c.answers;
  }

  abbrev pub id_of : ℕ → Client V → String
  id_of ref c = elim (lookup ref c.table) [ none ↦ "" | some f ↦ f.request_id ]

  abbrev pub acknowledged : Option (Client V) → Client V → Client V
  acknowledged none c = lose c
  acknowledged (some c') c = c'

  -- the `finally` of `_complete`: the acknowledgement, or the loss of the connection where the queue is
  -- full, and the end of the request
  unfoldable pub conclude : Setup V → ℕ → Client V → Client V
  unfolding lose put_outbound forget
  conclude e ref c =
      let id = id_of ref c in
      let ack : Message = record {
        kind = result_ack;
        control = field "request_id" (str id) end;
        payload = [];
      } in
      let c' = forget ref (acknowledged (put_outbound e.limits (some (none, ack)) c) c) in
      record c' { terminal_received = discard id c'.terminal_received }

  -- `_complete`
  unfoldable pub complete : Setup V → ℕ → Message → Client V → Client V
  unfolding completion conclude settling
  complete e ref m c = conclude e ref (settling ref (completion e m.kind m) c)

  -- `_reject`
  unfoldable pub reject : ℕ → Fields → Client V → Client V
  unfolding rejection settling forget
  reject ref control c =
      forget ref
        (settling ref (λ f. set_exception (remote (rejection control f.request_id)) false f) c)

  -- `_fail_and_forget`
  unfoldable pub fail_and_forget : ℕ → RemoteError → Client V → Client V
  unfolding settling forget
  fail_and_forget ref x c = forget ref (settling ref (λ f. set_exception (remote x) false f) c)
