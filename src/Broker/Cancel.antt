-- ===== src/Broker/Cancel.antt =====
-- Cancellation in deadpool/remote/server.py: `_cancel`, `_cancel_group`, `_disconnect`, the expiry of
-- queued requests, and the cancellations of `_finish_shutdown`. The call that a local future makes
-- back when it is cancelled is an event of its own (Dispatch).
use deadpool.Base.{
  ℕ, zero, Bool, true, false, not, String, Option, none, some, List, [], ◌∷◌, if◌then◌else◌, ◌&&◌,
  leb, is_some,
}
use deadpool.Dict.{lookup, insert, values, nat_key, text_key}
use deadpool.Python.{pos, finite}
use deadpool.Protocol.Json.{
  Json, null, bool, int, float, str, arr, obj, nil, cons, Fields, end, field,
}
use deadpool.Protocol.Frame.{
  MessageType, cancel_response, status_response, cancelled as cancelled_message,
  queue_timed_out as queue_timed_out_message,
}
use deadpool.Scheduler.{remove_item}
use deadpool.Broker.State.{
  Broker, Request, Setup, RequestState, accepted_queued, running, cancelled, queue_timed_out,
  is_terminal, state_name, DisconnectPolicy, cancel_queued, continue_running, terminate, same, get,
  close, send_to, session_of, authorized, owned_request,
}
use deadpool.Broker.Requests.{terminal_locked, remove_request, purge_session}

abbrev reason : String → Fields
reason text = field "reason" (str text) end

-- local_future.cancel() and local_future.cancel_and_kill_if_running(), where there is one
abbrev cancel_local : ℕ → Request → Broker → Broker
cancel_local ref r b = if is_some r.local_future then record b { cancels = ref ∷ b.cancels } else b

abbrev kill_local : ℕ → Request → Broker → Broker
kill_local ref r b = if is_some r.local_future then record b { kills = ref ∷ b.kills } else b

abbrev unqueue : ℕ → Broker → Broker
unqueue ref b = record b { scheduler = (remove_item ref b.scheduler).1 }

-- A queued request leaves the scheduler and ends.
unfoldable pub end_queued :
    Setup → ℕ → Request → RequestState → MessageType → String → Broker → Broker
unfolding terminal_locked
end_queued e ref r state kind text b =
    cancel_local ref r (terminal_locked e ref state kind (reason text) [] (unqueue ref b))

-- A running request ends, and its worker is killed.
unfoldable pub end_running : Setup → ℕ → Request → String → Broker → Broker
unfolding terminal_locked
end_running e ref r text b =
    kill_local ref r (terminal_locked e ref cancelled cancelled_message (reason text) [] b)

-- bool(value)
abbrev pub truth : Option Json → Bool
truth none = false
truth (some null) = false
truth (some (bool b)) = b
truth (some (int (pos zero))) = false
truth (some (int n)) = true
truth (some (float (finite (pos zero) k))) = false
truth (some (float x)) = true
truth (some (str s)) = not (same s "")
truth (some (arr nil)) = false
truth (some (arr (cons x xs))) = true
truth (some (obj end)) = false
truth (some (obj (field k v fs))) = true

-- the branch of `_cancel` for a record: the response, and the state afterwards
unfoldable pub cancel_record :
    Setup → ℕ → Fields → ℕ → Request → RequestState → Broker → String × Broker
unfolding end_queued end_running
cancel_record e n control ref r accepted_queued b =
    ("cancelled", end_queued e ref r cancelled cancelled_message "cancelled" b)
cancel_record e n control ref r running b =
    if truth (get "hard" control) && authorized e n "hard_cancel" control b
    then ("cancelled", end_running e ref r "terminated" b)
    else ("running", b)
cancel_record e n control ref r _ b = ("terminal", b)

abbrev pub or_null : Option Json → Json
or_null none = null
or_null (some v) = v

-- `_cancel`
unfoldable pub cancel : Setup → ℕ → Fields → Broker → Broker
unfolding cancel_record owned_request
cancel e n control b =
    let answer : String × Broker = elim (owned_request n (get "request_id" control) b) [
      | none ↦ ("unknown", b)
      | some ref ↦ elim (lookup ref b.records) [
        | none ↦ ("unknown", b)
        | some r ↦ cancel_record e n control ref r r.state b
      ]
    ] in
    send_to e n cancel_response
      (field "request_id" (or_null (get "request_id" control))
        (field "response" (str answer.0) (field "token" (or_null (get "token" control)) end)))
      [] answer.1

-- the branches of `_disconnect` for a running record and for a record
unfoldable pub disconnect_running : Setup → DisconnectPolicy → ℕ → Request → Broker → Broker
unfolding end_running
disconnect_running e cancel_queued ref r b = b
disconnect_running e continue_running ref r b = b
disconnect_running e terminate ref r b =
    if is_some r.local_future then end_running e ref r "disconnected_terminate" b else b

unfoldable pub disconnect_record : Setup → ℕ → Request → RequestState → Broker → Broker
unfolding end_queued disconnect_running
disconnect_record e ref r accepted_queued b =
    end_queued e ref r cancelled cancelled_message "disconnected" b
disconnect_record e ref r running b = disconnect_running e e.disconnect_policy ref r b
disconnect_record e ref r _ b = b

unfoldable pub disconnect_records : Setup → List ℕ → Broker → Broker
unfolding disconnect_record
disconnect_records e [] b = b
disconnect_records e (ref ∷ refs) b =
    disconnect_records e refs
      (elim (lookup ref b.records) [ none ↦ b | some r ↦ disconnect_record e ref r r.state b ])

abbrev pub cancels_queued : DisconnectPolicy → Bool
cancels_queued cancel_queued = true
cancels_queued continue_running = false
cancels_queued terminate = true

-- connection.close()
abbrev pub close_connection : Setup → ℕ → Broker → Broker
close_connection e n b = elim (lookup n b.connections) [
  | none ↦ b
  | some c ↦ record b { connections = insert n (close e.limits c) b.connections }
]

abbrev pub is_clean : ℕ → Broker → Bool
is_clean n b = elim (lookup n b.connections) [ none ↦ false | some c ↦ c.clean_close ]

-- `_disconnect`, without the count of the connections
unfoldable pub disconnect : Setup → ℕ → Broker → Broker
unfolding session_of disconnect_records purge_session
disconnect e n b = elim (session_of n b) [
  | none ↦ close_connection e n b
  | some (sid, s) ↦ purge_session sid (
      if not (is_clean n b) && cancels_queued e.disconnect_policy
      then disconnect_records e (values s.requests) (close_connection e n b)
      else close_connection e n b)
]

-- now >= record.queue_deadline, where it has one
abbrev pub overdue : ℕ → Option ℕ → Bool
overdue now none = false
overdue now (some deadline) = leb deadline now

abbrev pub is_queued : RequestState → Bool
is_queued accepted_queued = true
is_queued _ = false

abbrev pub is_running : RequestState → Bool
is_running running = true
is_running _ = false

-- `_expire_queued_locked`, from values of `_requests`
unfoldable pub expire_queued : Setup → ℕ → List ℕ → Broker → Broker
unfolding end_queued
expire_queued e now [] b = b
expire_queued e now (ref ∷ refs) b = expire_queued e now refs (elim (lookup ref b.records) [
  | none ↦ b
  | some r ↦
      if is_queued r.state && overdue now r.queue_deadline
      then end_queued e ref r queue_timed_out queue_timed_out_message "queue_timeout" b
      else b
])

-- the two loops of `_finish_shutdown`, the first where the flag is false
unfoldable pub shutdown_records : Setup → Bool → String → List ℕ → Broker → Broker
unfolding end_queued end_running
shutdown_records e hard text [] b = b
shutdown_records e hard text (ref ∷ refs) b =
    shutdown_records e hard text refs (elim (lookup ref b.records) [
      | none ↦ b
      | some r ↦
          if is_queued r.state
          then end_queued e ref r cancelled cancelled_message text b
          else if hard && is_running r.state && is_some r.local_future
          then end_running e ref r text b
          else b
    ])

-- RESULT_ACK, in `_handle_message`
unfoldable pub acknowledge : ℕ → Fields → Broker → Broker
unfolding owned_request remove_request
acknowledge n control b = elim (owned_request n (get "request_id" control) b) [
  | none ↦ b
  | some ref ↦ elim (lookup ref b.records) [
    | none ↦ b
    | some r ↦ if is_terminal r.state then remove_request ref b else b
  ]
]

-- `_status`
unfoldable pub status : Setup → ℕ → Fields → Broker → Broker
unfolding owned_request
status e n control b =
    send_to e n status_response
      (field "request_id" (or_null (get "request_id" control)) (
        field "state"
          (str (elim (owned_request n (get "request_id" control) b) [
            | none ↦ "UNKNOWN"
            | some ref ↦ elim (lookup ref b.records) [
              | none ↦ "UNKNOWN"
              | some r ↦ state_name r.state
            ]
          ]))
          (field "token" (or_null (get "token" control)) end)))
      [] b
