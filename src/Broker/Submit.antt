-- ===== src/Broker/Submit.antt =====
-- `_submit` of deadpool/remote/server.py: the checks of a submission, and the reservation of its
-- outcome before it is accepted. A handler that raises leaves what it has changed before.
use Prim.Native.String.{String as Text, ◌++◌ as append}
use Prim.Native.Char.{code}
use text.Mathlib.Text.{starts_with}
use deadpool.Base.{
  ℕ, suc, ◌+◌, Bool, true, false, not, String, Option, none, some, List, [], ◌∷◌, if◌then◌else◌,
  ◌==◌, ◌||◌, ◌&&◌, leb, ltb, length, any,
}
use deadpool.Result.{
  Result, ok, err, remote_protocol_error, type_error, guard, or_raise, ◌>>=◌, ◌>>◌,
}
use deadpool.Python.{ℤ, pos, above, to_nat, negative, is_finite, float_negative}
use deadpool.Dict.{Dict, lookup, insert, values, nat_key, text_key}
use deadpool.Config.Limits.{Limits}
use deadpool.Protocol.Json.{Json, null, int, float, str, arr, obj, Fields, end, field}
use deadpool.Protocol.Frame.{accepted, rejected}
use deadpool.Protocol.Reader.{Message}
use deadpool.Scheduler.{put}
use deadpool.Broker.State.{
  Broker, Request, Session, Setup, ServerState, serving, accepted_queued, state_name, Mode,
  callable, registered, same, get, send_to, session_of, with_id, authorized,
}
use deadpool.Broker.Requests.{send_record}

-- Was a colon found, and the text behind the last one?
abbrev text_after : Text → Option Text
text_after Text.[] = none
text_after (Text.◌∷◌ c s) = elim (text_after s) [
  | some t ↦ some t
  | none ↦ if code c == b':' then some s else none
]

-- int(request_id.rsplit(":", 1)[1])
unfoldable pub sequence_of : Setup → Text → Result ℤ
sequence_of e request_id = or_raise (text_after request_id) remote_protocol_error >>= λ t.
    or_raise (e.parse_int t) remote_protocol_error

-- `_finite_nonnegative`, which gives back the value that it accepts
unfoldable pub finite_nonnegative : Json → Result Json
finite_nonnegative (int n) = guard (not (negative n)) remote_protocol_error >> ok (int n)
finite_nonnegative (float x) =
    guard (is_finite x && not (float_negative x)) remote_protocol_error >> ok (float x)
finite_nonnegative _ = err remote_protocol_error

-- `_optional_finite_nonnegative`, on control.get(...)
unfoldable pub optional_finite_nonnegative : Option Json → Result (Option Json)
unfolding finite_nonnegative
optional_finite_nonnegative none = ok none
optional_finite_nonnegative (some null) = ok none
optional_finite_nonnegative (some v) = finite_nonnegative v >>= λ x. ok (some x)

-- A list and an object have no hash, so a test of membership in a set or in a dict raises.
abbrev hashable : Json → Bool
hashable (arr xs) = false
hashable (obj fs) = false
hashable _ = true

-- operation in self.task_registry
abbrev in_registry : Setup → Option Json → Result (Option String)
in_registry e (some (str operation)) =
    ok (if any (λ t. same t operation) e.task_registry then some operation else none)
in_registry e none = ok none
in_registry e (some v) = guard (hashable v) type_error >> ok none

abbrev registered_mode : Option String → Option Mode × String
registered_mode none = (none, "unknown_operation")
registered_mode (some operation) = (some (registered operation), "")

-- `mode` and `operation`: the mode, or the reason of a rejection
unfoldable pub mode_of : Setup → Fields → Option Json → Result (Option Mode × String)
mode_of e control none = ok (none, "invalid_mode")
mode_of e control (some (str mode)) =
    if same mode "callable"
    then ok (some callable, "")
    else if same mode "registered"
    then (in_registry e (get "operation" control) >>= λ found. ok (registered_mode found))
    else ok (none, "invalid_mode")
mode_of e control (some v) = guard (hashable v) type_error >> ok (none, "invalid_mode")

abbrev action_of : Mode → String
action_of callable = "submit_callable"
action_of (registered operation) = append "submit_task:" operation

-- The requests of a principal among the records that a list of numbers names.
abbrev pub principal_records : String → Dict ℕ Request → List ℕ → ℕ
principal_records principal records [] = 0
principal_records principal records (ref ∷ refs) =
    let rest = principal_records principal records refs in
    elim (lookup ref records) [
      | none ↦ rest
      | some r ↦ if same r.principal principal then suc rest else rest
    ]

-- The condition under which a submission is refused as "queue_full".
unfoldable pub over_quota : Limits → Session → Broker → Bool
over_quota l s b =
    leb l.max_pending_per_session (length s.requests)
    || leb l.max_pending_per_principal (principal_records s.principal b.records (values b.requests))
    || leb l.max_pending_global (length b.requests)
    || leb l.max_retained_outcomes_per_session s.reserved_outcomes
    || leb l.max_retained_outcomes_global b.reserved_outcomes
    || ltb l.max_retained_outcome_bytes_per_session (s.reserved_outcome_bytes + s.max_result_bytes)
    || ltb l.max_retained_outcome_bytes_global (b.reserved_outcome_bytes + s.max_result_bytes)

abbrev is_serving : ServerState → Bool
is_serving serving = true
is_serving _ = false

-- `_reject`
unfoldable pub reject : Setup → ℕ → String → String → Broker → Broker
reject e n request_id reason b =
    send_to e n rejected (with_id request_id (field "reason" (str reason) end)) [] (record b {
      statistics = record (b.statistics) { tasks_rejected = b.statistics.tasks_rejected + 1 };
    })

-- The checks between the watermark and the parameters: a mode, or the reason of a rejection.
unfoldable pub admit : Setup → ℕ → Session → Message → Broker → Result (Option Mode × String)
unfolding over_quota mode_of
admit e n s m b =
    if not (is_serving b.state)
    then ok (none, "server_draining")
    else if over_quota e.limits s b
    then ok (none, "queue_full")
    else if ltb e.limits.max_invocation_bytes (length m.payload)
    then ok (none, "invocation_too_large")
    else mode_of e m.control (get "mode" m.control) >>= λ (mode, reason). ok (elim mode [
      | none ↦ (none, reason)
      | some mode ↦
          if authorized e n (action_of mode) m.control b
          then (some mode, "")
          else (none, "unauthorized")
    ])

abbrev pub with_default : Option Json → Json
with_default none = int (pos 0)
with_default (some v) = v

-- The record of an accepted submission, from its parameters.
unfoldable pub request_of : Setup → ℕ → ℕ → ℕ → Session → String → Mode → Message → Result Request
unfolding finite_nonnegative optional_finite_nonnegative
request_of e n now sid s request_id mode m =
    finite_nonnegative (with_default (get "priority" m.control)) >>= λ priority.
    optional_finite_nonnegative (get "execution_timeout" m.control) >>= λ execution_timeout.
    optional_finite_nonnegative (get "queue_timeout" m.control) >>= λ queue_timeout. ok (record {
      request_id = request_id;
      digest = e.sha256 m.payload;
      principal = s.principal;
      session_id = sid;
      connection = n;
      mode = mode;
      payload = m.payload;
      priority = e.whole priority;
      execution_timeout = execution_timeout;
      queue_deadline = elim queue_timeout [ none ↦ none | some t ↦ some (now + e.ticks t) ];
      group_id = get "group_id" m.control;
      max_result_bytes = s.max_result_bytes;
      reserved_result_bytes = s.max_result_bytes;
      state = accepted_queued;
      local_future = none;
      terminal_kind = none;
      terminal_payload = [];
      terminal_control = end;
      reservation_released = false;
    })

-- The end of `_submit`: the record takes its places, reserves its outcome and is queued. Its number is
-- new, since no record is ever dropped from `records`.
unfoldable pub accept_request : Setup → ℕ → ℕ → Session → Request → Broker → Broker
unfolding send_to
accept_request e n sid s r b =
    let ref = length b.records in
    send_to e n accepted (with_id r.request_id (field "state" (str (state_name r.state)) end)) []
      (record b {
        records = insert ref r b.records;
        sessions =
            insert sid
              (record s {
                requests = insert r.request_id ref s.requests;
                reserved_outcomes = s.reserved_outcomes + 1;
                reserved_outcome_bytes = s.reserved_outcome_bytes + r.reserved_result_bytes;
              })
              b.sessions;
        requests = insert r.request_id ref b.requests;
        reserved_outcomes = b.reserved_outcomes + 1;
        reserved_outcome_bytes = b.reserved_outcome_bytes + r.reserved_result_bytes;
        scheduler = put ref r.priority r.principal b.scheduler;
        statistics = record (b.statistics) { tasks_accepted = b.statistics.tasks_accepted + 1 };
      })

-- `_submit` below the checks of admission
unfoldable pub submit_admitted :
    Setup
    → ℕ
    → ℕ
    → ℕ
    → Session
    → String
    → Message
    → Broker
    → Result (Option Mode × String)
    → Result (Unit {0}) × Broker
unfolding request_of reject accept_request
submit_admitted e n now sid s request_id m b (err x) = (err x, b)
submit_admitted e n now sid s request_id m b (ok (none, reason)) =
    (ok tt, reject e n request_id reason b)
submit_admitted e n now sid s request_id m b (ok (some mode, reason)) =
    elim (request_of e n now sid s request_id mode m) [
      | err x ↦ (err x, b)
      | ok r ↦ (ok tt, accept_request e n sid s r b)
    ]

-- `_submit` below the assignment of the watermark
unfoldable pub submit_new :
    Setup → ℕ → ℕ → ℕ → Session → String → Message → Broker → Result (Unit {0}) × Broker
unfolding admit submit_admitted
submit_new e n now sid s request_id m b =
    submit_admitted e n now sid s request_id m b (admit e n s m b)

abbrev pub with_watermark : ℕ → Session → ℤ → Broker → Broker
with_watermark sid s sequence b = record b {
  sessions = insert sid (record s { watermark = to_nat sequence }) b.sessions;
}

-- `_submit` under the lock: a request that is known is answered again
unfoldable pub submit_sequenced :
    Setup → ℕ → ℕ → ℕ → Session → String → ℤ → Message → Broker → Result (Unit {0}) × Broker
unfolding send_record submit_new reject
submit_sequenced e n now sid s request_id sequence m b = elim (lookup request_id s.requests) [
  | some ref ↦ elim (lookup ref b.records) [
    | none ↦ (ok tt, b)
    | some r ↦
        if same r.digest (e.sha256 m.payload)
        then (ok tt, send_record e ref b)
        else (err remote_protocol_error, b)
  ]
  | none ↦
      if not (above sequence s.watermark)
      then (ok tt, reject e n request_id "stale_request" b)
      else submit_new e n now sid (record s { watermark = to_nat sequence }) request_id m
          (with_watermark sid s sequence b)
]

abbrev owned_id : Session → Option Json → Result String
owned_id s (some (str request_id)) =
    guard (starts_with request_id (append s.client_id ":")) remote_protocol_error >> ok request_id
owned_id s _ = err remote_protocol_error

abbrev check_digest : Setup → Message → Option Json → Result (Unit {0})
check_digest e m (some (str digest)) =
    guard (same digest (e.sha256 m.payload)) remote_protocol_error
check_digest e m _ = err remote_protocol_error

-- the checks of `_submit` before it takes the lock
unfoldable pub check_submission : Setup → Session → Message → Result (String × ℤ)
unfolding sequence_of
check_submission e s m = owned_id s (get "request_id" m.control) >>= λ request_id.
    sequence_of e request_id >>= λ sequence.
    check_digest e m (get "digest" m.control) >>= λ _. ok (request_id, sequence)

abbrev pub with_received : Broker → Broker
with_received b = record b {
  statistics = record (b.statistics) { tasks_received = b.statistics.tasks_received + 1 };
}

unfoldable pub submit : Setup → ℕ → ℕ → Message → Broker → Result (Unit {0}) × Broker
unfolding session_of check_submission submit_sequenced
submit e n now m b = elim (session_of n b) [
  | none ↦ (err remote_protocol_error, b)
  | some (sid, s) ↦ elim (check_submission e s m) [
    | err x ↦ (err x, with_received b)
    | ok (request_id, sequence) ↦
        submit_sequenced e n now sid s request_id sequence m (with_received b)
  ]
]
