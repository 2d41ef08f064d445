-- ===== src/Broker/Requests.antt =====
-- The life of a request record in deadpool/remote/server.py: how it ends, and how its reservation
-- and its places in the dicts are given up.
use deadpool.Base.{
  ℕ, ◌+◌, ◌-◌, true, false, String, Option, none, some, List, [], ◌∷◌, if◌then◌else◌, ◌==◌,
}
use deadpool.Dict.{lookup, insert, delete, values, nat_key, text_key}
use deadpool.Protocol.Json.{Json, null, int, str, Fields, end, field}
use deadpool.Protocol.Frame.{MessageType, accepted, running as running_message}
use deadpool.Python.{pos}
use deadpool.Collections.{is_empty}
use deadpool.Broker.State.{
  Broker, Request, Session, Setup, RequestState, accepted_queued, running, is_terminal, state_name,
  send_to, with_id, LocalFuture,
}

-- The record is written back.
abbrev pub write : ℕ → Request → Broker → Broker
write ref r b = record b { records = insert ref r b.records }

-- `_terminal_locked`
unfoldable pub terminal_locked :
    Setup → ℕ → RequestState → MessageType → Fields → List ℕ → Broker → Broker
terminal_locked e ref state kind control payload b = elim (lookup ref b.records) [
  | none ↦ b
  | some r ↦
      if is_terminal r.state
      then b
      else send_to e r.connection kind (with_id r.request_id control) payload (record b {
        records =
            insert ref
              (record r {
                state = state;
                payload = [];
                terminal_kind = some kind;
                terminal_control = control;
                terminal_payload = payload;
              })
              b.records;
        statistics = record (b.statistics) { tasks_terminal = b.statistics.tasks_terminal + 1 };
      })
]

-- `_release_reservation_locked`
unfoldable pub release_reservation : ℕ → Session → ℕ → Request → Broker → Broker
release_reservation sid s ref r b = if r.reservation_released then b else record b {
  records = insert ref (record r { reservation_released = true }) b.records;
  sessions =
      insert sid
        (record s {
          reserved_outcomes = s.reserved_outcomes - 1;
          reserved_outcome_bytes = s.reserved_outcome_bytes - r.reserved_result_bytes;
        })
        b.sessions;
  reserved_outcomes = b.reserved_outcomes - 1;
  reserved_outcome_bytes = b.reserved_outcome_bytes - r.reserved_result_bytes;
}

-- record.payload = record.terminal_payload = b""
unfoldable pub clear_payloads : ℕ → Broker → Broker
clear_payloads ref b = elim (lookup ref b.records) [
  | none ↦ b
  | some r ↦ write ref (record r { payload = []; terminal_payload = [] }) b
]

-- session.requests.pop(request_id, None)
unfoldable pub forget_in_session : ℕ → String → Broker → Broker
forget_in_session sid request_id b = elim (lookup sid b.sessions) [
  | none ↦ b
  | some s ↦ record b {
    sessions = insert sid (record s { requests = delete request_id s.requests }) b.sessions;
  }
]

-- self._requests.pop(request_id, None)
unfoldable pub forget_globally : String → Broker → Broker
forget_globally request_id b = record b { requests = delete request_id b.requests }

-- the last four lines of `_remove_request_locked`
unfoldable pub forget_request : ℕ → ℕ → Request → Broker → Broker
unfolding clear_payloads forget_in_session forget_globally
forget_request sid ref r b =
    forget_globally r.request_id (forget_in_session sid r.request_id (clear_payloads ref b))

-- `_remove_request_locked`
unfoldable pub remove_request : ℕ → Broker → Broker
unfolding release_reservation forget_request
remove_request ref b = elim (lookup ref b.records) [
  | none ↦ b
  | some r ↦ elim (lookup r.session_id b.sessions) [
    | none ↦ b
    | some s ↦
        if s.registered_session
        then forget_request r.session_id ref r (release_reservation r.session_id s ref r b)
        else b
  ]
]

-- the loop of `_purge_session_locked` over the session's requests
unfoldable pub remove_terminal : List ℕ → Broker → Broker
unfolding remove_request
remove_terminal [] b = b
remove_terminal (ref ∷ refs) b = remove_terminal refs (elim (lookup ref b.records) [
  | none ↦ b
  | some r ↦ if is_terminal r.state then remove_request ref b else b
])

-- the end of `_purge_session_locked`: a session without requests is dropped, and its client's entry
-- where that is this session
unfoldable pub drop_session : ℕ → Broker → Broker
drop_session sid b = elim (lookup sid b.sessions) [
  | none ↦ b
  | some s ↦
      if is_empty s.requests
      then record b {
        sessions = insert sid (record s { registered_session = false }) b.sessions;
        client_sessions = elim (lookup s.client_id b.client_sessions) [
          | none ↦ b.client_sessions
          | some other ↦
              if other == sid then delete s.client_id b.client_sessions else b.client_sessions
        ];
      }
      else b
]

-- `_purge_session_locked`
unfoldable pub purge_session : ℕ → Broker → Broker
unfolding remove_terminal drop_session
purge_session sid b = elim (lookup sid b.sessions) [
  | none ↦ b
  | some s ↦ drop_session sid (remove_terminal (values s.requests) b)
]

-- record.local_future.pid if record.local_future else None
abbrev pid_of : Option LocalFuture → Json
pid_of none = null
pid_of (some f) = elim f.pid [ none ↦ null | some pid ↦ int (pos pid) ]

-- the branches of `_send_record`
unfoldable pub resend : Setup → RequestState → Request → Broker → Broker
resend e accepted_queued r b =
    send_to e r.connection accepted
      (with_id r.request_id (field "state" (str (state_name r.state)) end)) [] b
resend e running r b =
    send_to e r.connection running_message
      (with_id r.request_id (field "pid" (pid_of r.local_future) (field "worker_id" null end))) [] b
resend e _ r b = elim r.terminal_kind [
  | none ↦ b
  | some kind ↦
      send_to e r.connection kind (with_id r.request_id r.terminal_control) r.terminal_payload b
]

-- `_send_record`
unfoldable pub send_record : Setup → ℕ → Broker → Broker
unfolding resend
send_record e ref b = elim (lookup ref b.records) [ none ↦ b | some r ↦ resend e r.state r b ]
