-- ===== src/Broker/State.antt =====
-- The state of `DeadpoolServer` in deadpool/remote/server.py. Sessions, requests and connections are
-- objects that several dicts share, so each has a number by which the others refer to it; `records`
-- and `sessions` hold every such object. Pids and times are numbers, a time of the monotonic clock.
use deadpool.Base.{
  ℕ, Bool, true, false, String, Option, none, some, List, [], ◌∷◌, ◌++◌, ltb, ◌&&◌, if◌then◌else◌,
  length, ite,
}
use deadpool.Dict.{lookup, insert, nat_key, text_key, text_eq}
use deadpool.Python.{ℤ}
use deadpool.Config.Limits.{Limits}
use deadpool.Protocol.Json.{Json, str, Fields, field}
use deadpool.Protocol.Frame.{MessageType}
use deadpool.Protocol.Reader.{Message}
use deadpool.Protocol.Receive.{dict_of}
use deadpool.Scheduler.{FairScheduler}
use deadpool.Broker.Identity.{Identity}

pub data ServerState : Type 0 where
  created starting serving draining stopping stopped : ServerState

pub data RequestState : Type 0 where
  accepted_queued running succeeded task_failed execution_timed_out : RequestState
  cancelled queue_timed_out worker_lost result_encoding_failed result_too_large : RequestState

-- state in _TERMINAL
abbrev pub is_terminal : RequestState → Bool
is_terminal accepted_queued = false
is_terminal running = false
is_terminal _ = true

-- the value of the enum, which is a text
abbrev pub state_name : RequestState → String
state_name accepted_queued = "ACCEPTED_QUEUED"
state_name running = "RUNNING"
state_name succeeded = "SUCCEEDED"
state_name task_failed = "TASK_FAILED"
state_name execution_timed_out = "EXECUTION_TIMED_OUT"
state_name cancelled = "CANCELLED"
state_name queue_timed_out = "QUEUE_TIMED_OUT"
state_name worker_lost = "WORKER_LOST"
state_name result_encoding_failed = "RESULT_ENCODING_FAILED"
state_name result_too_large = "RESULT_TOO_LARGE"

pub data Mode : Type 0 where
  callable : Mode
  registered : String → Mode

-- What the broker reads and writes of a `LocalFuture`.
pub record LocalFuture : Type 0 where
  pub pid : Option ℕ

-- `_Request`
pub record Request : Type 0 where
  pub request_id : String
  pub digest : String
  pub principal : String
  pub session_id : ℕ
  pub connection : ℕ
  pub mode : Mode
  pub payload : List ℕ
  pub priority : ℕ
  pub execution_timeout : Option Json
  pub queue_deadline : Option ℕ
  pub group_id : Option Json
  pub max_result_bytes : ℕ
  pub reserved_result_bytes : ℕ
  pub state : RequestState
  pub local_future : Option LocalFuture
  pub terminal_kind : Option MessageType
  pub terminal_payload : List ℕ
  pub terminal_control : Fields
  pub reservation_released : Bool

-- `_Session`; `registered_session` tells whether it is in the server's `_sessions`
pub record Session : Type 0 where
  pub client_id : String
  pub principal : String
  pub connection : ℕ
  pub max_result_bytes : ℕ
  pub watermark : ℕ
  pub reserved_outcomes : ℕ
  pub reserved_outcome_bytes : ℕ
  pub requests : List (String × ℕ)
  pub registered_session : Bool

-- `_ServerConnection`, with its outbound queue; an empty place there is the `None` that ends the
-- writer
pub record Connection : Type 0 where
  pub over_unix : Bool
  pub session : Option ℕ
  pub closed : Bool
  pub clean_close : Bool
  pub outbound : List (Option Message)

pub data DisconnectPolicy : Type 0 where
  cancel_queued continue_running terminate : DisconnectPolicy

-- What the server is set up with. `own_principal` is the principal of the server's own uid, `ticks`
-- the duration of a validated timeout on the clock, `whole` the `int(...)` of a validated priority,
-- `parse_int` Python's `int` of a text, `worker_id` the text that names a worker by its pid, and `dumps`
-- the bytes of `json.dumps`.
pub record Setup : Type 0 where
  pub limits : Limits
  pub identity : Identity
  pub task_registry : List String
  pub authorizer : Option (String → String → Fields → Bool)
  pub own_principal : String
  pub disconnect_policy : DisconnectPolicy
  pub sha256 : List ℕ → String
  pub ticks : Json → ℕ
  pub whole : Json → ℕ
  pub parse_int : String → Option ℤ
  pub worker_id : ℕ → String
  pub dumps : Json → List ℕ

pub record Statistics : Type 0 where
  pub tasks_received : ℕ
  pub tasks_accepted : ℕ
  pub tasks_rejected : ℕ
  pub tasks_running : ℕ
  pub tasks_terminal : ℕ

-- `DeadpoolServer`. `cancels` and `kills` are the requests whose local future was asked to cancel, and
-- to cancel and kill, latest first.
pub record Broker : Type 0 where
  pub state : ServerState
  pub connections : List (ℕ × Connection)
  pub sessions : List (ℕ × Session)
  pub client_sessions : List (String × ℕ)
  pub records : List (ℕ × Request)
  pub requests : List (String × ℕ)
  pub reserved_outcomes : ℕ
  pub reserved_outcome_bytes : ℕ
  pub scheduler : FairScheduler ℕ
  pub staged : ℕ
  pub statistics : Statistics
  pub cancels : List ℕ
  pub kills : List ℕ

abbrev pub same : String → String → Bool
same s t = ite (text_eq s t) true false

-- control.get(name)
abbrev pub get : String → Fields → Option Json
get name control = lookup name (dict_of control)

-- `_ServerConnection.close`: the queue takes the `None` where it has room
unfoldable pub close : Limits → Connection → Connection
close l c = if c.closed then c else record c {
  closed = true;
  outbound =
      if ltb (length c.outbound) l.outbound_queue_size then c.outbound ++ none ∷ [] else c.outbound;
}

-- `_ServerConnection.send`: the messages leave in the order in which they are put
unfoldable pub send : Limits → Message → Connection → Connection
unfolding close
send l m c =
    if c.closed
    then c
    else if ltb (length c.outbound) l.outbound_queue_size
    then record c { outbound = c.outbound ++ some m ∷ [] }
    else close l c

-- connection.send(kind, control, payload)
unfoldable pub send_to : Setup → ℕ → MessageType → Fields → List ℕ → Broker → Broker
unfolding send
send_to e n kind control payload b = elim (lookup n b.connections) [
  | none ↦ b
  | some c ↦ record b {
    connections =
        insert n (send e.limits (record { kind = kind; control = control; payload = payload }) c)
          b.connections;
  }
]

-- the connection is closed
abbrev pub is_closed : ℕ → Broker → Bool
is_closed n b = elim (lookup n b.connections) [ none ↦ true | some c ↦ c.closed ]

-- connection.session, the session's number and the session
unfoldable pub session_of : ℕ → Broker → Option (ℕ × Session)
session_of n b = elim (lookup n b.connections) [
  | none ↦ none
  | some c ↦ elim c.session [
    | none ↦ none
    | some sid ↦ elim (lookup sid b.sessions) [ none ↦ none | some s ↦ some (sid, s) ]
  ]
]

-- {"request_id": request_id, **control}
abbrev pub with_id : String → Fields → Fields
with_id request_id control = field "request_id" (str request_id) control

-- `_authorized`
unfoldable pub authorized : Setup → ℕ → String → Fields → Broker → Bool
unfolding session_of
authorized e n operation metadata b = elim (session_of n b) [
  | none ↦ false
  | some (sid, s) ↦ elim e.authorizer [
    | none ↦
        elim (lookup n b.connections) [ none ↦ false | some c ↦ c.over_unix ]
        && same s.principal e.own_principal
    | some f ↦ f s.principal operation metadata
  ]
]

-- `_owned_request`
unfoldable pub owned_request : ℕ → Option Json → Broker → Option ℕ
unfolding session_of
owned_request n (some (str request_id)) b = elim (session_of n b) [
  | none ↦ none
  | some (sid, s) ↦ lookup request_id s.requests
]
owned_request n _ b = none
