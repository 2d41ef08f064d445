-- ===== src/Broker/Dispatch.antt =====
-- `_dispatch_loop`, `_claim_dispatch` and `_complete_local` of deadpool/remote/server.py: a request's
-- way to a worker and back.
use deadpool.Base.{
  ℕ, ◌+◌, ◌-◌, Bool, true, false, not, String, Option, none, some, List, [], ◌∷◌, if◌then◌else◌,
  ◌||◌, ◌&&◌, leb, length,
}
use deadpool.Result.{ok, err}
use deadpool.Dict.{lookup, values, nat_key, text_key}
use deadpool.Python.{pos}
use deadpool.Protocol.Json.{int, str, Fields, end, field}
use deadpool.Protocol.Frame.{
  MessageType, result, task_error, result_encoding_failed as result_encoding_failed_message,
  result_too_large as result_too_large_message, timed_out, worker_lost as worker_lost_message,
  running as running_message, queue_timed_out as queue_timed_out_message,
}
use deadpool.Scheduler.{pop, put_front, is_true}
use deadpool.Broker.Descriptor.{fit_terminal_descriptor}
use deadpool.Broker.State.{
  Broker, Request, Setup, ServerState, serving, draining, stopping, stopped, RequestState, running,
  succeeded, task_failed, execution_timed_out, queue_timed_out, worker_lost, result_encoding_failed,
  result_too_large, is_terminal, LocalFuture, send_to, is_closed, with_id,
}
use deadpool.Broker.Requests.{write, terminal_locked, purge_session}
use deadpool.Broker.Cancel.{expire_queued, overdue, is_queued, is_running}

-- The state is RUNNING or DRAINING; it is STOPPING or STOPPED.
abbrev is_active : ServerState → Bool
is_active serving = true
is_active draining = true
is_active _ = false

abbrev pub is_over : ServerState → Bool
is_over stopping = true
is_over stopped = true
is_over _ = false

-- The loop waits while there is nothing to stage, or no room for it.
abbrev pub waits : Setup → Broker → Bool
waits e b =
    is_active b.state && (not (is_true b.scheduler) || leb e.limits.max_staged_tasks b.staged)

-- the record is staged: it gets a local future
unfoldable pub stage : ℕ → Request → Broker → Broker
stage ref r b = record (write ref (record r { local_future = some (record { pid = none }) }) b) {
  staged = b.staged + 1;
}

-- one turn of `_dispatch_loop` up to the local pool: the request that goes there
unfoldable pub take_staged : Setup → ℕ → Broker → Option ℕ × Broker
unfolding expire_queued pop stage
take_staged e now b₀ =
    let b = expire_queued e now (values b₀.requests) b₀ in
    if waits e b || is_over b.state then (none, b) else elim (pop b.scheduler) [
      | err x ↦ (none, b)
      | ok (ref, scheduler) ↦ elim (lookup ref b.records) [
        | none ↦ (none, record b { scheduler = scheduler })
        | some r ↦
            if is_queued r.state
            then (some ref, stage ref r (record b { scheduler = scheduler }))
            else (none, record b { scheduler = scheduler })
      ]
    ]

-- the local pool was full
unfoldable pub restore : ℕ → Broker → Broker
restore ref b = elim (lookup ref b.records) [
  | none ↦ b
  | some r ↦ record (write ref (record r { local_future = none }) b) {
    staged = b.staged - 1;
    scheduler =
        if is_queued r.state then put_front ref r.priority r.principal b.scheduler else b.scheduler;
  }
]

-- the local pool took the request: its bytes are dropped here
unfoldable pub handed_over : ℕ → Broker → Broker
handed_over ref b = elim (lookup ref b.records) [
  | none ↦ b
  | some r ↦ write ref (record r { payload = [] }) b
]

abbrev pub with_pid : ℕ → Option LocalFuture → Option LocalFuture
with_pid pid none = none
with_pid pid (some f) = some (record { pid = some pid })

-- the end of `_claim_dispatch`: the pid is published; `r` is the running record
unfoldable pub publish : Setup → ℕ → ℕ → Request → Broker → Broker
publish e ref pid r b =
    send_to e r.connection running_message
      (with_id r.request_id
        (field "pid" (int (pos pid)) (field "worker_id" (str (e.worker_id pid)) end)))
      [] (write ref (record r { local_future = with_pid pid r.local_future }) b)

abbrev pub cancelled_local : ℕ → Request → Broker → Broker
cancelled_local ref r b = elim r.local_future [
  | none ↦ b
  | some f ↦ record b { cancels = ref ∷ b.cancels }
]

-- the deadline of a queued request has passed
unfoldable pub expired : Setup → ℕ → Broker → Broker
unfolding terminal_locked
expired e ref b =
    terminal_locked e ref queue_timed_out queue_timed_out_message
      (field "reason" (str "queue_timeout") end) [] b

-- `_claim_dispatch`
unfoldable pub claim_dispatch : Setup → ℕ → ℕ → ℕ → Broker → Bool × Broker
unfolding expired publish
claim_dispatch e now ref pid b = elim (lookup ref b.records) [
  | none ↦ (false, b)
  | some r ↦
      if is_queued r.state
      then (if overdue now r.queue_deadline
          then (false, cancelled_local ref r (expired e ref b))
          else (
            true,
            publish e ref pid (record r { state = running })
                (record b {
                  statistics = record (b.statistics) {
                    tasks_running = b.statistics.tasks_running + 1;
                  };
                }),
          ))
      else if is_running r.state
      then (true, publish e ref pid r b)
      else (false, b)
]

-- `WorkerOutcome.kind`
pub data OutcomeKind : Type 0 where
  returned raised unencodable too_large : OutcomeKind

-- What the local pool hands to `_complete_local`: a `WorkerOutcome`, a `TimeoutError` with its text,
-- another exception with its text (`str` of a ProcessError or PicklingError, else `repr`), or a value
-- of another type.
pub data Outcome : Type 0 where
  worker_outcome : OutcomeKind → List ℕ → Fields → Outcome
  timeout : String → Outcome
  failure : String → Outcome
  invalid : Outcome

-- `mapping`
abbrev pub state_of : OutcomeKind → RequestState
state_of returned = succeeded
state_of raised = task_failed
state_of unencodable = result_encoding_failed
state_of too_large = result_too_large

abbrev pub message_of : OutcomeKind → MessageType
message_of returned = result
message_of raised = task_error
message_of unencodable = result_encoding_failed_message
message_of too_large = result_too_large_message

abbrev message : String → Fields
message text = field "message" (str text) end

-- the middle of `_complete_local`
unfoldable pub conclude : Setup → ℕ → Request → Outcome → Broker → Broker
unfolding terminal_locked
conclude e ref r (worker_outcome kind payload descriptor) b =
    terminal_locked e ref (state_of kind) (message_of kind)
      (fit_terminal_descriptor e.dumps e.identity.text e.limits r.request_id descriptor
        (length payload))
      payload b
conclude e ref r (timeout text) b =
    terminal_locked e ref execution_timed_out timed_out (message text) [] b
conclude e ref r (failure text) b =
    terminal_locked e ref worker_lost worker_lost_message (message text) [] b
conclude e ref r invalid b =
    terminal_locked e ref worker_lost worker_lost_message (message "invalid worker outcome") [] b

-- The session of a closed connection is purged.
unfoldable pub purge_closed : Request → Broker → Broker
unfolding purge_session
purge_closed r b =
    if is_closed r.connection b
    then elim (lookup r.session_id b.sessions) [
      | none ↦ b
      | some s ↦ if s.registered_session then purge_session r.session_id b else b
    ]
    else b

abbrev pub unstage : Broker → Broker
unstage b = record b { staged = b.staged - 1 }

-- `_complete_local`
unfoldable pub complete_local : Setup → ℕ → Outcome → Broker → Broker
unfolding conclude purge_closed
complete_local e ref outcome b = elim (lookup ref b.records) [
  | none ↦ b
  | some r ↦
      if is_terminal r.state
      then purge_closed r (unstage b)
      else purge_closed r (unstage (conclude e ref r outcome b))
]
