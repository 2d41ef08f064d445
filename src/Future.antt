-- ===== src/Future.antt =====
-- deadpool/remote/_future.py: the future of one remote request. The base class's future is pending or
-- settled; callbacks are numbered. What an operation calls back is its list of callbacks: they run
-- inline or on the client's callback lane.
pub mod Lifecycle
use deadpool.Base.{
  ℕ, ◌≡◌, Bool, true, false, not, String, Option, none, some, List, [], ◌∷◌, ◌++◌, if◌then◌else◌,
  ◌==◌, is_some,
}
use deadpool.Protocol.Json.{Json}

pub data SubmissionState : Type 0 where
  local_pending sent_unacknowledged accepted_queued running : SubmissionState
  succeeded task_failed cancelled failed : SubmissionState

-- How a future of the standard library ends: a value, an exception, a cancellation.
pub data Settlement (V E : Type 0) : Type 0 where
  returned : V → Settlement V E
  raised : E → Settlement V E
  given_up : Settlement V E

-- `RemoteFuture`
pub record RemoteFuture (V E : Type 0) : Type 0 where
  pub request_id : String
  pub submission_state : SubmissionState
  pub worker_id : Option Json
  pub pid : Option Json
  pub owner_pid : ℕ
  pub settlement : Option (Settlement V E)
  pub remote_callbacks : List ℕ

abbrev pub is_local : SubmissionState → Bool
is_local local_pending = true
is_local _ = false

abbrev is_running_state : SubmissionState → Bool
is_running_state running = true
is_running_state _ = false

-- What a call by another process gets: RemoteForkedProcessError, or the call's own answer.
pub data Checked {ℓ} (A : Type ℓ) : Type ℓ where
  forked : Checked A
  answer : A → Checked A

-- The answers of `cancel`: False, True, or what the client's `_cancel` decides.
pub data CancelAnswer : Type 0 where
  refused granted ask_client : CancelAnswer

module _ {V E : Type 0} where
  unfoldable pub new : String → ℕ → RemoteFuture V E
  new request_id pid = record {
    request_id = request_id;
    submission_state = local_pending;
    worker_id = none;
    pid = none;
    owner_pid = pid;
    settlement = none;
    remote_callbacks = [];
  }

  -- super().done()
  abbrev pub is_done : RemoteFuture V E → Bool
  is_done f = is_some f.settlement

  -- `_check_process`, in front of a public call in a process
  abbrev pub check_process {ℓ} : {A : Type ℓ} → ℕ → RemoteFuture V E → A → Checked A
  check_process pid f a = if pid == f.owner_pid then answer a else forked

  -- `_set_sent`
  unfoldable pub set_sent : RemoteFuture V E → Bool × RemoteFuture V E
  set_sent f =
      if is_done f then (false, f) else (true, record f { submission_state = sent_unacknowledged })

  -- `_set_accepted`
  unfoldable pub set_accepted : RemoteFuture V E → RemoteFuture V E
  set_accepted f = if is_done f then f else record f { submission_state = accepted_queued }

  -- `_set_running`
  unfoldable pub set_running : Option Json → Option Json → RemoteFuture V E → RemoteFuture V E
  set_running pid worker_id f =
      if is_done f
      then f
      else record f { pid = pid; worker_id = worker_id; submission_state = running }

  -- the locked part of `_set_result`, `_set_exception` and `_set_cancelled`
  unfoldable pub settle : SubmissionState → Settlement V E → RemoteFuture V E → RemoteFuture V E
  settle state s f =
      if is_done f then f else record f { submission_state = state; settlement = some s }

  -- `_dispatch_callbacks`: the callbacks that it hands out
  unfoldable pub dispatch_callbacks : RemoteFuture V E → List ℕ × RemoteFuture V E
  dispatch_callbacks f = (f.remote_callbacks, record f { remote_callbacks = [] })

  -- A settlement returns early where the future is done, and dispatches the callbacks else.
  unfoldable pub settle_and_dispatch :
      SubmissionState → Settlement V E → RemoteFuture V E → List ℕ × RemoteFuture V E
  unfolding settle dispatch_callbacks
  settle_and_dispatch state s f =
      if is_done f then ([], f) else dispatch_callbacks (settle state s f)

  unfoldable pub set_result : V → RemoteFuture V E → List ℕ × RemoteFuture V E
  unfolding settle_and_dispatch
  set_result v f = settle_and_dispatch succeeded (returned v) f

  -- `_set_exception`, where `task` tells whether the task raised
  unfoldable pub set_exception : E → Bool → RemoteFuture V E → List ℕ × RemoteFuture V E
  unfolding settle_and_dispatch
  set_exception e task f = settle_and_dispatch (if task then task_failed else failed) (raised e) f

  unfoldable pub set_cancelled : RemoteFuture V E → List ℕ × RemoteFuture V E
  unfolding settle_and_dispatch
  set_cancelled f = settle_and_dispatch cancelled given_up f

  abbrev is_given_up : Option (Settlement V E) → Bool
  is_given_up (some given_up) = true
  is_given_up _ = false

  -- `cancel` up to the call of the client
  unfoldable pub cancel : RemoteFuture V E → CancelAnswer × List ℕ × RemoteFuture V E
  unfolding set_cancelled
  cancel f =
      if is_done f
      then (refused, [], f)
      else if is_local f.submission_state
      then (granted, (set_cancelled f).0, (set_cancelled f).1)
      else (ask_client, [], f)

  -- `cancel_and_kill_if_running`, of a client that is there
  unfoldable pub cancel_and_kill_if_running : RemoteFuture V E → CancelAnswer
  cancel_and_kill_if_running f = if is_done f then refused else ask_client

  -- `add_done_callback`: the callbacks that are invoked at once
  unfoldable pub add_done_callback : ℕ → RemoteFuture V E → List ℕ × RemoteFuture V E
  add_done_callback fn f =
      if is_done f
      then (fn ∷ [], f)
      else ([], record f { remote_callbacks = f.remote_callbacks ++ fn ∷ [] })

  -- `running`, `done`, `cancelled` and `pid`, in a process
  unfoldable pub running_in : ℕ → RemoteFuture V E → Checked Bool
  running_in pid f =
      check_process pid f (if is_running_state f.submission_state then not (is_done f) else false)

  unfoldable pub done_in : ℕ → RemoteFuture V E → Checked Bool
  done_in pid f = check_process pid f (is_done f)

  unfoldable pub cancelled_in : ℕ → RemoteFuture V E → Checked Bool
  cancelled_in pid f = check_process pid f (is_given_up f.settlement)

  unfoldable pub pid_in : ℕ → RemoteFuture V E → Checked (Option Json)
  pid_in pid f = check_process pid f f.pid
