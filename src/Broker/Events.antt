-- ===== src/Broker/Events.antt =====
-- What happens to the broker of deadpool/remote/server.py under its lock, as one event each, and
-- runs of it.
use deadpool.Base.{
  ℕ, Bool, String, none, some, List, [], ◌∷◌, if◌then◌else◌, is_some, option-case, if-case,
}
use deadpool.Dict.{lookup, values, nat_key}
use deadpool.Scheduler.{new}
use deadpool.Protocol.Json.{Json}
use deadpool.Protocol.Reader.{Message}
use deadpool.Broker.State.{Broker, Setup, serving, session_of}
use deadpool.Broker.Sessions.{connect, first_message}
use deadpool.Broker.Messages.{told, handle_message}
use deadpool.Broker.Opening.{connect-Steps, first_message-Steps, told-Steps, handle_message-Steps}
use deadpool.Broker.Cancel.{disconnect, expire_queued, shutdown_records}
use deadpool.Broker.Dispatch.{
  take_staged, restore, handed_over, claim_dispatch, Outcome, complete_local,
}
use deadpool.Broker.Step.{Steps, done, ◌⨟◌}
use deadpool.Broker.Cancelling.{disconnect-Steps, expire_queued-Steps, shutdown_records-Steps}
use deadpool.Broker.Dispatching.{
  take_staged-Steps, restore-Steps, handed_over-Steps, claim_dispatch-Steps, complete_local-Steps,
}

-- The numbers are of a connection, a time, a record or a pid, in the order of the handler's arguments.
-- A connection says HELLO while it has no session, and has messages once it has one; the JSON value is
-- what `get_statistics` returns.
pub data Event : Type 0 where
  connection : Bool → Event
  greeting : ℕ → Message → Event
  message : ℕ → ℕ → Json → Message → Event
  disconnection : ℕ → Event
  expiry dispatch : ℕ → Event
  pool_full pool_took : ℕ → Event
  claim : ℕ → ℕ → ℕ → Event
  completion : ℕ → Outcome → Event
  shutdown_pass : Bool → String → Event

unfoldable pub greet : Setup → ℕ → Message → Broker → Broker
unfolding first_message told
greet e n m b = elim (lookup n b.connections) [
  | none ↦ b
  | some c ↦ if is_some c.session then b else told e n (first_message e n c m b)
]

unfoldable pub handle : Setup → Event → Broker → Broker
unfolding connect greet handle_message told session_of disconnect expire_queued take_staged restore
    handed_over claim_dispatch complete_local shutdown_records
handle e (connection over_unix) b = connect over_unix b
handle e (greeting n m) b = greet e n m b
handle e (message n now statistics m) b =
    if is_some (session_of n b) then told e n (handle_message e n now statistics m b) else b
handle e (disconnection n) b = disconnect e n b
handle e (expiry now) b = expire_queued e now (values b.requests) b
handle e (dispatch now) b = (take_staged e now b).1
handle e (pool_full ref) b = restore ref b
handle e (pool_took ref) b = handed_over ref b
handle e (claim now ref pid) b = (claim_dispatch e now ref pid b).1
handle e (completion ref outcome) b = complete_local e ref outcome b
handle e (shutdown_pass hard text) b = shutdown_records e hard text (values b.requests) b

-- The broker as `__init__` leaves it and start-up hands it over.
unfoldable pub new_broker : Broker
unfolding new
new_broker = record {
  state = serving;
  connections = [];
  sessions = [];
  client_sessions = [];
  records = [];
  requests = [];
  reserved_outcomes = 0;
  reserved_outcome_bytes = 0;
  scheduler = new;
  staged = 0;
  statistics = record {
    tasks_received = 0;
    tasks_accepted = 0;
    tasks_rejected = 0;
    tasks_running = 0;
    tasks_terminal = 0;
  };
  cancels = [];
  kills = [];
}

unfoldable pub run : Setup → List Event → Broker → Broker
unfolding handle
run e [] b = b
run e (v ∷ vs) b = run e vs (handle e v b)

greet-Steps : (e : Setup) (n : ℕ) (m : Message) (b : Broker) → Steps e b (greet e n m b)
unfolding greet
greet-Steps e n m b =
    option-case (Steps e b) (lookup n b.connections) (λ _. done)
      (λ c _.
        if-case (Steps e b) (is_some c.session) (λ _. done)
          (λ _. told-Steps e n b _ (first_message-Steps e n c m b)))

pub handle-Steps : (e : Setup) (v : Event) (b : Broker) → Steps e b (handle e v b)
unfolding handle
handle-Steps e (connection over_unix) b = connect-Steps e over_unix b
handle-Steps e (greeting n m) b = greet-Steps e n m b
handle-Steps e (message n now statistics m) b =
    if-case (Steps e b) (is_some (session_of n b))
      (λ _. told-Steps e n b _ (handle_message-Steps e n now statistics m b)) (λ _. done)
handle-Steps e (disconnection n) b = disconnect-Steps e n b
handle-Steps e (expiry now) b = expire_queued-Steps e now (values b.requests) b
handle-Steps e (dispatch now) b = take_staged-Steps e now b
handle-Steps e (pool_full ref) b = restore-Steps e ref b
handle-Steps e (pool_took ref) b = handed_over-Steps e ref b
handle-Steps e (claim now ref pid) b = claim_dispatch-Steps e now ref pid b
handle-Steps e (completion ref outcome) b = complete_local-Steps e ref outcome b
handle-Steps e (shutdown_pass hard text) b =
    shutdown_records-Steps e hard text (values b.requests) b

pub run-Steps : (e : Setup) (vs : List Event) (b : Broker) → Steps e b (run e vs b)
unfolding run
run-Steps e [] b = done
run-Steps e (v ∷ vs) b = handle-Steps e v b ⨟ run-Steps e vs (handle e v b)
