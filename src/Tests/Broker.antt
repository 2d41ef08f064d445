-- ===== src/Tests/Broker.antt =====
-- deadpool/remote/server.py at a concrete state: one session over a Unix socket, no request yet.
use deadpool.Base.{
  String, ◌≤◌, ◌≡◌, refl, true, false, none, some, List, [], ◌∷◌, arith, ℕ_discrete,
}
use deadpool.Python.{pos}
use deadpool.Result.{ok}
use deadpool.Dict.{lookup, insert, nat_key, text_key, text_eq}
use deadpool.Protocol.Json.{int, str, arr, obj, null, nil, cons, Fields, end, field}
use deadpool.Protocol.WireLimits.{wire_limits}
use deadpool.Broker.Identity.{Identity}
use deadpool.Broker.Sessions.{handshake, principal_connections}
use deadpool.Base.{ℕ}
use deadpool.Broker.Groups.{GroupCounts, group_records}
use deadpool.Broker.GroupEnd.{GroupEnded}
use deadpool.Broker.GroupEnd.Turn.{is_hard}
use deadpool.Broker.GroupEnd.Counts.{group_records_lem}
use deadpool.Broker.Admission.{Answered, handshake_lem}
use deadpool.Broker.Connections.{run_new-within}
use deadpool.Protocol.Frame.{submit as submit_message, result_ack, hello as hello_message}
use deadpool.Protocol.Reader.{Message}
use deadpool.Scheduler.{new}
use deadpool.Broker.State.{
  Broker, Request, Session, Connection, Setup, Statistics, serving, terminate, callable,
  accepted_queued, authorized,
}
use deadpool.Broker.Dispatch.{worker_outcome, returned}
use deadpool.Broker.Events.{
  Event, connection as connects, greeting, message, disconnection, dispatch, pool_took, claim,
  completion, new_broker, run,
}
use deadpool.Broker.Balance.{IsBalanced}
use deadpool.Broker.Books.{run-IsBalanced}
use deadpool.Broker.Quotas.{IsWithin, run-IsWithin}
use deadpool.Broker.Lifecycle.{IsLater, run-IsLater}
use deadpool.Tests.Protocol.{limits, digest, hash}

abbrev identity : Identity
identity = record {
  server_id = "server";
  epoch = "epoch";
  python_major = 3;
  python_minor = 12;
  serializer = "pickle";
  serializer_protocol = "5";
  registry_fingerprint = none;
  application_fingerprint = none;
  own_uid = 1000;
  authenticator = none;
  peer = λ n. record { uid = some 1000; certificate = none };
  session_text = λ sid. "session";
  text = λ v. "5";
  decimal = λ n. "1000";
  error_text = λ x. "error";
}

-- the HELLO of a client
abbrev greeting_of : String → Fields
greeting_of client_id =
    field "versions" (arr (cons (arr (cons (int (pos 1)) (cons (int (pos 0)) nil))) nil)) (
      field "client_instance_id" (str client_id) (
        field "serializer" (str "pickle") (
          field "serializer_protocol" (int (pos 5)) (
            field "python" (arr (cons (int (pos 3)) (cons (int (pos 12)) nil))) (
              field "capabilities" (arr (cons (str "callable") nil)) (
                field "max_result_bytes" (int (pos 4)) (
                  field "wire" (str "experimental-deadpool-private-v1")
                    (field "wire_limits" (obj (wire_limits limits)) end))))))))

abbrev first_message_of : String → Message
first_message_of client_id = record {
  kind = hello_message;
  control = greeting_of client_id;
  payload = [];
}

abbrev pub setup : Setup
setup = record {
  limits = limits;
  identity = identity;
  task_registry = [];
  authorizer = none;
  own_principal = "uid:1000";
  disconnect_policy = terminate;
  sha256 = hash;
  ticks = λ v. 30;
  whole = λ v. 0;
  parse_int = λ text. some (pos 1);
  worker_id = λ pid. "worker";
  dumps = λ v. 123 ∷ 125 ∷ [];
}

abbrev session : Session
session = record {
  client_id = "a";
  principal = "uid:1000";
  connection = 0;
  max_result_bytes = 8;
  watermark = 0;
  reserved_outcomes = 0;
  reserved_outcome_bytes = 0;
  requests = [];
  registered_session = true;
}

abbrev connection : Connection
connection = record {
  over_unix = true;
  session = some 0;
  closed = false;
  clean_close = false;
  outbound = [];
}

abbrev counts : Statistics
counts = record {
  tasks_received = 0;
  tasks_accepted = 0;
  tasks_rejected = 0;
  tasks_running = 0;
  tasks_terminal = 0;
}

abbrev broker : Broker
broker = record {
  state = serving;
  connections = (0, connection) ∷ [];
  sessions = (0, session) ∷ [];
  client_sessions = ("a", 0) ∷ [];
  records = [];
  requests = [];
  reserved_outcomes = 0;
  reserved_outcome_bytes = 0;
  scheduler = new;
  staged = 0;
  statistics = counts;
  cancels = [];
  kills = [];
}

abbrev job : Message
job = record {
  kind = submit_message;
  control =
      field "request_id" (str "a:1")
        (field "digest" (str digest) (field "mode" (str "callable") end));
  payload = 7 ∷ 8 ∷ [];
}

abbrev received : Message
received = record { kind = result_ack; control = field "request_id" (str "a:1") end; payload = [] }

abbrev served : List Event
served =
    message 0 100 null job
    ∷ dispatch 101
    ∷ pool_took 0
    ∷ claim 102 0 4242
    ∷ completion 0 (worker_outcome returned (1 ∷ []) end)
    ∷ message 0 103 null received
    ∷ []

abbrev accepted_run : Broker
accepted_run = run setup (message 0 100 null job ∷ []) broker

one_reserved : (accepted_run).reserved_outcomes ≡ 1
unfolding run lookup ℕ_discrete text_eq authorized insert
one_reserved = refl

broker-IsBalanced : IsBalanced broker
unfolding lookup
broker-IsBalanced = record {
  numbered = λ ref le. refl;
  sessions_numbered = λ sid le. ground arith;
  unopened = λ sid h. (refl, refl);
  outcomes = λ sid s h. ground arith;
  bytes = λ sid s h. ground arith;
  all_outcomes = refl;
  all_bytes = refl;
}

broker-IsWithin : IsWithin limits broker
unfolding lookup
broker-IsWithin = record {
  each = λ sid s h. record { outcomes = ground arith; bytes = ground arith };
  outcomes = omega arith;
  bytes = omega arith;
}

-- the record that the submission made
abbrev queued : Request
queued = record {
  request_id = "a:1";
  digest = digest;
  principal = "uid:1000";
  session_id = 0;
  connection = 0;
  mode = callable;
  payload = 7 ∷ 8 ∷ [];
  priority = 0;
  execution_timeout = none;
  queue_deadline = none;
  group_id = none;
  max_result_bytes = 8;
  reserved_result_bytes = 8;
  state = accepted_queued;
  local_future = none;
  terminal_kind = none;
  terminal_payload = [];
  terminal_control = end;
  reservation_released = false;
}

recorded : lookup 0 (accepted_run).records ≡ some queued
unfolding run lookup ℕ_discrete text_eq authorized insert
recorded = refl

run-IsLater_example : IsLater 0 queued (run setup (disconnection 0 ∷ served) accepted_run)
run-IsLater_example =
    run-IsLater setup (disconnection 0 ∷ served) accepted_run 0 queued
      (run-IsBalanced setup (message 0 100 null job ∷ []) broker broker-IsBalanced) recorded

run-IsBalanced_example : IsBalanced (run setup served broker)
run-IsBalanced_example = run-IsBalanced setup served broker broker-IsBalanced

run-IsWithin_example : IsWithin limits (run setup served broker)
run-IsWithin_example = run-IsWithin setup served broker broker-IsWithin

handshake_lem_example :
    Answered setup 1 connection
      (greeting_of "b")
      broker
      (handshake setup 1 connection (greeting_of "b") broker)
handshake_lem_example = handshake_lem setup 1 connection (greeting_of "b") broker

admitted : (handshake setup 1 connection (greeting_of "b") broker).0 ≡ ok tt
unfolding handshake lookup text_eq
admitted = refl

abbrev from_start : List Event
from_start = connects true ∷ greeting 0 (first_message_of "a") ∷ served

run_new-within_example :
    IsBalanced (run setup from_start new_broker)
    × (principal_connections "uid:1000" (run setup from_start new_broker)
        ≤ limits.max_connections_per_principal)
run_new-within_example = run_new-within setup from_start "uid:1000"

started : (run setup from_start new_broker).statistics.tasks_terminal ≡ 1
unfolding run lookup new_broker insert ℕ_discrete text_eq authorized deadpool.Scheduler.put
    deadpool.Scheduler.put_at deadpool.Collections.heappush deadpool.Scheduler.put_bucket
started = refl

abbrev nothing_counted : GroupCounts
nothing_counted = record { cancelled = 0; running = 0; terminal = 0; unknown = 0 }

abbrev members_one : List ℕ
members_one = 0 ∷ []

group_records_lem_example :
    GroupEnded
      (is_hard setup 0 end accepted_run)
      members_one
      nothing_counted
      accepted_run
      (group_records setup 0 end members_one (nothing_counted, accepted_run))
group_records_lem_example =
    group_records_lem setup 0 end members_one nothing_counted accepted_run (tt, tt)
