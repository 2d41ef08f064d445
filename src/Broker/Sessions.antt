-- ===== src/Broker/Sessions.antt =====
-- Sessions of the broker in deadpool/remote/server.py: connections, and how `_handshake` begins a
-- session.
use deadpool.Base.{
  ℕ, Bool, true, false, String, Option, none, some, [], ◌&&◌, if◌then◌else◌, leb, length, min,
}
use deadpool.Dict.{insert, has, nat_key, text_key}
use deadpool.Dict.Sums.{total}
use deadpool.Python.{pos, to_nat}
use deadpool.Collections.{is_empty}
use deadpool.Result.{Result, ok, err, remote_protocol_error}
use deadpool.Config.Limits.{Limits}
use deadpool.Protocol.Json.{Json, null, int, str, bool, arr, obj, nil, cons, Fields, end, field}
use deadpool.Protocol.Frame.{MessageType, welcome, handshake_rejected, major_version, minor_version}
use deadpool.Protocol.Reader.{Message}
use deadpool.Protocol.WireLimits.{wire_limits}
use deadpool.Broker.Identity.{Identity}
use deadpool.Broker.State.{
  Broker, Session, Connection, Setup, same, get, send_to, ServerState, serving, draining,
}
use deadpool.Broker.Hello.{validate_hello, refusal, principal_of, text_in}

-- `_prepare_connection`, for a socket that is ready: the server takes it while it runs or drains
abbrev pub takes_connections : ServerState → Bool
takes_connections serving = true
takes_connections draining = true
takes_connections _ = false

unfoldable pub connect : Bool → Broker → Broker
connect over_unix b =
    if takes_connections b.state
    then record b {
      connections =
          insert (length b.connections)
            (record {
              over_unix = over_unix;
              session = none;
              closed = false;
              clean_close = false;
              outbound = [];
            })
            b.connections;
    }
    else b

-- A session that is in `_sessions`, of a principal.
abbrev pub is_of : String → ℕ → Session → ℕ
is_of principal sid s = if s.registered_session && same s.principal principal then 1 else 0

-- the number of a principal's sessions
abbrev pub principal_connections : String → Broker → ℕ
principal_connections principal b = total (is_of principal) b.sessions

-- `effective_result_limit`
abbrev pub effective_result_limit : Limits → Option Json → ℕ
effective_result_limit l (some (int n)) = min (to_nat n) (
    min l.max_result_bytes
      (min l.max_retained_outcome_bytes_per_session l.max_retained_outcome_bytes_global))
effective_result_limit l _ = 0

abbrev pub nat : ℕ → Json
nat n = int (pos n)

abbrev or_none : Option String → Json
or_none none = null
or_none (some text) = str text

-- [MAJOR, MINOR]
abbrev protocol_version : Json
protocol_version = arr (cons (nat major_version) (cons (nat minor_version) nil))

abbrev pub welcome_control : Setup → Identity → ℕ → ℕ → Fields
welcome_control e i sid limit = field "version" protocol_version (
    field "features"
      (arr (cons (str "callable") (cons (str "registered") (cons (str "chunking") nil))))
      (field "wire" (str "experimental-deadpool-private-v1") (
        field "wire_limits" (obj (wire_limits e.limits)) (
          field "server_id" (str i.server_id) (
            field "epoch" (str i.epoch) (
              field "session_id" (str (i.session_text sid)) (
                field "serializer" (str i.serializer) (
                  field "serializer_protocol" (str i.serializer_protocol) (
                    field "registry_fingerprint" (or_none i.registry_fingerprint) (
                      field "application_fingerprint" (or_none i.application_fingerprint) (
                        field "limits"
                          (obj (
                            field "max_invocation_bytes" (nat e.limits.max_invocation_bytes) (
                              field "max_result_bytes" (nat limit) (
                                field "max_pending_per_session"
                                  (nat e.limits.max_pending_per_session)
                                  (field "max_pending_per_principal"
                                    (nat e.limits.max_pending_per_principal)
                                    (field "max_pending_global" (nat e.limits.max_pending_global)
                                      end))))))
                          (field "resumption" (bool false) end))))))))))))

-- A rejection is sent, and the handshake raises.
abbrev pub reject_hello : Setup → ℕ → String → Broker → Result (Unit {0}) × Broker
reject_hello e n text b =
    (err remote_protocol_error, send_to e n handshake_rejected (field "reason" (str text) end) [] b)

-- the session is registered, with the connection that it is of
unfoldable pub open_session : ℕ → Connection → String → String → ℕ → Broker → Broker
open_session n c client_id principal limit b =
    let sid = length b.sessions in
    record b {
      connections = insert n (record c { session = some sid }) b.connections;
      sessions =
          insert sid
            (record {
              client_id = client_id;
              principal = principal;
              connection = n;
              max_result_bytes = limit;
              watermark = 0;
              reserved_outcomes = 0;
              reserved_outcome_bytes = 0;
              requests = [];
              registered_session = true;
            })
            b.sessions;
      client_sessions = insert client_id sid b.client_sessions;
    }

-- the last part of `_handshake`, for an authenticated client
unfoldable pub begin_session :
    Setup → ℕ → Connection → Fields → String → Broker → Result (Unit {0}) × Broker
unfolding open_session
begin_session e n c hello principal b =
    let client_id = text_in (get "client_instance_id" hello) in
    let limit = effective_result_limit e.limits (get "max_result_bytes" hello) in
    if has client_id b.client_sessions
    then reject_hello e n "duplicate_client_instance" b
    else if leb e.limits.max_connections_per_principal (principal_connections principal b)
    then reject_hello e n "connection_limit" b
    else (
      ok tt,
      send_to e n welcome (welcome_control e e.identity (length b.sessions) limit) []
          (open_session n c client_id principal limit b),
    )

-- `_handshake`, on a connection
unfoldable pub handshake : Setup → ℕ → Connection → Fields → Broker → Result (Unit {0}) × Broker
unfolding begin_session validate_hello refusal principal_of
handshake e n c hello b = elim (validate_hello hello) [
  | err x ↦ (err x, b)
  | ok _ ↦ elim (refusal e.limits e.identity hello) [
    | some text ↦ reject_hello e n text b
    | none ↦ elim (principal_of e.identity n c.over_unix hello) [
      | none ↦ reject_hello e n "authentication" b
      | some principal ↦ begin_session e n c hello principal b
    ]
  ]
]

abbrev is_hello : MessageType → Bool
is_hello MessageType.hello = true
is_hello _ = false

-- the first message of `_connection_loop`
unfoldable pub first_message :
    Setup → ℕ → Connection → Message → Broker → Result (Unit {0}) × Broker
unfolding handshake
first_message e n c m b =
    if is_hello m.kind && is_empty m.payload
    then handshake e n c m.control b
    else (err remote_protocol_error, b)
