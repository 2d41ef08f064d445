-- ===== src/Broker/Admission.antt =====
-- Whom the handshake of deadpool/remote/server.py lets in, and what a refusal changes.
use deadpool.Base.{
  ℕ, ◌≤◌, ◌<◌, ◌≡◌, refl, true, false, Option, none, some, List, [], String, arith, length, leb,
  min, ap, ◌∙◌, if-case, option-case,
}
use deadpool.Result.{Result, ok, err, result-case}
use deadpool.Dict.{lookup, has, nat_key, text_key}
use deadpool.Dict.Laws.{lookup-insert_self}
use deadpool.Protocol.Json.{Json, int, Fields}
use deadpool.Protocol.Frame.{MessageType}
use deadpool.Protocol.Reader.{Message}
use deadpool.Config.Limits.{Limits}
use deadpool.Broker.State.{Broker, Session, Connection, Setup, get, send, send_to, close}
use deadpool.Broker.Hello.{validate_hello, refusal, principal_of, text_in}
use deadpool.Python.{pos}
use deadpool.Broker.Hello.Reading.{IsGreeting, Authenticates, principal_of-Authenticates}
use deadpool.Broker.Hello.Greeting.{hello-IsGreeting}
use deadpool.Broker.Sessions.{
  handshake, begin_session, open_session, principal_connections, effective_result_limit,
}

abbrev client_of : Fields → String
client_of hello = text_in (get "client_instance_id" hello)

-- The session that a handshake registers, as an entry of the state afterwards.
pub record Admitted (e : Setup) (n : ℕ) (c : Connection) (hello : Fields) (b b' : Broker)
    : Type 0 where
  pub session : Session
  pub greeting : IsGreeting e.limits e.identity hello session.client_id
  pub authenticated :
      Authenticates e.identity (e.identity.peer n) hello session.principal c.over_unix
  pub live : (session.registered_session ≡ true) × (session.connection ≡ n)
  pub empty :
      (session.requests ≡ [])
      × (session.reserved_outcomes ≡ 0)
      × (session.reserved_outcome_bytes ≡ 0)
      × (session.watermark ≡ 0)
  pub unique : lookup session.client_id b.client_sessions ≡ none
  pub room : principal_connections session.principal b < e.limits.max_connections_per_principal
  pub registered : lookup (length b.sessions) b'.sessions ≡ some session
  pub named : lookup session.client_id b'.client_sessions ≡ some (length b.sessions)
  pub attached :
      (c' : Connection) × (lookup n b'.connections ≡ some c')
      × (c'.session ≡ some (length b.sessions))
  pub offered :
      (m : ℕ) × (get "max_result_bytes" hello ≡ some (int (pos m)))
      × (session.max_result_bytes
          ≡ min m (
              min e.limits.max_result_bytes (
                min e.limits.max_retained_outcome_bytes_per_session
                  e.limits.max_retained_outcome_bytes_global)))
  pub result_limit :
      (session.max_result_bytes ≤ e.limits.max_result_bytes)
      × (session.max_result_bytes ≤ e.limits.max_retained_outcome_bytes_per_session)
      × (session.max_result_bytes ≤ e.limits.max_retained_outcome_bytes_global)

-- No session and no record is touched.
pub record Untouched (b b' : Broker) : Type 0 where
  pub sessions : b'.sessions ≡ b.sessions
  pub client_sessions : b'.client_sessions ≡ b.client_sessions
  pub records : b'.records ≡ b.records

abbrev pub Answered : Setup → ℕ → Connection → Fields → Broker → Result (Unit {0}) × Broker → Type 0
Answered e n c hello b (ok _, b') = Admitted e n c hello b b'
Answered e n c hello b (err x, b') = Untouched b b'

send_to-Untouched :
    (e : Setup) (n : ℕ) (kind : MessageType) (control : Fields) (payload : List ℕ) (b : Broker)
    → Untouched b (send_to e n kind control payload b)
unfolding send_to
send_to-Untouched e n kind control payload b =
    option-case (Untouched b) (lookup n b.connections)
      (λ _. record { sessions = refl; client_sessions = refl; records = refl })
      (λ c _. record { sessions = refl; client_sessions = refl; records = refl })

effective_result_limit-le :
    (l : Limits) (offered : Option Json)
    → let limit = effective_result_limit l offered in
      (limit ≤ l.max_result_bytes)
      × (limit ≤ l.max_retained_outcome_bytes_per_session)
      × (limit ≤ l.max_retained_outcome_bytes_global)
effective_result_limit-le l (some (int n)) = omega arith
effective_result_limit-le l none = omega arith
effective_result_limit-le l (some Json.null) = omega arith
effective_result_limit-le l (some (Json.bool v)) = omega arith
effective_result_limit-le l (some (Json.float x)) = omega arith
effective_result_limit-le l (some (Json.str s)) = omega arith
effective_result_limit-le l (some (Json.arr vs)) = omega arith
effective_result_limit-le l (some (Json.obj fs)) = omega arith

send-session : (l : Limits) (m : Message) (c : Connection) → (send l m c).session ≡ c.session
unfolding send close
send-session l m c = ground arith

-- A connection keeps its session when a message is sent over it.
send_to-attached :
    (e : Setup) (n : ℕ) (kind : MessageType) (control : Fields) (payload : List ℕ) (b : Broker)
    (c : Connection)
    → lookup n b.connections ≡ some c
    → (c' : Connection) × (lookup n (send_to e n kind control payload b).connections ≡ some c')
      × (c'.session ≡ c.session)
unfolding send_to
send_to-attached e n kind control payload b c h =
    let m : Message = record { kind = kind; control = control; payload = payload } in
    let P : Broker → Type 0 =
      λ b'. (c' : Connection) × (lookup n b'.connections ≡ some c') × (c'.session ≡ c.session) in
    option-case P (lookup n b.connections) (λ k. ground (arith, h, k))
      (λ d k.
        let same : d ≡ c = ground (arith, h, k) in
        (
          send e.limits m d,
          lookup-insert_self n (send e.limits m d) b.connections,
          send-session e.limits m d ∙ ap (λ x. x.session) same,
        ))

open_session-Admitted :
    (e : Setup) (n : ℕ) (c : Connection) (hello : Fields) (principal : String) (b b' : Broker)
    → validate_hello hello ≡ ok tt
    → refusal e.limits e.identity hello ≡ none
    → principal_of e.identity n c.over_unix hello ≡ some principal
    → has (client_of hello) b.client_sessions ≡ false
    → leb e.limits.max_connections_per_principal (principal_connections principal b) ≡ false
    → ((c' : Connection) × (lookup n b'.connections ≡ some c')
        × (c'.session ≡ some (length b.sessions)))
    → Untouched
        (open_session n c
          (client_of hello)
          principal
          (effective_result_limit e.limits (get "max_result_bytes" hello))
          b)
        b'
    → Admitted e n c hello b b'
unfolding open_session
open_session-Admitted e n c hello principal b b' valid compatible authenticated fresh room attached
      u =
    record {
      session = record {
        client_id = client_of hello;
        principal = principal;
        connection = n;
        max_result_bytes = effective_result_limit e.limits (get "max_result_bytes" hello);
        watermark = 0;
        reserved_outcomes = 0;
        reserved_outcome_bytes = 0;
        requests = [];
        registered_session = true;
      };
      greeting = hello-IsGreeting e.limits e.identity hello valid compatible;
      authenticated =
          principal_of-Authenticates e.identity n c.over_unix hello principal authenticated;
      live = (refl, refl);
      empty = (refl, refl, refl, refl);
      attached = attached;
      offered =
          let (m, offer, _) =
            (hello-IsGreeting e.limits e.identity hello valid compatible).max_result_bytes in
          (m, offer, ap (effective_result_limit e.limits) offer);
      unique = ground (arith, fresh);
      room = ground (arith, room);
      registered = rw u.sessions (lookup-insert_self (length b.sessions) _ b.sessions);
      named =
          rw u.client_sessions
            (lookup-insert_self (client_of hello) (length b.sessions) b.client_sessions);
      result_limit = effective_result_limit-le e.limits (get "max_result_bytes" hello);
    }

-- A handshake that returns has registered a live session without requests under the next number, of
-- this connection, and attached the connection to it. The session's client is the text of
-- client_instance_id, neither empty nor longer than 128 characters, and had no session; the HELLO names
-- a wire, the server's limits of the wire, its version, serializer and serializer protocol, its Python
-- where a callable is asked for, and its fingerprints where it has some. The session's principal is
-- what an authenticator said, or without one the server's own user over a Unix socket, where the
-- peer's user is that or is not known, or the peer's certificate or the loopback over TCP, and had room
-- for one session more. The result limit is the least of the client's, which is positive, and the
-- server's three. A handshake that raises leaves every session and record as it was.
pub handshake_lem :
    (e : Setup) (n : ℕ) (c : Connection) (hello : Fields) (b : Broker)
    → Answered e n c hello b (handshake e n c hello b)
unfolding handshake begin_session open_session
handshake_lem e n c hello b =
    let P : Result (Unit {0}) × Broker → Type 0 = Answered e n c hello b in
    result-case P (validate_hello hello)
      (λ _ _. record { sessions = refl; client_sessions = refl; records = refl })
      (λ _ valid.
        option-case P (refusal e.limits e.identity hello)
          (λ compatible.
            option-case P (principal_of e.identity n c.over_unix hello)
              (λ _. send_to-Untouched e n _ _ _ b)
              (λ principal authenticated.
                if-case P (has (client_of hello) b.client_sessions)
                  (λ _. send_to-Untouched e n _ _ _ b)
                  (λ fresh.
                    if-case P
                      (leb e.limits.max_connections_per_principal
                        (principal_connections principal b))
                      (λ _. send_to-Untouched e n _ _ _ b)
                      (λ room.
                        open_session-Admitted e n c hello principal b _ valid compatible
                          authenticated fresh room
                          (send_to-attached e n _ _ _
                            (open_session n c (client_of hello) principal
                              (effective_result_limit e.limits (get "max_result_bytes" hello)) b)
                            (record c { session = some (length b.sessions) })
                            (lookup-insert_self n (record c { session = some (length b.sessions) })
                              b.connections))
                          (send_to-Untouched e n _ _ _ _)))))
          (λ text _. send_to-Untouched e n _ _ _ b))
