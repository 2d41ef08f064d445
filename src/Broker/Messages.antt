-- ===== src/Broker/Messages.antt =====
-- `_handle_message` of deadpool/remote/server.py: what the broker makes of a message, and the clean close
-- of a session.
use deadpool.Base.{ℕ, Bool, true, none, some, List, [], ◌∷◌, ◌&&◌, if◌then◌else◌}
use deadpool.Dict.{lookup, insert, values, nat_key, text_key}
use deadpool.Result.{Result, ok, err, remote_protocol_error}
use deadpool.Protocol.Json.{Json, str, Fields, end, field}
use deadpool.Protocol.Frame.{
  MessageType, protocol_error, ping, pong, submit as submit_message, cancel_request,
  cancel_group as cancel_group_message, status_request, stats_request, stats_response, result_ack,
  close_session as close_session_message, close_session_response,
}
use deadpool.Protocol.Reader.{Message}
use deadpool.Broker.State.{Broker, Setup, is_terminal, get, send_to, session_of, authorized}
use deadpool.Broker.Submit.{submit}
use deadpool.Broker.Cancel.{cancel, status, acknowledge, or_null}
use deadpool.Broker.Groups.{cancel_group}

-- An exception of a handler ends `_connection_loop`: the client is told, and `_disconnect` follows, which
-- takes the lock anew.
unfoldable pub told : Setup → ℕ → Result (Unit {0}) × Broker → Broker
told e n (ok _, b) = b
told e n (err x, b) =
    send_to e n protocol_error (field "message" (str (e.identity.error_text x)) end) [] b

-- every request of a session is terminal
unfoldable pub all_terminal : List ℕ → Broker → Bool
all_terminal [] b = true
all_terminal (ref ∷ refs) b =
    elim (lookup ref b.records) [ none ↦ true | some r ↦ is_terminal r.state ]
    && all_terminal refs b

abbrev pub mark_clean : ℕ → Broker → Broker
mark_clean n b = elim (lookup n b.connections) [
  | none ↦ b
  | some c ↦ record b { connections = insert n (record c { clean_close = true }) b.connections }
]

-- the CLOSE_SESSION branch of `_handle_message`
unfoldable pub close_session : Setup → ℕ → Fields → Broker → Result (Unit {0}) × Broker
unfolding session_of all_terminal
close_session e n control b = elim (session_of n b) [
  | none ↦ (err remote_protocol_error, b)
  | some (sid, s) ↦
      if all_terminal (values s.requests) b
      then (
        ok tt,
        send_to e n close_session_response (field "token" (or_null (get "token" control)) end) []
            (mark_clean n b),
      )
      else (err remote_protocol_error, b)
]

-- the STATS_REQUEST branch, where `statistics` is what `get_statistics` returns
abbrev answer_statistics : Setup → ℕ → Json → Fields → Broker → Broker
answer_statistics e n statistics control b =
    let token = or_null (get "token" control) in
    send_to e n stats_response
      (if authorized e n "statistics" control b
        then field "statistics" statistics (field "token" token end)
        else field "error" (str "unauthorized") (field "token" token end))
      [] b

-- `_handle_message`
unfoldable pub handle_kind :
    Setup → ℕ → ℕ → Json → MessageType → Message → Broker → Result (Unit {0}) × Broker
unfolding submit cancel cancel_group status acknowledge close_session authorized
handle_kind e n now statistics ping m b =
    (ok tt, send_to e n pong (field "nonce" (or_null (get "nonce" m.control)) end) [] b)
handle_kind e n now statistics submit_message m b = submit e n now m b
handle_kind e n now statistics cancel_request m b = (ok tt, cancel e n m.control b)
handle_kind e n now statistics cancel_group_message m b = (ok tt, cancel_group e n m.control b)
handle_kind e n now statistics status_request m b = (ok tt, status e n m.control b)
handle_kind e n now statistics stats_request m b =
    (ok tt, answer_statistics e n statistics m.control b)
handle_kind e n now statistics result_ack m b = (ok tt, acknowledge n m.control b)
handle_kind e n now statistics close_session_message m b = close_session e n m.control b
handle_kind e n now statistics _ m b = (err remote_protocol_error, b)

unfoldable pub handle_message : Setup → ℕ → ℕ → Json → Message → Broker → Result (Unit {0}) × Broker
unfolding handle_kind
handle_message e n now statistics m b = handle_kind e n now statistics m.kind m b
