-- ===== src/Client/Calls.antt =====
-- The application's calls of deadpool/remote/client.py, and what happens to a client as one event each.
use deadpool.Base.{
  ℕ, Bool, true, false, String, Option, none, some, List, [], ◌∷◌, if◌then◌else◌, is_some,
}
use deadpool.Result.{ok, err}
use deadpool.Dict.{lookup, nat_key, text_key}
use deadpool.Collections.{discard}
use deadpool.Protocol.Json.{Json, bool, str, Fields, end, field}
use deadpool.Protocol.Frame.{cancel_request}
use deadpool.Protocol.Reader.{Message}
use deadpool.Broker.State.{same, get}
use deadpool.Future.{cancel, set_cancelled, add_done_callback}
use deadpool.Client.State.{Setup, Client, Answer, reply, settling, put_outbound}
use deadpool.Client.Completion.{lose, id_of}
use deadpool.Client.Threads.{lane_step, fail_next, register, post, sender_step, receive}

-- What `_cancel` of the client gives: its answer, or the error that it raises.
pub data Decision : Type 0 where
  decided : Bool → Decision
  unknown_outcome : Decision

abbrev pub response_of : Option Answer → Option Json
response_of (some (reply control)) = get "response" control
response_of _ = none

abbrev pub says : String → Option Json → Bool
says text (some (str s)) = same s text
says text _ = false

module _ {V : Type 0} where
  -- `RemoteFuture.cancel` on a future of this client, up to the call of `_cancel`
  unfoldable pub cancel_local : ℕ → Client V → Client V
  unfolding settling
  cancel_local ref c = settling ref (λ f. ((cancel f).1, (cancel f).2)) c

  abbrev pub cancel_message : ℕ → Bool → String → Client V → Message
  cancel_message ref hard token c = record {
    kind = cancel_request;
    control =
        field "request_id" (str (id_of ref c))
          (field "hard" (bool hard) (field "token" (str token) end));
    payload = [];
  }

  -- `_cancel` up to the wait: the call waits for its token, and the request is queued. `none` is the
  -- error of a client without a connection, or of a full queue.
  unfoldable pub ask_cancel : Setup V → ℕ → Bool → String → Client V → Option (Client V)
  unfolding put_outbound
  ask_cancel e ref hard token c =
      if c.connected
      then put_outbound e.limits (some (none, cancel_message ref hard token c))
          (record c { rpc = token ∷ c.rpc })
      else none

  abbrev pub asked : Option (Client V) → Client V → Client V
  asked none c = c
  asked (some c') c = c'

  -- the rest of `_cancel`, where `response` is the answer to its token, if one came in time
  unfoldable pub conclude_cancel : ℕ → Option Answer → Client V → Decision × Client V
  unfolding settling
  conclude_cancel ref response c =
      if says "cancelled" (response_of response)
      then (decided true, settling ref set_cancelled c)
      else if says "running" (response_of response)
      then (decided false, c)
      else if says "terminal" (response_of response)
      then (decided false, c)
      else (unknown_outcome, c)

  -- the `finally` of `_cancel` and `_rpc_request`
  unfoldable pub stop_waiting : String → Client V → Client V
  stop_waiting token c = record c { rpc = discard token c.rpc }

  -- `shutdown` and the end of `_finish_shutdown`
  unfoldable pub close : Client V → Client V
  close c = record c { closed = true }

  unfoldable pub finish_shutdown : Setup V → Client V → Client V
  unfolding put_outbound
  finish_shutdown e c = record (asked (put_outbound e.limits none c) c) {
    connected = false;
    lane_open = false;
  }

-- What happens to a client: the numbers are of a request, the flag of `sends` tells whether the socket
-- takes the message, that of `posts` whether the deadline has passed.
pub data Event : Type 0 where
  registers : Event
  posts : ℕ → Fields → List ℕ → Bool → Event
  sends : Bool → Event
  receives : Message → Event
  works : Event
  loses : Event
  looks_at_next : Event
  adds_callback : ℕ → ℕ → Event
  cancels : ℕ → Event
  asks_cancel : ℕ → Bool → String → Event
  concludes_cancel : ℕ → Option Answer → Event
  stops_waiting : String → Event
  closes finishes : Event

module _ {V : Type 0} where
  abbrev pub registered : Client V → Setup V → Client V
  registered c e = elim (register e c) [ err x ↦ c | ok (ref, c') ↦ c' ]

  unfoldable pub handle : Setup V → Event → Client V → Client V
  unfolding post sender_step receive lane_step lose fail_next settling cancel_local ask_cancel
      conclude_cancel stop_waiting close finish_shutdown
  handle e registers c = registered c e
  handle e (posts ref control payload late) c =
      if is_some (lookup ref c.table) then (post e ref control payload late c).1 else c
  handle e (sends fine) c = sender_step fine c.sender c
  handle e (receives m) c = receive e m c
  handle e works c = lane_step e c
  handle e loses c = lose c
  handle e looks_at_next c = fail_next e c
  handle e (adds_callback ref fn) c = settling ref (add_done_callback fn) c
  handle e (cancels ref) c = cancel_local ref c
  handle e (asks_cancel ref hard token) c = asked (ask_cancel e ref hard token c) c
  handle e (concludes_cancel ref response) c = (conclude_cancel ref response c).1
  handle e (stops_waiting token) c = stop_waiting token c
  handle e closes c = close c
  handle e finishes c = finish_shutdown e c

  unfoldable pub run : Setup V → List Event → Client V → Client V
  unfolding handle
  run e [] c = c
  run e (v ∷ vs) c = run e vs (handle e v c)
