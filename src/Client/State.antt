-- ===== src/Client/State.antt =====
-- The state of `DeadpoolClient` in deadpool/remote/client.py. Futures are objects that its dicts, its
-- queues and its threads share, so each has a number, the sequence number of its submission; `table`
-- holds them all. Values that a serializer makes are of a type `V`.
use Prim.Native.String.{◌++◌ as append}
use deadpool.Base.{
  ℕ, Bool, true, false, String, Option, none, some, List, [], ◌∷◌, ◌++◌, if◌then◌else◌, ltb, length,
}
use deadpool.Dict.{lookup, insert, delete, nat_key, text_key}
use deadpool.Config.Limits.{Limits}
use deadpool.Protocol.Json.{Json, Fields}
use deadpool.Protocol.Reader.{Message}
use deadpool.Errors.{RemoteError}
use deadpool.Future.{RemoteFuture}

-- An exception on a future: one of this library, `TimeoutError` of deadpool, or one that the task
-- raised and the serializer brought back.
pub data Failure (V : Type 0) : Type 0 where
  remote : RemoteError → Failure V
  timed_out : Json → Failure V
  application : V → Failure V

-- What a waiting call finds in its response when its event is set.
pub data Answer : Type 0 where
  reply : Fields → Answer
  transport_error : Answer

-- The work of the completion lane.
pub data Task : Type 0 where
  accepts : ℕ → Task
  runs : ℕ → Option Json → Option Json → Task
  completes : ℕ → Message → Task
  rejects : ℕ → Fields → Task
  fails : ℕ → RemoteError → Task

-- The thread of `_sender_loop`: between two items; with an item that is marked as sent; with the
-- socket in hand; at its end.
pub data Sender : Type 0 where
  idle : Sender
  marked ready : Option ℕ → Message → Sender
  stopped : Sender

-- What the serializer's `loads` gives: a value, or an exception, which may be one of this library.
pub data Loaded (V : Type 0) : Type 0 where
  loaded : V → Loaded V
  raises : Loaded V
  raises_remote : RemoteError → Loaded V

-- What the client is set up with. `decimal` is Python's text of an integer, `is_exception` the test of a loaded value.
pub record Setup (V : Type 0) : Type 0 where
  pub limits : Limits
  pub decimal : ℕ → String
  pub loads : List ℕ → Loaded V
  pub is_exception : V → Bool
  pub sha256 : List ℕ → String
  pub validate_control : Fields → Bool

-- `DeadpoolClient`. `connected` tells whether there is a socket; `answers` holds the responses of the
-- waiting calls whose event is set; `failing` are the futures that `_connection_lost` has yet to look
-- at, `abandoned` those whose submission raised; `sent` is what went out over the socket and `called`
-- the callbacks that futures handed out, latest first.
pub record Client (V : Type 0) : Type 0 where
  pub client_id : String
  pub pid : ℕ
  pub sequence : ℕ
  pub connected : Bool
  pub transport_failed : Bool
  pub closed : Bool
  pub futures : List (String × ℕ)
  pub table : List (ℕ × RemoteFuture V (Failure V))
  pub terminal_received : List String
  pub rpc : List String
  pub answers : List (String × Answer)
  pub outbound : List (Option (Option ℕ × Message))
  pub lane : List Task
  pub lane_open : Bool
  pub failing : List ℕ
  pub abandoned : List ℕ
  pub sender : Sender
  pub sent : List (Option ℕ × Message)
  pub called : List (List ℕ)

-- The future of a request.
abbrev pub RequestFuture : Type 0 → Type 0
RequestFuture V = RemoteFuture V (Failure V)

module _ {V : Type 0} where
  -- The client as `__init__` leaves it, with the connection that `_connect` made.
  unfoldable pub new_client : String → ℕ → Client V
  new_client client_id pid = record {
    client_id = client_id;
    pid = pid;
    sequence = 0;
    connected = true;
    transport_failed = false;
    closed = false;
    futures = [];
    table = [];
    terminal_received = [];
    rpc = [];
    answers = [];
    outbound = [];
    lane = [];
    lane_open = true;
    failing = [];
    abandoned = [];
    sender = idle;
    sent = [];
    called = [];
  }

  -- f"{self._client_id}:{self._sequence}"
  abbrev pub request_id_of : Setup V → String → ℕ → String
  request_id_of e client_id sequence = append client_id (append ":" (e.decimal sequence))

  abbrev pub write : ℕ → RequestFuture V → Client V → Client V
  write ref f c = record c { table = insert ref f c.table }

  -- A call of one of a future's methods that returns nothing.
  unfoldable pub on_future : ℕ → (RequestFuture V → RequestFuture V) → Client V → Client V
  on_future ref g c = elim (lookup ref c.table) [ none ↦ c | some f ↦ write ref (g f) c ]

  -- A call that settles a future and hands out its callbacks.
  unfoldable pub settling : ℕ → (RequestFuture V → List ℕ × RequestFuture V) → Client V → Client V
  settling ref g c = elim (lookup ref c.table) [
    | none ↦ c
    | some f ↦ record c { table = insert ref (g f).1 c.table; called = (g f).0 ∷ c.called }
  ]

  -- `_forget`
  unfoldable pub forget : ℕ → Client V → Client V
  forget ref c = elim (lookup ref c.table) [
    | none ↦ c
    | some f ↦ record c { futures = delete f.request_id c.futures }
  ]

  -- self._outbound.put(...), where the queue has room; `none` is queue.Full
  unfoldable pub put_outbound : Limits → Option (Option ℕ × Message) → Client V → Option (Client V)
  put_outbound l item c =
      if ltb (length c.outbound) l.outbound_queue_size
      then some (record c { outbound = c.outbound ++ item ∷ [] })
      else none
