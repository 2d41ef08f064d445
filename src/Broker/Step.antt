-- ===== src/Broker/Step.antt =====
-- The changes that the handlers of deadpool/remote/server.py make to requests, sessions and
-- reservations: each handler is a sequence of these steps, so what the steps keep the broker keeps.

use deadpool.Base.{ℕ, ◌+◌, ◌-◌, ◌≤◌, ◌≡◌, true, false, some, [], ◌⊎◌, length, leb}
use deadpool.Dict.{lookup, insert, nat_key, text_key}
use deadpool.Broker.State.{Broker, Request, Session, Setup, RequestState, is_terminal}
use deadpool.Broker.Cancel.{is_queued}
use deadpool.Broker.Submit.{over_quota}
use deadpool.Broker.Sessions.{principal_connections}

-- A state stays, or an open request moves on, and never back to the queue.
abbrev pub Advances : RequestState → RequestState → Type 0
Advances s t = (s ≡ t) ⊎ ((is_terminal s ≡ false) × (is_queued t ≡ false))

-- The payload of an outcome stays, or is dropped where the reservation was given up.
abbrev pub KeepsPayload : Request → Request → Type 0
KeepsPayload r r' =
    (r'.terminal_payload ≡ r.terminal_payload)
    ⊎ ((r'.terminal_payload ≡ []) × (r'.reservation_released ≡ true))

-- A terminal record stays in its state with its message and its payload.
abbrev pub KeepsOutcome : Request → Request → Type 0
KeepsOutcome r r' =
    is_terminal r.state ≡ true
    → (r'.terminal_kind ≡ r.terminal_kind)
      × (r'.terminal_control ≡ r.terminal_control)
      × (KeepsPayload r r')

-- What a change of a record keeps: its reservation, and its outcome once it has one.
pub record Keeps (r r' : Request) : Type 0 where
  pub session_id : r'.session_id ≡ r.session_id
  pub reserved : r'.reserved_result_bytes ≡ r.reserved_result_bytes
  pub released : r'.reservation_released ≡ r.reservation_released
  pub advances : Advances r.state r'.state
  pub outcome : KeepsOutcome r r'

-- A session stays its principal's, and does not come back once it is gone.
abbrev pub Stays : Session → Session → Type 0
Stays s s' =
    (s'.principal ≡ s.principal) × (s'.registered_session ≡ true → s.registered_session ≡ true)

-- What a change of a session keeps.
abbrev pub SameReserved : Session → Session → Type 0
SameReserved s s' =
    (s'.reserved_outcomes ≡ s.reserved_outcomes)
    × (s'.reserved_outcome_bytes ≡ s.reserved_outcome_bytes)
    × (s.watermark ≤ s'.watermark)
    × (Stays s s')

-- The reservations of the server are the same.
abbrev pub SameTotals : Broker → Broker → Type 0
SameTotals b b' =
    (b'.reserved_outcomes ≡ b.reserved_outcomes)
    × (b'.reserved_outcome_bytes ≡ b.reserved_outcome_bytes)

-- A record gives up its reservation in its session.
pub record Releases (sid : ℕ) (s s' : Session) (r r' : Request) (b b' : Broker) : Type 0 where
  pub session_id : r.session_id ≡ sid
  pub held : r.reservation_released ≡ false
  pub freed : r' ≡ record r { reservation_released = true }
  pub count : s'.reserved_outcomes ≡ s.reserved_outcomes - 1
  pub bytes : s'.reserved_outcome_bytes ≡ s.reserved_outcome_bytes - r.reserved_result_bytes
  pub watermark : s'.watermark ≡ s.watermark
  pub stays : Stays s s'
  pub total_count : b'.reserved_outcomes ≡ b.reserved_outcomes - 1
  pub total_bytes : b'.reserved_outcome_bytes ≡ b.reserved_outcome_bytes - r.reserved_result_bytes

-- A record takes a reservation in its session, within the quotas.
pub record Reserves (e : Setup) (sid : ℕ) (s s' : Session) (r : Request) (b b' : Broker)
    : Type 0 where
  pub session_id : r.session_id ≡ sid
  pub held : r.reservation_released ≡ false
  pub size : r.reserved_result_bytes ≡ s.max_result_bytes
  pub quota : over_quota e.limits s b ≡ false
  pub count : s'.reserved_outcomes ≡ s.reserved_outcomes + 1
  pub bytes : s'.reserved_outcome_bytes ≡ s.reserved_outcome_bytes + r.reserved_result_bytes
  pub watermark : s'.watermark ≡ s.watermark
  pub stays : Stays s s'
  pub total_count : b'.reserved_outcomes ≡ b.reserved_outcomes + 1
  pub total_bytes : b'.reserved_outcome_bytes ≡ b.reserved_outcome_bytes + r.reserved_result_bytes

-- A session without reservations, of a principal with room for another.
pub record Opens (e : Setup) (s : Session) (b : Broker) : Type 0 where
  pub outcomes : s.reserved_outcomes ≡ 0
  pub bytes : s.reserved_outcome_bytes ≡ 0
  pub room :
      leb e.limits.max_connections_per_principal (principal_connections s.principal b) ≡ false

pub data Step (e : Setup) : Broker → Broker → Type 0 where
  frame :
      {b b' : Broker}
      → b'.records ≡ b.records
      → b'.sessions ≡ b.sessions
      → SameTotals b b'
      → Step e b b'
  rewrite :
      {b b' : Broker} (ref : ℕ) (r r' : Request)
      → lookup ref b.records ≡ some r
      → Keeps r r'
      → b'.records ≡ insert ref r' b.records
      → b'.sessions ≡ b.sessions
      → SameTotals b b'
      → Step e b b'
  update :
      {b b' : Broker} (sid : ℕ) (s s' : Session)
      → lookup sid b.sessions ≡ some s
      → SameReserved s s'
      → b'.records ≡ b.records
      → b'.sessions ≡ insert sid s' b.sessions
      → SameTotals b b'
      → Step e b b'
  release :
      {b b' : Broker} (sid ref : ℕ) (s s' : Session) (r r' : Request)
      → lookup sid b.sessions ≡ some s
      → lookup ref b.records ≡ some r
      → Releases sid s s' r r' b b'
      → b'.records ≡ insert ref r' b.records
      → b'.sessions ≡ insert sid s' b.sessions
      → Step e b b'
  reserve :
      {b b' : Broker} (sid : ℕ) (s s' : Session) (r : Request)
      → lookup sid b.sessions ≡ some s
      → Reserves e sid s s' r b b'
      → b'.records ≡ insert (length b.records) r b.records
      → b'.sessions ≡ insert sid s' b.sessions
      → Step e b b'
  opens :
      {b b' : Broker} (s : Session)
      → Opens e s b
      → b'.records ≡ b.records
      → b'.sessions ≡ insert (length b.sessions) s b.sessions
      → SameTotals b b'
      → Step e b b'

pub data Steps (e : Setup) : Broker → Broker → Type 0 where
  next :
      {before between after : Broker}
      → Step e before between
      → Steps e between after
      → Steps e before after
  done : {before : Broker} → Steps e before before

-- What one part of a handler does, and then the other.
infixr 5 ◌⨟◌
pub ◌⨟◌ :
    {e : Setup} {before between after : Broker}
    → Steps e before between
    → Steps e between after
    → Steps e before after
next first others ⨟ later = next first (others ⨟ later)
done ⨟ later = later

pub one : {e : Setup} {b c : Broker} → Step e b c → Steps e b c
one s = next s done

-- What every step keeps, every sequence of steps keeps.
pub Steps-induction :
    {e : Setup} {b c : Broker} (P : Broker → Type 0)
    → ((x y : Broker) → Step e x y → P x → P y)
    → Steps e b c
    → P b
    → P c
Steps-induction P f done h = h
Steps-induction P f (next s p) h = Steps-induction P f p (f _ _ s h)
