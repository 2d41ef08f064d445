-- ===== src/Broker/GroupEnd.antt =====
-- What `_cancel_group` of deadpool/remote/server.py is to do to the requests of a group, and to count.
pub mod Ending
pub mod Turn
pub mod Counts
use deadpool.Base.{
  ℕ, ◌+◌, ◌≡◌, Bool, true, false, not, Option, none, some, List, [], ◌∷◌, All, ◌⊎◌, ◌&&◌, ◌||◌,
  if◌then◌else◌,
}
use deadpool.Dict.{lookup, nat_key}
use deadpool.Protocol.Frame.{MessageType}
use deadpool.Scheduler.{FairScheduler, remove_item}
use deadpool.Broker.State.{Broker, Request, RequestState, cancelled, is_terminal}
use deadpool.Broker.Cancel.{is_queued, is_running}
use deadpool.Broker.Groups.{GroupCounts}

-- The state of a request passes a test.
abbrev pub at : (RequestState → Bool) → ℕ → Broker → Bool
at f ref b = elim (lookup ref b.records) [ none ↦ false | some r ↦ f r.state ]

-- The requests that pass a test.
abbrev pub count_at : (RequestState → Bool) → List ℕ → Broker → ℕ
count_at f [] b = 0
count_at f (ref ∷ refs) b = (if at f ref b then 1 else 0) + count_at f refs b

-- A scheduler without those requests that are queued.
abbrev pub without_queued : List ℕ → Broker → FairScheduler ℕ → FairScheduler ℕ
without_queued [] b q = q
without_queued (ref ∷ refs) b q =
    without_queued refs b (if at is_queued ref b then (remove_item ref q).1 else q)

-- What a cancellation ends, where it is a hard one or not, and what it leaves running.
abbrev pub ends : Bool → RequestState → Bool
ends hard s = is_queued s || (hard && is_running s)

abbrev pub spares : Bool → RequestState → Bool
spares hard s = is_running s && not hard

-- A request is as it was, or it was to be ended and is cancelled.
abbrev pub Fate : Bool → Broker → Broker → ℕ → Type 0
Fate hard b b' ref =
    ((at (ends hard) ref b ≡ false) × (lookup ref b'.records ≡ lookup ref b.records))
    ⊎ ((at (ends hard) ref b ≡ true)
        × (r : Request) × (lookup ref b'.records ≡ some r)
        × (r.state ≡ cancelled)
        × (r.terminal_kind ≡ some MessageType.cancelled))

-- No request is listed twice.
abbrev pub Other : ℕ → ℕ → Type 0
Other ref i = ¬ (ref ≡ i)

abbrev pub Distinct : List ℕ → Type 0
Distinct [] = Unit
Distinct (ref ∷ refs) = All (Other ref) refs × Distinct refs

-- What the cancellation of a group counts and changes.
pub record GroupEnded (hard : Bool) (refs : List ℕ) (k : GroupCounts) (b : Broker)
    (x : GroupCounts × Broker) : Type 0 where
  pub cancelled : x.0.cancelled ≡ k.cancelled + count_at (ends hard) refs b
  pub running : x.0.running ≡ k.running + count_at (spares hard) refs b
  pub terminal : x.0.terminal ≡ k.terminal + count_at is_terminal refs b
  pub fates : All (Fate hard b x.1) refs
  pub scheduler : x.1.scheduler ≡ without_queued refs b b.scheduler
