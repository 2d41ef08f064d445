-- ===== src/Broker/Groups.antt =====
-- `_cancel_group` of deadpool/remote/server.py.
use deadpool.Base.{
  ℕ, suc, Bool, false, String, Option, none, some, List, [], ◌∷◌, ◌&&◌, if◌then◌else◌,
}
use deadpool.Dict.{lookup, values, nat_key, text_key}
use deadpool.Protocol.Json.{Json, str, Fields, end, field}
use deadpool.Protocol.Frame.{cancelled as cancelled_message, cancel_group_response}
use deadpool.Broker.State.{
  Broker, Request, Setup, RequestState, accepted_queued, running, cancelled, same, get, send_to,
  session_of, authorized,
}
use deadpool.Broker.Cancel.{truth, end_queued, end_running, or_null}
use deadpool.Broker.Sessions.{nat}

-- What `_cancel_group` counts.
pub record GroupCounts : Type 0 where
  pub cancelled : ℕ
  pub running : ℕ
  pub terminal : ℕ
  pub unknown : ℕ

-- the branches of its loop for a record
unfoldable pub group_record :
    Setup → ℕ → Fields → ℕ → Request → RequestState → GroupCounts × Broker → GroupCounts × Broker
unfolding end_queued end_running
group_record e n control ref r accepted_queued (k, b) = (
  record k { cancelled = suc k.cancelled },
  end_queued e ref r cancelled cancelled_message "group_cancelled" b,
)
group_record e n control ref r running (k, b) =
    if truth (get "hard" control) && authorized e n "hard_cancel" control b
    then (record k { cancelled = suc k.cancelled }, end_running e ref r "group_terminated" b)
    else (record k { running = suc k.running }, b)
group_record e n control ref r _ (k, b) = (record k { terminal = suc k.terminal }, b)

unfoldable pub group_records :
    Setup → ℕ → Fields → List ℕ → GroupCounts × Broker → GroupCounts × Broker
unfolding group_record
group_records e n control [] (k, b) = (k, b)
group_records e n control (ref ∷ refs) (k, b) =
    group_records e n control refs (elim (lookup ref b.records) [
      | none ↦ (k, b)
      | some r ↦ group_record e n control ref r r.state (k, b)
    ])

abbrev is_in_group : String → Option Json → Bool
is_in_group group_id (some (str s)) = same s group_id
is_in_group group_id _ = false

-- the records of a session that are of a group
unfoldable pub members : String → List ℕ → Broker → List ℕ
members group_id [] b = []
members group_id (ref ∷ refs) b =
    let rest = members group_id refs b in
    elim (lookup ref b.records) [
      | none ↦ rest
      | some r ↦ if is_in_group group_id r.group_id then ref ∷ rest else rest
    ]

abbrev pub group_of : ℕ → Option Json → Broker → List ℕ
group_of n (some (str group_id)) b = elim (session_of n b) [
  | none ↦ []
  | some (sid, s) ↦ members group_id (values s.requests) b
]
group_of n _ b = []

abbrev no_counts : ℕ → GroupCounts
no_counts unknown = record { cancelled = 0; running = 0; terminal = 0; unknown = unknown }

abbrev counts_control : GroupCounts → Json → Fields
counts_control k token = field "cancelled" (nat k.cancelled) (
    field "running" (nat k.running) (
      field "terminal" (nat k.terminal)
        (field "unknown" (nat k.unknown) (field "token" token end))))

-- the counts of `_cancel_group`, and the state afterwards
unfoldable pub end_group : Setup → ℕ → Fields → List ℕ → Broker → GroupCounts × Broker
unfolding group_records
end_group e n control [] b = (no_counts 1, b)
end_group e n control (ref ∷ refs) b = group_records e n control (ref ∷ refs) (no_counts 0, b)

-- `_cancel_group`
unfoldable pub cancel_group : Setup → ℕ → Fields → Broker → Broker
unfolding end_group members session_of
cancel_group e n control b =
    let answer = end_group e n control (group_of n (get "group_id" control) b) b in
    send_to e n cancel_group_response (counts_control answer.0 (or_null (get "token" control))) []
      answer.1
