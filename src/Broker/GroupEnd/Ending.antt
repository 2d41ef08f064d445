-- ===== src/Broker/GroupEnd/Ending.antt =====
-- How `_cancel_group` of deadpool/remote/server.py ends one request, and what that leaves as it was.
use deadpool.Base.{
  ℕ, ◌+◌, ◌≡◌, refl, Bool, false, none, some, List, [], arith, if-case, option-case, ap, ◌∙◌,
  is_some,
}
use deadpool.Dict.{lookup, insert, nat_key}
use deadpool.Dict.Laws.{lookup-insert, lookup-insert_self}
use deadpool.Protocol.Json.{Fields}
use deadpool.Protocol.Frame.{MessageType}
use deadpool.Protocol.Reader.{Message}
use deadpool.Config.Limits.{Limits}
use deadpool.Scheduler.{remove_item}
use deadpool.Broker.State.{
  Broker, Request, Setup, Connection, cancelled, is_terminal, session_of, send, send_to, close,
  with_id,
}
use deadpool.Broker.Requests.{terminal_locked}
use deadpool.Broker.Cancel.{end_queued, end_running}
use deadpool.Broker.GroupEnd.{Other}

abbrev pub over_unix_of : ℕ → Broker → Bool
over_unix_of n b = elim (lookup n b.connections) [ none ↦ false | some c ↦ c.over_unix ]

-- What ending one request leaves as it was.
pub record Apart (n ref : ℕ) (b b' : Broker) : Type 0 where
  pub others : (i : ℕ) → Other ref i → lookup i b'.records ≡ lookup i b.records
  pub session : session_of n b' ≡ session_of n b
  pub transport : over_unix_of n b' ≡ over_unix_of n b

send-same :
    (l : Limits) (m : Message) (c : Connection)
    → ((send l m c).session ≡ c.session) × ((send l m c).over_unix ≡ c.over_unix)
unfolding send close
send-same l m c = (ground arith, ground arith)

send_to-session :
    (e : Setup) (n j : ℕ) (kind : MessageType) (control : Fields) (payload : List ℕ) (b : Broker)
    → let b' = send_to e j kind control payload b in
      (session_of n b' ≡ session_of n b) × (over_unix_of n b' ≡ over_unix_of n b)
unfolding send_to session_of
send_to-session e n j kind control payload b =
    option-case
      (λ (b' : Broker). (session_of n b' ≡ session_of n b) × (over_unix_of n b' ≡ over_unix_of n b))
      (lookup j b.connections) (λ _. (refl, refl))
      (λ c h.
        let c' = send e.limits (record { kind = kind; control = control; payload = payload }) c in
        let same =
          send-same e.limits (record { kind = kind; control = control; payload = payload }) c in
        (
          ground (arith, h, same.0, lookup-insert j n c' b.connections),
          ground (arith, h, same.1, lookup-insert j n c' b.connections),
        ))

-- A request that is not terminal ends: it is cancelled, and the rest stays.
pub record Ended (n ref : ℕ) (b b' : Broker) : Type 0 where
  pub apart : Apart n ref b b'
  pub scheduler : b'.scheduler ≡ b.scheduler
  pub request : Request
  pub found : lookup ref b'.records ≡ some request
  pub state : request.state ≡ cancelled
  pub kind : request.terminal_kind ≡ some MessageType.cancelled

module _ (e : Setup) (n : ℕ) where
  send_to-scheduler :
      (j : ℕ) (kind : MessageType) (control : Fields) (payload : List ℕ) (b : Broker)
      → ((send_to e j kind control payload b).scheduler ≡ b.scheduler)
        × ((send_to e j kind control payload b).records ≡ b.records)
  unfolding send_to
  send_to-scheduler j kind control payload b =
      option-case (λ (b' : Broker). (b'.scheduler ≡ b.scheduler) × (b'.records ≡ b.records))
        (lookup j b.connections) (λ _. (refl, refl)) (λ c _. (refl, refl))

  terminal_locked-Ended :
      (ref : ℕ) (control : Fields) (r : Request) (b : Broker)
      → lookup ref b.records ≡ some r
      → is_terminal r.state ≡ false
      → Ended n ref b (terminal_locked e ref cancelled MessageType.cancelled control [] b)
  unfolding terminal_locked session_of
  terminal_locked-Ended ref control r b h live =
      let P : Broker → Type 0 = Ended n ref b in
      option-case P (lookup ref b.records) (λ k. ground (arith, h, k))
        (λ r' k.
          let same : r' ≡ r = ground (arith, h, k) in
          if-case P (is_terminal r'.state)
            (λ t. ground (arith, live, t, ap (λ (x : Request). is_terminal x.state) same))
            (λ _.
              let ended : Request = record r' {
                state = cancelled;
                payload = [];
                terminal_kind = some MessageType.cancelled;
                terminal_control = control;
                terminal_payload = [];
              } in
              let written : Broker = record b {
                records = insert ref ended b.records;
                statistics = record (b.statistics) {
                  tasks_terminal = b.statistics.tasks_terminal + 1;
                };
              } in
              let answer = with_id r'.request_id control in
              let kept = send_to-scheduler r'.connection MessageType.cancelled answer [] written in
              let views =
                send_to-session e n r'.connection MessageType.cancelled answer [] written in
              record {
                apart = record {
                  others = λ i other.
                      ap (λ records. lookup i records) kept.1
                      ∙ ground (arith, lookup-insert ref i ended b.records, other);
                  session = views.0;
                  transport = views.1;
                };
                scheduler = kept.0;
                request = ended;
                found =
                    ap (λ records. lookup ref records) kept.1
                    ∙ lookup-insert_self ref ended b.records;
                state = refl;
                kind = refl;
              }))

  pub end_queued-Ended :
      (ref : ℕ) (r : Request) (b : Broker)
      → lookup ref b.records ≡ some r
      → is_terminal r.state ≡ false
      → let unqueued : Broker = record b { scheduler = (remove_item ref b.scheduler).1 } in
        Ended n ref unqueued
          (end_queued e ref r cancelled MessageType.cancelled "group_cancelled" b)
  unfolding end_queued session_of
  end_queued-Ended ref r b h live =
      let unqueued : Broker = record b { scheduler = (remove_item ref b.scheduler).1 } in
      let ended = terminal_locked-Ended ref _ r unqueued h live in
      if-case (Ended n ref unqueued) (is_some r.local_future)
        (λ _. record {
          apart = record {
            others = ended.apart.others;
            session = ended.apart.session;
            transport = ended.apart.transport;
          };
          scheduler = ended.scheduler;
          request = ended.request;
          found = ended.found;
          state = ended.state;
          kind = ended.kind;
        })
        (λ _. ended)

  pub end_running-Ended :
      (ref : ℕ) (r : Request) (b : Broker)
      → lookup ref b.records ≡ some r
      → is_terminal r.state ≡ false
      → Ended n ref b (end_running e ref r "group_terminated" b)
  unfolding end_running session_of
  end_running-Ended ref r b h live =
      let ended = terminal_locked-Ended ref _ r b h live in
      if-case (Ended n ref b) (is_some r.local_future)
        (λ _. record {
          apart = record {
            others = ended.apart.others;
            session = ended.apart.session;
            transport = ended.apart.transport;
          };
          scheduler = ended.scheduler;
          request = ended.request;
          found = ended.found;
          state = ended.state;
          kind = ended.kind;
        })
        (λ _. ended)
