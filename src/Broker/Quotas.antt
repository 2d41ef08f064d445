-- ===== src/Broker/Quotas.antt =====
-- The quotas that `_submit` of deadpool/remote/server.py keeps: no session and not the server reserve
-- more outcomes, or more bytes of them, than the limits allow.
use deadpool.Base.{ℕ, ◌+◌, ◌≤◌, ◌<◌, ◌≡◌, false, some, List, arith, ℕ_discrete, subst, length}
use deadpool.Dict.{lookup, insert, nat_key}
use deadpool.Dict.Laws.{lookup-insert}
use deadpool.Config.Limits.{Limits}
use deadpool.Broker.State.{Broker, Session, Setup}
use deadpool.Broker.Step.{Step, frame, rewrite, update, release, reserve, opens, Steps-induction}
use deadpool.Broker.Submit.{over_quota}
use deadpool.Broker.Events.{Event, run, run-Steps}

pub record SessionWithin (l : Limits) (s : Session) : Type 0 where
  pub outcomes : s.reserved_outcomes ≤ l.max_retained_outcomes_per_session
  pub bytes : s.reserved_outcome_bytes ≤ l.max_retained_outcome_bytes_per_session

pub record IsWithin (l : Limits) (b : Broker) : Type 0 where
  pub each : (sid : ℕ) (s : Session) → lookup sid b.sessions ≡ some s → SessionWithin l s
  pub outcomes : b.reserved_outcomes ≤ l.max_retained_outcomes_global
  pub bytes : b.reserved_outcome_bytes ≤ l.max_retained_outcome_bytes_global

-- What a submission that is within the quotas leaves room for.
record Room (l : Limits) (s : Session) (b : Broker) : Type 0 where
  outcomes : s.reserved_outcomes < l.max_retained_outcomes_per_session
  bytes : s.reserved_outcome_bytes + s.max_result_bytes ≤ l.max_retained_outcome_bytes_per_session
  all_outcomes : b.reserved_outcomes < l.max_retained_outcomes_global
  all_bytes : b.reserved_outcome_bytes + s.max_result_bytes ≤ l.max_retained_outcome_bytes_global

over_quota-Room : (l : Limits) (s : Session) (b : Broker) → over_quota l s b ≡ false → Room l s b
unfolding over_quota
over_quota-Room l s b h = record {
  outcomes = ground arith;
  bytes = ground arith;
  all_outcomes = ground arith;
  all_bytes = ground arith;
}

-- A session within the quotas is replaced by another.
put-within :
    (l : Limits) (sid : ℕ) (s' : Session) (b b' : Broker)
    → b'.sessions ≡ insert sid s' b.sessions
    → SessionWithin l s'
    → ((j : ℕ) (t : Session) → lookup j b.sessions ≡ some t → SessionWithin l t)
    → (j : ℕ) (t : Session) → lookup j b'.sessions ≡ some t
    → SessionWithin l t
put-within l sid s' b b' hs w each j t h = elim (ℕ_discrete sid j) [
  | yes p ↦
      let same : s' ≡ t = ground (arith, p, h, hs, lookup-insert sid j s' b.sessions) in
      subst (SessionWithin l) same w
  | no n ↦ each j t (ground (arith, n, h, hs, lookup-insert sid j s' b.sessions))
]

module _ (e : Setup) where
  Step-IsWithin : (b b' : Broker) → Step e b b' → IsWithin e.limits b → IsWithin e.limits b'
  Step-IsWithin b b' (frame hr hs ht) v = record {
    each = λ j t h. v.each j t (ground (arith, h, hs));
    outcomes = ground (arith, ht, v.outcomes);
    bytes = ground (arith, ht, v.bytes);
  }
  Step-IsWithin b b' (rewrite ref r r' eq k hr hs ht) v = record {
    each = λ j t h. v.each j t (ground (arith, h, hs));
    outcomes = ground (arith, ht, v.outcomes);
    bytes = ground (arith, ht, v.bytes);
  }
  Step-IsWithin b b' (update sid s s' eq k hr hs ht) v =
      let w = v.each sid s eq in
      let w' : SessionWithin e.limits s' = record {
        outcomes = ground (arith, k, w.outcomes);
        bytes = ground (arith, k, w.bytes);
      } in
      record {
        each = put-within e.limits sid s' b b' hs w' v.each;
        outcomes = ground (arith, ht, v.outcomes);
        bytes = ground (arith, ht, v.bytes);
      }
  Step-IsWithin b b' (release sid ref s s' r r' eq er k hr hs) v =
      let w = v.each sid s eq in
      let w' : SessionWithin e.limits s' = record {
        outcomes = omega (arith, k.count, w.outcomes);
        bytes = omega (arith, k.bytes, w.bytes);
      } in
      record {
        each = put-within e.limits sid s' b b' hs w' v.each;
        outcomes = omega (arith, k.total_count, v.outcomes);
        bytes = omega (arith, k.total_bytes, v.bytes);
      }
  Step-IsWithin b b' (reserve sid s s' r eq k hr hs) v =
      let room = over_quota-Room e.limits s b k.quota in
      let w' : SessionWithin e.limits s' = record {
        outcomes = omega (arith, k.count, room.outcomes);
        bytes = omega (arith, k.bytes, k.size, room.bytes);
      } in
      record {
        each = put-within e.limits sid s' b b' hs w' v.each;
        outcomes = omega (arith, k.total_count, room.all_outcomes);
        bytes = omega (arith, k.total_bytes, k.size, room.all_bytes);
      }
  Step-IsWithin b b' (opens s k hr hs ht) v =
      let w : SessionWithin e.limits s = record {
        outcomes = omega (arith, k.outcomes);
        bytes = omega (arith, k.bytes);
      } in
      record {
        each = put-within e.limits (length b.sessions) s b b' hs w v.each;
        outcomes = ground (arith, ht, v.outcomes);
        bytes = ground (arith, ht, v.bytes);
      }

  -- Whatever happens under the lock, no session and not the server ever have more outcomes reserved, or
  -- more bytes of outcomes, than the limits allow, if they had not before.
  pub run-IsWithin :
      (vs : List Event) (b : Broker) → IsWithin e.limits b → IsWithin e.limits (run e vs b)
  run-IsWithin vs b v = Steps-induction (IsWithin e.limits) Step-IsWithin (run-Steps e vs b) v
