-- ===== src/Broker/Connections.antt =====
-- The sessions of one principal in deadpool/remote/server.py: never more than the limits allow,
-- whatever connects, disconnects and happens otherwise.
use deadpool.Base.{ℕ, ◌≤◌, ◌≡◌, true, none, some, String, List, arith, length}
use deadpool.Dict.{lookup, insert, nat_key}
use deadpool.Dict.Sums.{total-insert}
use deadpool.Broker.State.{Broker, Session, Setup, same}
use deadpool.Broker.Sessions.{is_of, principal_connections}
use deadpool.Broker.Step.{
  Step, frame, rewrite, update, release, reserve, opens, Opens, Stays, Steps-induction,
}
use deadpool.Broker.Balance.{IsBalanced}
use deadpool.Broker.Books.{Step-IsBalanced, new_broker-IsBalanced}
use deadpool.Broker.Events.{Event, new_broker, run, run-Steps}

abbrev IsRoomy : Setup → Broker → Type 0
IsRoomy e b =
    (principal : String)
    → principal_connections principal b ≤ e.limits.max_connections_per_principal

is_of-Stays :
    (principal : String) (sid : ℕ) (s s' : Session)
    → Stays s s'
    → is_of principal sid s' ≤ is_of principal sid s
is_of-Stays principal sid s s' h = ground (arith, h)

-- A session that stays its principal's takes no more room than before.
update-IsRoomy :
    (e : Setup) (b b' : Broker) (sid : ℕ) (s s' : Session)
    → lookup sid b.sessions ≡ some s
    → Stays s s'
    → b'.sessions ≡ insert sid s' b.sessions
    → IsRoomy e b
    → IsRoomy e b'
update-IsRoomy e b b' sid s s' eq k hs v principal = ground (
  arith,
  hs,
  eq,
  v principal,
  is_of-Stays principal sid s s' k,
  total-insert (is_of principal) sid s' b.sessions,
)

same_sound : (s t : String) → same s t ≡ true → s ≡ t
same_sound s t h = ground (arith, h)

-- A new session takes one place, of its own principal alone.
opened-IsRoomy :
    (e : Setup) (b b' : Broker) (s : Session)
    → Opens e s b
    → lookup (length b.sessions) b.sessions ≡ none
    → b'.sessions ≡ insert (length b.sessions) s b.sessions
    → IsRoomy e b
    → IsRoomy e b'
opened-IsRoomy e b b' s k new hs v principal = ground (
  arith,
  hs,
  new,
  k.room,
  v principal,
  same_sound s.principal principal,
  total-insert (is_of principal) (length b.sessions) s b.sessions,
)

module _ (e : Setup) where
  Step-IsRoomy : (b b' : Broker) → Step e b b' → IsBalanced b → IsRoomy e b → IsRoomy e b'
  Step-IsRoomy b b' (frame hr hs ht) v w = λ principal. ground (arith, hs, w principal)
  Step-IsRoomy b b' (rewrite ref r r' eq k hr hs ht) v w =
      λ principal. ground (arith, hs, w principal)
  Step-IsRoomy b b' (update sid s s' eq k hr hs ht) v w = update-IsRoomy e b b' sid s s' eq k.3 hs w
  Step-IsRoomy b b' (release sid ref s s' r r' eq er k hr hs) v w =
      update-IsRoomy e b b' sid s s' eq k.stays hs w
  Step-IsRoomy b b' (reserve sid s s' r eq k hr hs) v w =
      update-IsRoomy e b b' sid s s' eq k.stays hs w
  Step-IsRoomy b b' (opens s k hr hs ht) v w =
      opened-IsRoomy e b b' s k (v.sessions_numbered (length b.sessions) (omega arith)) hs w

  new_broker-IsRoomy : IsRoomy e new_broker
  unfolding new_broker
  new_broker-IsRoomy principal = omega arith

  -- Whatever happens to a broker since its start, its books balance, and no principal ever has more
  -- live sessions than the limits allow.
  pub run_new-within :
      (vs : List Event) (principal : String)
      → IsBalanced (run e vs new_broker)
        × (principal_connections principal (run e vs new_broker)
            ≤ e.limits.max_connections_per_principal)
  run_new-within vs principal =
      let (balanced, roomy) =
        Steps-induction (λ b. IsBalanced b × IsRoomy e b)
          (λ x y s p. (Step-IsBalanced e x y s p.0, Step-IsRoomy x y s p.0 p.1))
          (run-Steps e vs new_broker) (new_broker-IsBalanced e, new_broker-IsRoomy) in
      (balanced, roomy principal)
