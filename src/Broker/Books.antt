-- ===== src/Broker/Books.antt =====
-- The books that the broker of deadpool/remote/server.py keeps of reserved outcomes balance through
-- every run.
use deadpool.Base.{refl, List, arith}
use deadpool.Dict.{lookup, nat_key}
use deadpool.Broker.State.{Broker, Setup}
use deadpool.Broker.Step.{Step, frame, rewrite, update, release, reserve, opens, Steps-induction}
use deadpool.Broker.Events.{Event, new_broker, run, run-Steps}
use deadpool.Broker.Balance.{IsBalanced, rewrite-IsBalanced, update-IsBalanced, opened-IsBalanced}
use deadpool.Broker.Reserving.{release-IsBalanced, reserve-IsBalanced}

module _ (e : Setup) where
  pub Step-IsBalanced : (b b' : Broker) → Step e b b' → IsBalanced b → IsBalanced b'
  Step-IsBalanced b b' (frame hr hs ht) v = record {
    numbered = λ j le. ground (arith, v.numbered j, hr);
    sessions_numbered = λ j le. ground (arith, v.sessions_numbered j, hs);
    unopened = λ j h. ground (arith, v.unopened j, hr, hs);
    outcomes = λ j t h. ground (arith, v.outcomes j t, hr, hs);
    bytes = λ j t h. ground (arith, v.bytes j t, hr, hs);
    all_outcomes = ground (arith, hs, ht, v.all_outcomes);
    all_bytes = ground (arith, hs, ht, v.all_bytes);
  }
  Step-IsBalanced b b' (rewrite ref r r' eq k hr hs ht) v =
      rewrite-IsBalanced e ref r r' eq k hr hs ht v
  Step-IsBalanced b b' (update sid s s' eq k hr hs ht) v =
      update-IsBalanced e sid s s' eq k hr hs ht v
  Step-IsBalanced b b' (release sid ref s s' r r' eq er k hr hs) v =
      release-IsBalanced e sid ref s s' r r' eq er k hr hs v
  Step-IsBalanced b b' (reserve sid s s' r eq k hr hs) v =
      reserve-IsBalanced e sid s s' r eq k hr hs v
  Step-IsBalanced b b' (opens s k hr hs ht) v = opened-IsBalanced e s k hr hs ht v

  -- Whatever happens under the lock, books that balance stay balanced: each session counts the
  -- unreleased reservations of its own records, and the server's counts are the sum over the sessions.
  pub run-IsBalanced : (vs : List Event) (b : Broker) → IsBalanced b → IsBalanced (run e vs b)
  run-IsBalanced vs b v = Steps-induction IsBalanced Step-IsBalanced (run-Steps e vs b) v

  pub new_broker-IsBalanced : IsBalanced new_broker
  unfolding new_broker lookup
  new_broker-IsBalanced = record {
    numbered = λ ref le. refl;
    sessions_numbered = λ sid le. refl;
    unopened = λ sid h. (refl, refl);
    outcomes = λ sid s h. ground (arith, h);
    bytes = λ sid s h. ground (arith, h);
    all_outcomes = refl;
    all_bytes = refl;
  }
