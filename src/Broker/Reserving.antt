-- ===== src/Broker/Reserving.antt =====
-- A reservation taken and one given back keep the books of deadpool/remote/server.py.
use deadpool.Base.{ℕ, ◌≡◌, some, arith, length}
use deadpool.Dict.{lookup, insert, nat_key}
use deadpool.Dict.Laws.{lookup-insert, length-insert}
use deadpool.Dict.Sums.{total-insert, entry-le-total}
use deadpool.Broker.State.{Broker, Request, Session, Setup}
use deadpool.Broker.Step.{Releases, Reserves}
use deadpool.Broker.Balance.{held, held_bytes, outcomes_of, bytes_of, IsBalanced}

module _ (e : Setup) where
  pub release-IsBalanced :
      {b b' : Broker} (sid ref : ℕ) (s s' : Session) (r r' : Request)
      → lookup sid b.sessions ≡ some s
      → lookup ref b.records ≡ some r
      → Releases sid s s' r r' b b'
      → b'.records ≡ insert ref r' b.records
      → b'.sessions ≡ insert sid s' b.sessions
      → IsBalanced b
      → IsBalanced b'
  release-IsBalanced {b} {b'} sid ref s s' r r' eq er k hr hs v = record {
    numbered = λ j le.
        ground (
          arith,
          v.numbered j,
          hr,
          lookup-insert ref j r' b.records,
          length-insert ref r' b.records,
        );
    sessions_numbered = λ j le. ground (
      arith,
      v.sessions_numbered j,
      eq,
      hs,
      lookup-insert sid j s' b.sessions,
      length-insert sid s' b.sessions,
    );
    unopened = λ j h. ground (
      arith,
      v.unopened j,
      hr,
      hs,
      eq,
      er,
      k.session_id,
      k.held,
      k.freed,
      lookup-insert sid j s' b.sessions,
      total-insert (held j) ref r' b.records,
      total-insert (held_bytes j) ref r' b.records,
    );
    outcomes = λ j t h. ground (
      arith,
      v.outcomes sid s eq,
      v.outcomes j t,
      hr,
      hs,
      k.session_id,
      k.held,
      k.freed,
      k.count,
      lookup-insert sid j s' b.sessions,
      total-insert (held j) ref r' b.records,
      entry-le-total (held j) ref b.records,
    );
    bytes = λ j t h. ground (
      arith,
      v.bytes sid s eq,
      v.bytes j t,
      hr,
      hs,
      k.session_id,
      k.held,
      k.freed,
      k.bytes,
      lookup-insert sid j s' b.sessions,
      total-insert (held_bytes j) ref r' b.records,
      entry-le-total (held_bytes j) ref b.records,
    );
    all_outcomes = ground (
      arith,
      hs,
      k.total_count,
      k.session_id,
      k.held,
      k.count,
      v.all_outcomes,
      v.outcomes sid s eq,
      total-insert outcomes_of sid s' b.sessions,
      entry-le-total (held sid) ref b.records,
    );
    all_bytes = ground (
      arith,
      hs,
      k.total_bytes,
      k.session_id,
      k.held,
      k.bytes,
      v.all_bytes,
      v.bytes sid s eq,
      total-insert bytes_of sid s' b.sessions,
      entry-le-total (held_bytes sid) ref b.records,
    );
  }

  pub reserve-IsBalanced :
      {b b' : Broker} (sid : ℕ) (s s' : Session) (r : Request)
      → lookup sid b.sessions ≡ some s
      → Reserves e sid s s' r b b'
      → b'.records ≡ insert (length b.records) r b.records
      → b'.sessions ≡ insert sid s' b.sessions
      → IsBalanced b
      → IsBalanced b'
  reserve-IsBalanced {b} {b'} sid s s' r eq k hr hs v =
      let ref = length b.records in
      let new = v.numbered ref (omega arith) in
      record {
        numbered = λ j le. ground (
          arith,
          v.numbered j,
          hr,
          new,
          lookup-insert ref j r b.records,
          length-insert ref r b.records,
        );
        sessions_numbered = λ j le. ground (
          arith,
          v.sessions_numbered j,
          eq,
          hs,
          lookup-insert sid j s' b.sessions,
          length-insert sid s' b.sessions,
        );
        unopened = λ j h. ground (
          arith,
          v.unopened j,
          hr,
          hs,
          eq,
          new,
          k.session_id,
          k.held,
          lookup-insert sid j s' b.sessions,
          total-insert (held j) ref r b.records,
          total-insert (held_bytes j) ref r b.records,
        );
        outcomes = λ j t h. ground (
          arith,
          v.outcomes sid s eq,
          v.outcomes j t,
          hr,
          hs,
          new,
          k.session_id,
          k.held,
          k.count,
          lookup-insert sid j s' b.sessions,
          total-insert (held j) ref r b.records,
        );
        bytes = λ j t h. ground (
          arith,
          v.bytes sid s eq,
          v.bytes j t,
          hr,
          hs,
          new,
          k.session_id,
          k.held,
          k.bytes,
          lookup-insert sid j s' b.sessions,
          total-insert (held_bytes j) ref r b.records,
        );
        all_outcomes = ground (
          arith,
          hs,
          k.total_count,
          k.count,
          v.all_outcomes,
          total-insert outcomes_of sid s' b.sessions,
        );
        all_bytes = ground (
          arith,
          hs,
          k.total_bytes,
          k.bytes,
          v.all_bytes,
          total-insert bytes_of sid s' b.sessions,
        );
      }
