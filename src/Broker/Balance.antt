-- ===== src/Broker/Balance.antt =====
-- The books that the broker of deadpool/remote/server.py keeps of reserved outcomes, and the changes of
-- one record or one session that keep them.
use deadpool.Base.{ℕ, ◌≤◌, ◌≡◌, none, some, arith, length, if◌then◌else◌, ◌==◌}
use deadpool.Dict.{lookup, insert, nat_key}
use deadpool.Dict.Laws.{lookup-insert, length-insert}
use deadpool.Dict.Sums.{total, total-insert}
use deadpool.Broker.State.{Broker, Request, Session, Setup}
use deadpool.Broker.Step.{Opens, Keeps, SameReserved, SameTotals}

-- The reservation that a record holds in a session, as a number of outcomes and of bytes.
abbrev pub held : ℕ → ℕ → Request → ℕ
held sid ref r = if r.reservation_released then 0 else if r.session_id == sid then 1 else 0

abbrev pub held_bytes : ℕ → ℕ → Request → ℕ
held_bytes sid ref r =
    if r.reservation_released then 0 else if r.session_id == sid then r.reserved_result_bytes else 0

abbrev pub outcomes_of : ℕ → Session → ℕ
outcomes_of sid s = s.reserved_outcomes

abbrev pub bytes_of : ℕ → Session → ℕ
bytes_of sid s = s.reserved_outcome_bytes

-- Records and sessions are numbered from 0; no record is of a session to come; a session's reservations are those that its records hold, and the
-- server's are the sessions' together.
pub record IsBalanced (b : Broker) : Type 0 where
  pub numbered : (ref : ℕ) → length b.records ≤ ref → lookup ref b.records ≡ none
  pub sessions_numbered : (sid : ℕ) → length b.sessions ≤ sid → lookup sid b.sessions ≡ none
  pub unopened :
      (sid : ℕ)
      → lookup sid b.sessions ≡ none
      → (total (held sid) b.records ≡ 0) × (total (held_bytes sid) b.records ≡ 0)
  pub outcomes :
      (sid : ℕ) (s : Session)
      → lookup sid b.sessions ≡ some s
      → s.reserved_outcomes ≡ total (held sid) b.records
  pub bytes :
      (sid : ℕ) (s : Session)
      → lookup sid b.sessions ≡ some s
      → s.reserved_outcome_bytes ≡ total (held_bytes sid) b.records
  pub all_outcomes : total outcomes_of b.sessions ≡ b.reserved_outcomes
  pub all_bytes : total bytes_of b.sessions ≡ b.reserved_outcome_bytes

module _ (e : Setup) where
  pub rewrite-IsBalanced :
      {b b' : Broker} (ref : ℕ) (r r' : Request)
      → lookup ref b.records ≡ some r
      → Keeps r r'
      → b'.records ≡ insert ref r' b.records
      → b'.sessions ≡ b.sessions
      → (b'.reserved_outcomes ≡ b.reserved_outcomes)
        × (b'.reserved_outcome_bytes ≡ b.reserved_outcome_bytes)
      → IsBalanced b
      → IsBalanced b'
  rewrite-IsBalanced {b} {b'} ref r r' eq k hr hs ht v = record {
    numbered = λ j le.
        ground (
          arith,
          v.numbered j,
          hr,
          lookup-insert ref j r' b.records,
          length-insert ref r' b.records,
        );
    sessions_numbered = λ j le. ground (arith, v.sessions_numbered j, hs);
    unopened = λ sid h. ground (
      arith,
      v.unopened sid,
      hr,
      hs,
      k.session_id,
      k.reserved,
      k.released,
      total-insert (held sid) ref r' b.records,
      total-insert (held_bytes sid) ref r' b.records,
    );
    outcomes = λ sid s h. ground (
      arith,
      v.outcomes sid s,
      hr,
      hs,
      k.session_id,
      k.reserved,
      k.released,
      total-insert (held sid) ref r' b.records,
    );
    bytes = λ sid s h. ground (
      arith,
      v.bytes sid s,
      hr,
      hs,
      k.session_id,
      k.reserved,
      k.released,
      total-insert (held_bytes sid) ref r' b.records,
    );
    all_outcomes = ground (arith, hs, ht, v.all_outcomes);
    all_bytes = ground (arith, hs, ht, v.all_bytes);
  }

  pub update-IsBalanced :
      {b b' : Broker} (sid : ℕ) (s s' : Session)
      → lookup sid b.sessions ≡ some s
      → SameReserved s s'
      → b'.records ≡ b.records
      → b'.sessions ≡ insert sid s' b.sessions
      → SameTotals b b'
      → IsBalanced b
      → IsBalanced b'
  update-IsBalanced {b} {b'} sid s s' eq k hr hs ht v = record {
    numbered = λ j le. ground (arith, v.numbered j, hr);
    sessions_numbered = λ j le. ground (
      arith,
      v.sessions_numbered j,
      eq,
      hs,
      lookup-insert sid j s' b.sessions,
      length-insert sid s' b.sessions,
    );
    unopened = λ j h. ground (arith, v.unopened j, hr, hs, lookup-insert sid j s' b.sessions);
    outcomes = λ j t h.
        ground (
          arith,
          v.outcomes sid s eq,
          v.outcomes j t,
          hr,
          hs,
          k,
          lookup-insert sid j s' b.sessions,
        );
    bytes = λ j t h.
        ground (arith, v.bytes sid s eq, v.bytes j t, hr, hs, k, lookup-insert sid j s' b.sessions);
    all_outcomes =
        ground (arith, hs, ht, k, v.all_outcomes, total-insert outcomes_of sid s' b.sessions);
    all_bytes = ground (arith, hs, ht, k, v.all_bytes, total-insert bytes_of sid s' b.sessions);
  }

  pub opened-IsBalanced :
      {b b' : Broker} (s : Session)
      → Opens e s b
      → b'.records ≡ b.records
      → b'.sessions ≡ insert (length b.sessions) s b.sessions
      → SameTotals b b'
      → IsBalanced b
      → IsBalanced b'
  opened-IsBalanced {b} {b'} s k hr hs ht v =
      let sid = length b.sessions in
      let new = v.sessions_numbered sid (omega arith) in
      record {
        numbered = λ j le. ground (arith, v.numbered j, hr);
        sessions_numbered = λ j le. ground (
          arith,
          v.sessions_numbered j,
          new,
          hs,
          lookup-insert sid j s b.sessions,
          length-insert sid s b.sessions,
        );
        unopened = λ j h. ground (arith, v.unopened j, hr, hs, lookup-insert sid j s b.sessions);
        outcomes = λ j t h. ground (
          arith,
          v.outcomes j t,
          v.unopened sid new,
          hr,
          hs,
          k.outcomes,
          lookup-insert sid j s b.sessions,
        );
        bytes = λ j t h. ground (
          arith,
          v.bytes j t,
          v.unopened sid new,
          hr,
          hs,
          k.bytes,
          lookup-insert sid j s b.sessions,
        );
        all_outcomes = ground (
          arith,
          hs,
          ht,
          new,
          k.outcomes,
          v.all_outcomes,
          total-insert outcomes_of sid s b.sessions,
        );
        all_bytes =
            ground
              (arith, hs, ht, new, k.bytes, v.all_bytes, total-insert bytes_of sid s b.sessions);
      }
