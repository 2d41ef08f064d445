-- ===== src/Config/Limits.antt =====
-- `RemoteLimits` of deadpool/remote/config.py: the values that a caller gives, their validation,
-- and the numbers that the other modules read of them afterwards.
use deadpool.Base.{Bool, ℕ, ◌*◌, ◌≤◌, ◌<◌, ◌≡◌, List, [], ◌∷◌, arith, leb, All}
use deadpool.Python.{ℤ, pos, negsuc, PyValue, int, bool, float, str, none_value, nat_of}
use deadpool.Result.{Result, ok, value_error, guard, ◌>>◌, >>-eq-ok}
use deadpool.Config.{positive_int, positive}

pub record RemoteLimits : Type 0 where
  pub max_control_bytes : PyValue
  pub max_frame_payload_bytes : PyValue
  pub max_message_bytes : PyValue
  pub max_invocation_bytes : PyValue
  pub max_result_bytes : PyValue
  pub max_metadata_bytes : PyValue
  pub max_chunks : PyValue
  pub max_incomplete_messages : PyValue
  pub max_unauthenticated_connections : PyValue
  pub max_connections_global : PyValue
  pub max_connections_per_principal : PyValue
  pub max_pending_per_session : PyValue
  pub max_pending_per_principal : PyValue
  pub max_pending_global : PyValue
  pub max_retained_outcomes_per_session : PyValue
  pub max_retained_outcomes_global : PyValue
  pub max_retained_outcome_bytes_per_session : PyValue
  pub max_retained_outcome_bytes_global : PyValue
  pub max_staged_tasks : PyValue
  pub outbound_queue_size : PyValue
  pub inbound_queue_size : PyValue
  pub callback_queue_size : PyValue
  pub completion_workers : PyValue
  pub control_timeout : PyValue
  pub handshake_timeout : PyValue
  pub partial_frame_timeout : PyValue

-- The fields that are counts, read as numbers.
pub record Limits : Type 0 where
  pub max_control_bytes : ℕ
  pub max_frame_payload_bytes : ℕ
  pub max_message_bytes : ℕ
  pub max_invocation_bytes : ℕ
  pub max_result_bytes : ℕ
  pub max_metadata_bytes : ℕ
  pub max_chunks : ℕ
  pub max_incomplete_messages : ℕ
  pub max_unauthenticated_connections : ℕ
  pub max_connections_global : ℕ
  pub max_connections_per_principal : ℕ
  pub max_pending_per_session : ℕ
  pub max_pending_per_principal : ℕ
  pub max_pending_global : ℕ
  pub max_retained_outcomes_per_session : ℕ
  pub max_retained_outcomes_global : ℕ
  pub max_retained_outcome_bytes_per_session : ℕ
  pub max_retained_outcome_bytes_global : ℕ
  pub max_staged_tasks : ℕ
  pub outbound_queue_size : ℕ
  pub inbound_queue_size : ℕ
  pub callback_queue_size : ℕ
  pub completion_workers : ℕ

unfoldable pub limits_of : RemoteLimits → Limits
limits_of r = record {
  max_control_bytes = nat_of r.max_control_bytes;
  max_frame_payload_bytes = nat_of r.max_frame_payload_bytes;
  max_message_bytes = nat_of r.max_message_bytes;
  max_invocation_bytes = nat_of r.max_invocation_bytes;
  max_result_bytes = nat_of r.max_result_bytes;
  max_metadata_bytes = nat_of r.max_metadata_bytes;
  max_chunks = nat_of r.max_chunks;
  max_incomplete_messages = nat_of r.max_incomplete_messages;
  max_unauthenticated_connections = nat_of r.max_unauthenticated_connections;
  max_connections_global = nat_of r.max_connections_global;
  max_connections_per_principal = nat_of r.max_connections_per_principal;
  max_pending_per_session = nat_of r.max_pending_per_session;
  max_pending_per_principal = nat_of r.max_pending_per_principal;
  max_pending_global = nat_of r.max_pending_global;
  max_retained_outcomes_per_session = nat_of r.max_retained_outcomes_per_session;
  max_retained_outcomes_global = nat_of r.max_retained_outcomes_global;
  max_retained_outcome_bytes_per_session = nat_of r.max_retained_outcome_bytes_per_session;
  max_retained_outcome_bytes_global = nat_of r.max_retained_outcome_bytes_global;
  max_staged_tasks = nat_of r.max_staged_tasks;
  outbound_queue_size = nat_of r.outbound_queue_size;
  inbound_queue_size = nat_of r.inbound_queue_size;
  callback_queue_size = nat_of r.callback_queue_size;
  completion_workers = nat_of r.completion_workers;
}

-- The loop over `fields(self)`: a duration is tested by the second test.
check_all : (PyValue → Result (Unit {0})) → List PyValue → Result (Unit {0})
check_all f [] = ok tt
check_all f (v ∷ vs) = let rest = check_all f vs in f v >> rest

abbrev counts : RemoteLimits → List PyValue
counts r =
    r.max_control_bytes ∷ r.max_frame_payload_bytes ∷ r.max_message_bytes ∷ r.max_invocation_bytes
    ∷ r.max_result_bytes ∷ r.max_metadata_bytes ∷ r.max_chunks ∷ r.max_incomplete_messages
    ∷ r.max_unauthenticated_connections ∷ r.max_connections_global ∷ r.max_connections_per_principal
    ∷ r.max_pending_per_session ∷ r.max_pending_per_principal ∷ r.max_pending_global
    ∷ r.max_retained_outcomes_per_session ∷ r.max_retained_outcomes_global
    ∷ r.max_retained_outcome_bytes_per_session ∷ r.max_retained_outcome_bytes_global
    ∷ r.max_staged_tasks ∷ r.outbound_queue_size ∷ r.inbound_queue_size ∷ r.callback_queue_size
    ∷ r.completion_workers ∷ []

abbrev durations : RemoteLimits → List PyValue
durations r = r.control_timeout ∷ r.handshake_timeout ∷ r.partial_frame_timeout ∷ []

-- the comparisons of `__post_init__` below the loop
compare_limits : Limits → Result (Unit {0})
compare_limits l = do
  guard (leb l.max_frame_payload_bytes l.max_message_bytes) value_error
  guard (leb l.max_invocation_bytes l.max_message_bytes) value_error
  guard (leb l.max_result_bytes l.max_message_bytes) value_error
  guard (leb l.max_message_bytes (l.max_frame_payload_bytes * l.max_chunks)) value_error
  guard (leb l.max_connections_per_principal l.max_connections_global) value_error
  guard (leb l.max_pending_per_principal l.max_pending_global) value_error
  guard (leb l.max_retained_outcomes_per_session l.max_retained_outcomes_global) value_error
  guard (leb l.max_retained_outcome_bytes_per_session l.max_retained_outcome_bytes_global)
      value_error

-- `RemoteLimits.__post_init__`
unfoldable pub check_limits : (ℤ → Bool) → RemoteLimits → Result (Unit {0})
unfolding check_all compare_limits
check_limits too_large r = do
  check_all positive_int (counts r)
  check_all (positive too_large) (durations r)
  compare_limits (limits_of r)

-- the defaults
unfoldable pub default_limits : RemoteLimits
default_limits = record {
  max_control_bytes = int (pos (64 * 1024));
  max_frame_payload_bytes = int (pos (1024 * 1024));
  max_message_bytes = int (pos (64 * 1024 * 1024));
  max_invocation_bytes = int (pos (32 * 1024 * 1024));
  max_result_bytes = int (pos (32 * 1024 * 1024));
  max_metadata_bytes = int (pos (16 * 1024));
  max_chunks = int (pos 256);
  max_incomplete_messages = int (pos 16);
  max_unauthenticated_connections = int (pos 64);
  max_connections_global = int (pos 256);
  max_connections_per_principal = int (pos 64);
  max_pending_per_session = int (pos 1024);
  max_pending_per_principal = int (pos 2048);
  max_pending_global = int (pos 4096);
  max_retained_outcomes_per_session = int (pos 64);
  max_retained_outcomes_global = int (pos 1024);
  max_retained_outcome_bytes_per_session = int (pos (256 * 1024 * 1024));
  max_retained_outcome_bytes_global = int (pos (1024 * 1024 * 1024));
  max_staged_tasks = int (pos 128);
  outbound_queue_size = int (pos 1024);
  inbound_queue_size = int (pos 1024);
  callback_queue_size = int (pos 1024);
  completion_workers = int (pos 4);
  control_timeout = int (pos 5);
  handshake_timeout = int (pos 5);
  partial_frame_timeout = int (pos 10);
}

-- What the rest of the program may rely on.
pub record IsSound (l : Limits) : Type 0 where
  pub max_control_bytes_pos : 0 < l.max_control_bytes
  pub max_frame_payload_bytes_pos : 0 < l.max_frame_payload_bytes
  pub max_message_bytes_pos : 0 < l.max_message_bytes
  pub max_invocation_bytes_pos : 0 < l.max_invocation_bytes
  pub max_result_bytes_pos : 0 < l.max_result_bytes
  pub max_metadata_bytes_pos : 0 < l.max_metadata_bytes
  pub max_chunks_pos : 0 < l.max_chunks
  pub max_incomplete_messages_pos : 0 < l.max_incomplete_messages
  pub max_unauthenticated_connections_pos : 0 < l.max_unauthenticated_connections
  pub max_connections_global_pos : 0 < l.max_connections_global
  pub max_connections_per_principal_pos : 0 < l.max_connections_per_principal
  pub max_pending_per_session_pos : 0 < l.max_pending_per_session
  pub max_pending_per_principal_pos : 0 < l.max_pending_per_principal
  pub max_pending_global_pos : 0 < l.max_pending_global
  pub max_retained_outcomes_per_session_pos : 0 < l.max_retained_outcomes_per_session
  pub max_retained_outcomes_global_pos : 0 < l.max_retained_outcomes_global
  pub max_retained_outcome_bytes_per_session_pos : 0 < l.max_retained_outcome_bytes_per_session
  pub max_retained_outcome_bytes_global_pos : 0 < l.max_retained_outcome_bytes_global
  pub max_staged_tasks_pos : 0 < l.max_staged_tasks
  pub outbound_queue_size_pos : 0 < l.outbound_queue_size
  pub inbound_queue_size_pos : 0 < l.inbound_queue_size
  pub callback_queue_size_pos : 0 < l.callback_queue_size
  pub completion_workers_pos : 0 < l.completion_workers
  pub frame_le_message : l.max_frame_payload_bytes ≤ l.max_message_bytes
  pub invocation_le_message : l.max_invocation_bytes ≤ l.max_message_bytes
  pub result_le_message : l.max_result_bytes ≤ l.max_message_bytes
  pub chunks_carry_message : l.max_message_bytes ≤ l.max_frame_payload_bytes * l.max_chunks
  pub connections_le : l.max_connections_per_principal ≤ l.max_connections_global
  pub pending_le : l.max_pending_per_principal ≤ l.max_pending_global
  pub outcomes_le : l.max_retained_outcomes_per_session ≤ l.max_retained_outcomes_global
  pub outcome_bytes_le :
      l.max_retained_outcome_bytes_per_session ≤ l.max_retained_outcome_bytes_global

abbrev IsPositive : PyValue → Type 0
IsPositive v = 0 < nat_of v

positive_int-ok : (v : PyValue) → positive_int v ≡ ok tt → IsPositive v
unfolding positive_int
positive_int-ok (int (pos n)) h = ground arith
positive_int-ok (int (negsuc n)) h = cc
positive_int-ok (bool b) h = cc
positive_int-ok (float x) h = cc
positive_int-ok (str s) h = cc
positive_int-ok none_value h = cc

check_all-ok : (vs : List PyValue) → check_all positive_int vs ≡ ok tt → All IsPositive vs
unfolding check_all
check_all-ok [] h = tt
check_all-ok (v ∷ vs) h =
    let (first, rest) = >>-eq-ok (positive_int v) (check_all positive_int vs) h in
    (positive_int-ok v first, check_all-ok vs rest)

abbrev Ordered : Limits → Type 0
Ordered l =
    (l.max_frame_payload_bytes ≤ l.max_message_bytes)
    × (l.max_invocation_bytes ≤ l.max_message_bytes)
    × (l.max_result_bytes ≤ l.max_message_bytes)
    × (l.max_message_bytes ≤ l.max_frame_payload_bytes * l.max_chunks)
    × (l.max_connections_per_principal ≤ l.max_connections_global)
    × (l.max_pending_per_principal ≤ l.max_pending_global)
    × (l.max_retained_outcomes_per_session ≤ l.max_retained_outcomes_global)
    × (l.max_retained_outcome_bytes_per_session ≤ l.max_retained_outcome_bytes_global)

compare_limits-ok : (l : Limits) → compare_limits l ≡ ok tt → Ordered l
unfolding compare_limits
compare_limits-ok l h = ground arith

-- Limits that pass their checks are sound: every count is positive, a message of the largest size
-- fits in the largest number of frames, and no share is greater than its whole.
pub check_limits-IsSound :
    (too_large : ℤ → Bool) (r : RemoteLimits)
    → check_limits too_large r ≡ ok tt
    → IsSound (limits_of r)
unfolding check_limits limits_of
check_limits-IsSound too_large r h =
    let (ints, h₁) = >>-eq-ok (check_all positive_int (counts r)) _ h in
    let (_, h₂) = >>-eq-ok (check_all (positive too_large) (durations r)) _ h₁ in
    let positive_counts = check_all-ok (counts r) ints in
    let ordered = compare_limits-ok (limits_of r) h₂ in omega arith
