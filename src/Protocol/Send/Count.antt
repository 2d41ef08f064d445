-- ===== src/Protocol/Send/Count.antt =====
-- How many frames a message takes.
use deadpool.Base.{ℕ, zero, suc, ◌⊎◌, inl, inr, ◌+◌, ◌-◌, ◌*◌, ◌/◌, ◌≤◌, ◌<◌, ◌≡◌, refl, arith, max}
use native.Mathlib.Nat.{div-lt_iff_lt-mul, lt-mul-div-succ, div-mul-le_self}
use deadpool.Result.{ok, err, remote_protocol_error}
use deadpool.Config.Limits.{Limits, IsSound}
use deadpool.Protocol.Send.{message_chunk_count}

-- (size + f - 1) / f rounds up.
ceil-le : (size f q : ℕ) → 0 < f → size ≤ f * q → (size + f - 1) / f ≤ q
ceil-le size f q pos h =
    let below : (size + f - 1) / f < suc q = (div-lt_iff_lt-mul pos).1 (omega arith) in omega arith

ceil_covers : (size f : ℕ) → 0 < f → size ≤ (size + f - 1) / f * f
ceil_covers size f pos = omega (arith, lt-mul-div-succ (size + f - 1) pos)

at_least_one : (q : ℕ) → (max 1 q ≡ q) ⊎ ((q ≡ 0) × (max 1 q ≡ 1))
at_least_one zero = inr (refl, omega arith)
at_least_one (suc q) = inl (omega arith)

covers : (size f q : ℕ) → size ≤ q * f → size ≤ max 1 q * f
covers size f q h = elim (at_least_one q) [
  | inl e ↦ rw e h
  | inr (z, e) ↦ rw e (let h' = rw z at h in omega arith)
]

tight : (size f q : ℕ) → 0 < f → q * f ≤ size + f - 1 → max 1 q * f < size + 2 * f
tight size f q pos h = elim (at_least_one q) [
  | inl e ↦ rw e (omega arith)
  | inr (z, e) ↦ rw e (omega arith)
]

-- Under limits that passed their checks a message within `max_message_bytes` is always divided: into
-- at least one frame, at most `max_chunks`, enough for its bytes and no more than it needs. The
-- branch "message requires too many chunks" is never taken. A longer message is refused.
pub message_chunk_count_fits :
    (l : Limits) (size : ℕ)
    → IsSound l
    → (size ≤ l.max_message_bytes
        → (count : ℕ) × (message_chunk_count size l ≡ ok count)
          × (0 < count)
          × (count ≤ l.max_chunks)
          × (size ≤ count * l.max_frame_payload_bytes)
          × (count * l.max_frame_payload_bytes < size + 2 * l.max_frame_payload_bytes))
      × (l.max_message_bytes < size → message_chunk_count size l ≡ err remote_protocol_error)
unfolding message_chunk_count
message_chunk_count_fits l size v = (
  λ h. (
    max 1 ((size + f - 1) / f),
    ground (arith, ceil-le size f l.max_chunks v.max_frame_payload_bytes_pos),
    omega arith,
    omega (arith, fewest h, v.max_chunks_pos),
    covers size f _ (ceil_covers size f v.max_frame_payload_bytes_pos),
    tight size f _ v.max_frame_payload_bytes_pos (div-mul-le_self (size + f - 1) f),
  ),
  λ h. ground arith,
)
  where
    f : ℕ
    f = l.max_frame_payload_bytes

    fewest : size ≤ l.max_message_bytes → (size + f - 1) / f ≤ l.max_chunks
    fewest h =
        ceil-le size f l.max_chunks v.max_frame_payload_bytes_pos
          (omega (arith, v.chunks_carry_message))
