-- ===== src/Protocol/Frame.antt =====
-- The frames of deadpool/remote/_protocol.py: message types, the 16 bytes of a frame's prefix, and
-- what `MessageReader.receive` checks of them.
use deadpool.Base.{
  ℕ, ◌+◌, ◌*◌, ◌/◌, ◌%◌, ◌^◌, ◌≤◌, ◌<◌, ◌≡◌, refl, Bool, false, Option, none, some, List, [], ◌∷◌,
  arith, leb, ◌==◌, ◌&&◌, if◌then◌else◌,
}
use deadpool.Result.{Result, ok, remote_protocol_error, guard, or_raise, ◌>>◌}
use deadpool.Config.Limits.{Limits}

pub data MessageType : Type 0 where
  hello welcome handshake_rejected ping pong goaway protocol_error submit accepted rejected :
      MessageType
  running result task_error timed_out cancelled worker_lost result_encoding_failed : MessageType
  result_too_large result_ack queue_timed_out cancel_request cancel_response status_request :
      MessageType
  status_response stats_request stats_response cancel_group cancel_group_response : MessageType
  close_session close_session_response : MessageType

-- int(kind)
unfoldable pub code : MessageType → ℕ
code hello = 1
code welcome = 2
code handshake_rejected = 3
code ping = 4
code pong = 5
code goaway = 6
code protocol_error = 7
code submit = 10
code accepted = 11
code rejected = 12
code running = 13
code result = 20
code task_error = 21
code timed_out = 22
code cancelled = 23
code worker_lost = 24
code result_encoding_failed = 25
code result_too_large = 26
code result_ack = 27
code queue_timed_out = 28
code cancel_request = 30
code cancel_response = 31
code status_request = 32
code status_response = 33
code stats_request = 34
code stats_response = 35
code cancel_group = 36
code cancel_group_response = 37
code close_session = 38
code close_session_response = 39

-- MessageType(raw_kind); `none` is its ValueError
unfoldable pub of_code : ℕ → Option MessageType
of_code n =
    if n == 1
    then some hello
    else if n == 2
    then some welcome
    else if n == 3
    then some handshake_rejected
    else if n == 4
    then some ping
    else if n == 5
    then some pong
    else if n == 6
    then some goaway
    else if n == 7
    then some protocol_error
    else if n == 10
    then some submit
    else if n == 11
    then some accepted
    else if n == 12
    then some rejected
    else if n == 13
    then some running
    else if n == 20
    then some result
    else if n == 21
    then some task_error
    else if n == 22
    then some timed_out
    else if n == 23
    then some cancelled
    else if n == 24
    then some worker_lost
    else if n == 25
    then some result_encoding_failed
    else if n == 26
    then some result_too_large
    else if n == 27
    then some result_ack
    else if n == 28
    then some queue_timed_out
    else if n == 30
    then some cancel_request
    else if n == 31
    then some cancel_response
    else if n == 32
    then some status_request
    else if n == 33
    then some status_response
    else if n == 34
    then some stats_request
    else if n == 35
    then some stats_response
    else if n == 36
    then some cancel_group
    else if n == 37
    then some cancel_group_response
    else if n == 38
    then some close_session
    else if n == 39
    then some close_session_response
    else none

pub of_code-code : (k : MessageType) → of_code (code k) ≡ some k
unfolding of_code code
of_code-code hello = refl
of_code-code welcome = refl
of_code-code handshake_rejected = refl
of_code-code ping = refl
of_code-code pong = refl
of_code-code goaway = refl
of_code-code protocol_error = refl
of_code-code submit = refl
of_code-code accepted = refl
of_code-code rejected = refl
of_code-code running = refl
of_code-code result = refl
of_code-code task_error = refl
of_code-code timed_out = refl
of_code-code cancelled = refl
of_code-code worker_lost = refl
of_code-code result_encoding_failed = refl
of_code-code result_too_large = refl
of_code-code result_ack = refl
of_code-code queue_timed_out = refl
of_code-code cancel_request = refl
of_code-code cancel_response = refl
of_code-code status_request = refl
of_code-code status_response = refl
of_code-code stats_request = refl
of_code-code stats_response = refl
of_code-code cancel_group = refl
of_code-code cancel_group_response = refl
of_code-code close_session = refl
of_code-code close_session_response = refl

pub record Prefix : Type 0 where
  pub magic : List ℕ
  pub major : ℕ
  pub minor : ℕ
  pub raw_kind : ℕ
  pub flags : ℕ
  pub control_len : ℕ
  pub payload_len : ℕ

-- MAGIC, MAJOR, MINOR
abbrev pub magic_bytes : List ℕ
magic_bytes = 68 ∷ 80 ∷ 82 ∷ 49 ∷ []

abbrev pub major_version : ℕ
major_version = 1

abbrev pub minor_version : ℕ
minor_version = 0

-- `_PREFIX.pack` of the magic, the two versions and four numbers of the message
unfoldable pub pack_prefix : ℕ → ℕ → ℕ → ℕ → List ℕ
pack_prefix kind flags control_len payload_len =
    68
    ∷ 80
    ∷ 82
    ∷ 49
    ∷ major_version
    ∷ minor_version
    ∷ kind
    ∷ flags
    ∷ control_len / 16777216 % 256
    ∷ control_len / 65536 % 256
    ∷ control_len / 256 % 256
    ∷ control_len % 256
    ∷ payload_len / 16777216 % 256
    ∷ payload_len / 65536 % 256
    ∷ payload_len / 256 % 256
    ∷ payload_len % 256
    ∷ []

-- `_PREFIX.unpack` of 16 bytes, `struct.Struct("!4sBBBBII")`
unfoldable pub unpack_prefix : List ℕ → Option Prefix
unpack_prefix (m ∷ n ∷ o ∷ p ∷ major ∷ minor ∷ kind ∷ flags ∷ a ∷ b ∷ c ∷ d ∷ e ∷ f ∷ g ∷ h ∷ []) =
    some (record {
      magic = m ∷ n ∷ o ∷ p ∷ [];
      major = major;
      minor = minor;
      raw_kind = kind;
      flags = flags;
      control_len = a * 16777216 + b * 65536 + c * 256 + d;
      payload_len = e * 16777216 + f * 65536 + g * 256 + h;
    })
unpack_prefix _ = none

abbrev is_magic : List ℕ → Bool
is_magic (m ∷ n ∷ o ∷ p ∷ []) = m == 68 && (n == 80 && (o == 82 && p == 49))
is_magic _ = false

-- The checks of `receive` on a prefix. `flags & ~1` is not 0 where a bit other than the lowest is
-- set.
unfoldable pub check_prefix : Limits → Prefix → Result MessageType
check_prefix l p = do
  guard (is_magic p.magic) remote_protocol_error
  guard (p.major == major_version && leb p.minor minor_version) remote_protocol_error
  guard (p.flags / 2 == 0) remote_protocol_error
  guard (leb p.control_len l.max_control_bytes) remote_protocol_error
  guard (leb p.payload_len l.max_frame_payload_bytes) remote_protocol_error
  or_raise (of_code p.raw_kind) remote_protocol_error

pack_prefix-unpack :
    (kind flags control_len payload_len : ℕ)
    → control_len < 2 ^ 32
    → payload_len < 2 ^ 32
    → unpack_prefix (pack_prefix kind flags control_len payload_len)
      ≡ some (record {
        magic = magic_bytes;
        major = major_version;
        minor = minor_version;
        raw_kind = kind;
        flags = flags;
        control_len = control_len;
        payload_len = payload_len;
      })
unfolding pack_prefix unpack_prefix
pack_prefix-unpack kind flags control_len payload_len h k = ground arith

-- A prefix that a sender packs is read back as the magic bytes, the two versions of the protocol, the
-- code of the message's type, the flags and the two lengths that were packed, and passes the reader's
-- checks with the message's type, where the flags are 0 or 1 and the two lengths are within the
-- reader's limits and below 2 ^ 32.
pub check_prefix-pack :
    (l : Limits) (kind : MessageType) (flags control_len payload_len : ℕ)
    → flags ≤ 1
    → control_len < 2 ^ 32
    → payload_len < 2 ^ 32
    → control_len ≤ l.max_control_bytes
    → payload_len ≤ l.max_frame_payload_bytes
    → (p : Prefix) × (unpack_prefix (pack_prefix (code kind) flags control_len payload_len)
        ≡ some p)
      × (p.magic ≡ magic_bytes)
      × (p.major ≡ 1)
      × (p.minor ≡ 0)
      × (p.raw_kind ≡ code kind)
      × (p.flags ≡ flags)
      × (p.control_len ≡ control_len)
      × (p.payload_len ≡ payload_len)
      × (check_prefix l p ≡ ok kind)
unfolding check_prefix
check_prefix-pack l kind flags control_len payload_len f hc hp lc lp = (
  _,
  pack_prefix-unpack (code kind) flags control_len payload_len hc hp,
  refl,
  refl,
  refl,
  refl,
  refl,
  refl,
  refl,
  ground (arith, of_code-code kind),
)
