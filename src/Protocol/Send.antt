-- ===== src/Protocol/Send.antt =====
-- `send_message` of deadpool/remote/_protocol.py: the division of a message into frames. The text of
-- a value with its fields in the order given is the parameter `dumps`, `json.dumps` but for its order; the message id that `uuid4` makes is
-- an argument, and so is the hash of the payload. Writing to the socket cannot fail here.
pub mod Count
pub mod Chunking
pub mod Steps
pub mod RoundTrip
use deadpool.Base.{
  ℕ, zero, suc, ◌+◌, ◌-◌, ◌*◌, ◌/◌, Bool, String, Option, none, some, List, [], ◌∷◌, ◌++◌, ltb, leb,
  ◌==◌, if◌then◌else◌, length, take, drop, max,
}
use deadpool.Python.{pos}
use deadpool.Result.{Result, ok, err, remote_protocol_error, guard, ◌>>=◌, ◌>>◌}
use deadpool.Dict.{Dict}
use deadpool.Config.Limits.{Limits}
use deadpool.Protocol.Json.{Json, null, int, str, obj, Fields, end, field, validate_json}
use deadpool.Protocol.Sorting.{sort_fields}
use deadpool.Protocol.Frame.{MessageType, code, pack_prefix}
use deadpool.Protocol.Reader.{Message}

-- `_message_chunk_count`
unfoldable pub message_chunk_count : ℕ → Limits → Result ℕ
message_chunk_count size l =
    let count = max 1 ((size + l.max_frame_payload_bytes - 1) / l.max_frame_payload_bytes) in
    if ltb l.max_message_bytes size
    then err remote_protocol_error
    else if ltb l.max_chunks count
    then err remote_protocol_error
    else ok count

-- the header of one frame, the dict that `_encode_frame_control` builds
abbrev pub frame_control : String → ℕ → ℕ → ℕ → String → Json → Fields
frame_control message_id index count total digest control = field "message_id" (str message_id) (
    field "index" (int (pos index)) (
      field "count" (int (pos count)) (
        field "total" (int (pos total))
          (field "digest" (str digest) (field "control" control end)))))

-- payload[start : start + frame_size] for start = index * frame_size
abbrev pub chunk_at : ℕ → List ℕ → ℕ → List ℕ
chunk_at frame_size payload index = take frame_size (drop (index * frame_size) payload)

-- message.control if index == 0 else None
abbrev pub control_at : Fields → ℕ → Json
control_at control zero = obj control
control_at control (suc index) = null

module _ (dumps : Json → List ℕ) where
  -- `_json_dumps`
  unfoldable pub json_dumps : Fields → Limits → Result (List ℕ)
  json_dumps fs l =
      validate_json l.max_metadata_bytes (obj fs) 0
      >> (guard (leb (length (dumps (obj (sort_fields fs)))) l.max_control_bytes)
            remote_protocol_error
          >> ok (dumps (obj (sort_fields fs))))

  -- `validate_control`
  unfoldable pub validate_control : Fields → Limits → Result (Unit {0})
  unfolding json_dumps
  validate_control fs l = json_dumps fs l >>= λ bytes. ok tt

  -- the bytes of one frame: its prefix, its header and its chunk
  unfoldable pub frame_bytes : Limits → MessageType → ℕ → Fields → List ℕ → Result (List ℕ)
  unfolding json_dumps
  frame_bytes l kind count fs chunk = json_dumps fs l >>= λ control. ok (
      pack_prefix (code kind) (if ltb 1 count then 1 else 0) (length control) (length chunk)
      ++ (control ++ chunk))

  -- the loop of `send_message` over the frames that are left: what was written, and how it ended
  unfoldable pub send_from :
      Limits → Message → String → String → ℕ → ℕ → ℕ → List ℕ × Result (Unit {0})
  unfolding frame_bytes
  send_from l m message_id digest count index zero = ([], ok tt)
  send_from l m message_id digest count index (suc left) =
      let rest = send_from l m message_id digest count (suc index) left in
      let fs =
        frame_control message_id index count (length m.payload) digest
          (control_at m.control index) in
      elim (frame_bytes l m.kind count fs (chunk_at l.max_frame_payload_bytes m.payload index)) [
        | err e ↦ ([], err e)
        | ok bytes ↦ (bytes ++ rest.0, rest.1)
      ]

  -- `send_message`
  unfoldable pub send_message :
      (List ℕ → String) → Limits → Message → String → List ℕ × Result (Unit {0})
  unfolding send_from
  send_message sha256 l m message_id = elim (message_chunk_count (length m.payload) l) [
    | err e ↦ ([], err e)
    | ok count ↦ send_from l m message_id (sha256 m.payload) count 0 count
  ]
