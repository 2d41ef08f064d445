-- ===== src/Tests/Protocol.antt =====
-- deadpool/remote/_protocol.py at concrete inputs: a message of three bytes in two frames.
use deadpool.Base.{
  ℕ, ◌+◌, ◌≤◌, ◌<◌, ◌≡◌, ◌≢◌, ◌↔◌, String, Option, none, some, List, [], ◌∷◌, ◌++◌, arith, ◌*◌,
}
use deadpool.Python.{pos}
use deadpool.Result.{ok, err, remote_protocol_error}
use deadpool.Dict.{text_key}
use deadpool.Config.Limits.{Limits, IsSound}
use deadpool.Protocol.Json.{
  Json, int, str, arr, obj, nil, cons, Fields, end, field, validate_json, validate_json_iff, Small,
  height,
}
use deadpool.Protocol.Sorting.{sort_fields}
use deadpool.Protocol.Frame.{
  submit, code, pack_prefix, unpack_prefix, check_prefix, Prefix, magic_bytes, check_prefix-pack,
}
use deadpool.Protocol.Reader.{Message, new, accept}
use deadpool.Protocol.Reader.Invariant.{ReaderValid, new-ReaderValid, accept-ReaderValid}
use deadpool.Protocol.Receive.{dict_of, receive, receive_total}
use deadpool.Protocol.Send.{frame_control, control_at, message_chunk_count, send_message}
use deadpool.Protocol.Send.Count.{message_chunk_count_fits}

abbrev pub limits : Limits
limits = record {
  max_control_bytes = 4096;
  max_frame_payload_bytes = 2;
  max_message_bytes = 8;
  max_invocation_bytes = 8;
  max_result_bytes = 8;
  max_metadata_bytes = 256;
  max_chunks = 4;
  max_incomplete_messages = 2;
  max_unauthenticated_connections = 2;
  max_connections_global = 2;
  max_connections_per_principal = 2;
  max_pending_per_session = 2;
  max_pending_per_principal = 2;
  max_pending_global = 2;
  max_retained_outcomes_per_session = 2;
  max_retained_outcomes_global = 2;
  max_retained_outcome_bytes_per_session = 16;
  max_retained_outcome_bytes_global = 16;
  max_staged_tasks = 1;
  outbound_queue_size = 4;
  inbound_queue_size = 4;
  callback_queue_size = 4;
  completion_workers = 1;
}

abbrev pub digest : String
digest = "0123456789abcdef0123456789abcdef0123456789abcdef0123456789abcdef"

abbrev pub hash : List ℕ → String
hash payload = digest

abbrev request : Message
request = record {
  kind = submit;
  control = field "request_id" (str "a:1") (field "mode" (str "callable") end);
  payload = 7 ∷ 8 ∷ 9 ∷ [];
}

abbrev header : ℕ → Fields
header i = frame_control "m" i 2 3 digest (control_at request.control i)

-- A text of one byte, the frame's index, stands for the header with its fields sorted.
abbrev dumps : Json → List ℕ
dumps (obj (field _ _ (field _ _ (field _ _ (field _ (int (pos i)) _))))) = i ∷ []
dumps _ = []

abbrev loads : List ℕ → Option Json
loads (i ∷ []) = some (obj (sort_fields (header i)))
loads _ = none

pub limits-IsSound : IsSound limits
limits-IsSound = record {
  max_control_bytes_pos = omega arith;
  max_frame_payload_bytes_pos = omega arith;
  max_message_bytes_pos = omega arith;
  max_invocation_bytes_pos = omega arith;
  max_result_bytes_pos = omega arith;
  max_metadata_bytes_pos = omega arith;
  max_chunks_pos = omega arith;
  max_incomplete_messages_pos = omega arith;
  max_unauthenticated_connections_pos = omega arith;
  max_connections_global_pos = omega arith;
  max_connections_per_principal_pos = omega arith;
  max_pending_per_session_pos = omega arith;
  max_pending_per_principal_pos = omega arith;
  max_pending_global_pos = omega arith;
  max_retained_outcomes_per_session_pos = omega arith;
  max_retained_outcomes_global_pos = omega arith;
  max_retained_outcome_bytes_per_session_pos = omega arith;
  max_retained_outcome_bytes_global_pos = omega arith;
  max_staged_tasks_pos = omega arith;
  outbound_queue_size_pos = omega arith;
  inbound_queue_size_pos = omega arith;
  callback_queue_size_pos = omega arith;
  completion_workers_pos = omega arith;
  frame_le_message = omega arith;
  invocation_le_message = omega arith;
  result_le_message = omega arith;
  chunks_carry_message = omega arith;
  connections_le = omega arith;
  pending_le = omega arith;
  outcomes_le = omega arith;
  outcome_bytes_le = omega arith;
}

abbrev wire : List ℕ
wire = (send_message dumps hash limits request "m").0

validate_json_iff_example :
    (validate_json 8 (arr (cons (str "deadpool") nil)) 0 ≡ ok tt)
    ↔ (Small 8 (arr (cons (str "deadpool") nil)) × (height (arr (cons (str "deadpool") nil)) ≤ 12))
validate_json_iff_example = validate_json_iff 8 (arr (cons (str "deadpool") nil))

check_prefix-pack_example :
    (p : Prefix) × (unpack_prefix (pack_prefix (code submit) 1 70 2) ≡ some p)
    × (p.magic ≡ magic_bytes)
    × (p.major ≡ 1)
    × (p.minor ≡ 0)
    × (p.raw_kind ≡ code submit)
    × (p.flags ≡ 1)
    × (p.control_len ≡ 70)
    × (p.payload_len ≡ 2)
    × (check_prefix limits p ≡ ok submit)
check_prefix-pack_example =
    check_prefix-pack limits submit 1 70 2 (omega arith) (omega arith) (omega arith) (omega arith)
      (omega arith)

accept-ReaderValid_example :
    ReaderValid limits (accept hash limits new submit (dict_of (header 0)) (7 ∷ 8 ∷ [])).1
accept-ReaderValid_example =
    accept-ReaderValid hash limits new submit (dict_of (header 0)) (7 ∷ 8 ∷ [])
      (new-ReaderValid limits)

receive_total_example : receive some loads hash limits new (wire ++ 4 ∷ []) ≢ none
receive_total_example = receive_total some loads hash limits new (wire ++ 4 ∷ [])

message_chunk_count_fits_example :
    (3 ≤ 8
      → (count : ℕ) × (message_chunk_count 3 limits ≡ ok count)
        × (0 < count)
        × (count ≤ 4)
        × (3 ≤ count * 2)
        × (count * 2 < 3 + 2 * 2))
    × (8 < 3 → message_chunk_count 3 limits ≡ err remote_protocol_error)
message_chunk_count_fits_example = message_chunk_count_fits limits 3 limits-IsSound
