-- ===== src/Protocol/Send/RoundTrip.antt =====
-- What `send_message` writes, `receive` reads back.
use Prim.Native.String.{count as count_characters}
use deadpool.Base.{ℕ, suc, ◌+◌, ◌^◌, ◌≤◌, ◌<◌, ◌≡◌, String, Option, none, List, ◌++◌, length}
use deadpool.Result.{ok}
use deadpool.Dict.{lookup, text_key}
use deadpool.Config.Limits.{Limits}
use deadpool.Protocol.Json.{Json, obj, Fields}
use deadpool.Protocol.Sorting.{sort_fields}
use deadpool.Protocol.Reader.{Message, Chunks, Reader, join}
use deadpool.Protocol.Receive.{json_loads}
use deadpool.Protocol.Send.{frame_control, chunk_at, control_at}
use deadpool.Protocol.Send.Chunking.{chunks_from}

-- The message as it is read: the fields of its control in the order in which they were written.
abbrev read_back : Message → Message
read_back m = record m { control = sort_fields m.control }

-- What the bytes of a connection are read with and written with.
module _ (decode : List ℕ → Option (List ℕ)) (loads : List ℕ → Option Json) (dumps : Json → List ℕ)
    (sha256 : List ℕ → String) (l : Limits) (r : Reader) (m : Message) (message_id digest : String)
    (count : ℕ) (rest : List ℕ) where
  abbrev pub control_frame : ℕ → Fields
  control_frame i =
      frame_control message_id i count (length m.payload) digest (control_at m.control i)

  -- What the round trip asks of the limits, of the connection and of the parameters.
  pub record Ready : Type 0 where
    pub control_32 : l.max_control_bytes < 2 ^ 32
    pub frame_32 : l.max_frame_payload_bytes < 2 ^ 32
    pub id_length : count_characters message_id ≤ 64
    pub digest_length : count_characters digest ≡ 64
    pub hashed : sha256 m.payload ≡ digest
    pub few_chunks : count ≤ l.max_chunks
    pub small : length m.payload ≤ l.max_message_bytes
    pub absent : lookup message_id r.messages ≡ none
    pub room : length r.messages < l.max_incomplete_messages
    pub fits : r.incomplete_bytes + length m.payload ≤ l.max_message_bytes
    pub loaded :
        (i : ℕ)
        → i < count
        → json_loads decode loads (dumps (obj (sort_fields (control_frame i)))) l
          ≡ ok (sort_fields (control_frame i))

  -- The reader has the first `index` chunks, and `left + 1` are to come.
  record Underway (c : Chunks) (index left : ℕ) : Type 0 where
    kind_eq : c.kind ≡ m.kind
    control_eq : c.control ≡ sort_fields m.control
    count_eq : c.count ≡ count
    total_eq : c.total ≡ length m.payload
    digest_eq : c.digest ≡ digest
    index_eq : c.next_index ≡ index
    left_eq : index + suc left ≡ count
    received_eq : c.received ≡ length (join c.parts)
    parts_eq :
        join c.parts ++ join (chunks_from l.max_frame_payload_bytes m.payload index (suc left))
        ≡ m.payload

  abbrev chunk : ℕ → List ℕ
  chunk = chunk_at l.max_frame_payload_bytes m.payload
