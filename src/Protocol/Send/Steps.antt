-- ===== src/Protocol/Send/Steps.antt =====
-- One step of the round trip: a frame that was written is read back, and the reader takes its chunk.
use Prim.Native.String.{count as count_characters}
use native.Mathlib.Nat.{add-zero}
use deadpool.Base.{
  ℕ, zero, suc, ◌+◌, ◌*◌, ◌^◌, ◌≤◌, ◌<◌, ◌≡◌, ◌≢◌, refl, false, String, Option, none, some, List,
  [], ◌∷◌, ◌++◌, arith, ltb, leb, if◌then◌else◌, length, take, drop, length-append, append_assoc,
  ap, sym, ◌∙◌, if_pos,
}
use deadpool.Result.{ok, >>=-eq-ok, >>-eq-ok}
use deadpool.Dict.{lookup, insert, text_key, text_eq}
use deadpool.Dict.Laws.{lookup-insert, insert-insert, delete-insert_absent}
use deadpool.Config.Limits.{Limits}
use deadpool.Protocol.Json.{Json, obj, null, Fields, validate_json}
use deadpool.Protocol.Sorting.{sort_json, sort_fields, insert_field}
use deadpool.Protocol.Frame.{MessageType, code, pack_prefix, check_prefix-pack}
use deadpool.Protocol.Reader.{
  Message, Chunks, Reader, Header, join, parse_header, extend, finish, begin, accept_header, accept,
}
use deadpool.Protocol.Reader.Invariant.{grown}
use deadpool.Protocol.Receive.{dict_of, recv_exact, json_loads, receive_frame, receive_frame_steps}
use deadpool.Protocol.Send.{frame_control, chunk_at, json_dumps, frame_bytes}

take-length : (xs ys : List ℕ) → take (length xs) (xs ++ ys) ≡ xs
take-length [] ys = refl
take-length (x ∷ xs) ys = ap (◌∷◌ x) (take-length xs ys)

drop-length : (xs ys : List ℕ) → drop (length xs) (xs ++ ys) ≡ ys
drop-length [] ys = refl
drop-length (x ∷ xs) ys = drop-length xs ys

-- Bytes that were sent are received.
recv_exact-append : (n : ℕ) (xs ys : List ℕ) → n ≡ length xs → recv_exact n (xs ++ ys) ≡ ok (xs, ys)
unfolding recv_exact
recv_exact-append n xs ys e =
    rw e (ground (arith, length-append xs ys, take-length xs ys, drop-length xs ys))

regroup : (a b c d : List ℕ) → (a ++ (b ++ c)) ++ d ≡ a ++ (b ++ (c ++ d))
regroup a b c d = append_assoc a (b ++ c) d ∙ ap (◌++◌ a) (append_assoc b c d)

pack_prefix-length :
    (kind flags control_len payload_len : ℕ)
    → 16 ≡ length (pack_prefix kind flags control_len payload_len)
unfolding pack_prefix
pack_prefix-length kind flags control_len payload_len = refl

unfoldable pub header_of : String → ℕ → ℕ → ℕ → String → Json → Header
header_of message_id index count total digest control = record {
  message_id = message_id;
  index = index;
  count = count;
  total = total;
  digest = digest;
  control = control;
}

pub parse_header-frame :
    (l : Limits) (message_id : String) (index count total : ℕ) (digest : String) (control : Json)
    → count_characters message_id ≤ 64
    → count_characters digest ≡ 64
    → index < count
    → count ≤ l.max_chunks
    → total ≤ l.max_message_bytes
    → parse_header l
        (dict_of (sort_fields (frame_control message_id index count total digest control)))
      ≡ ok (header_of message_id index count total digest (sort_json control))
unfolding parse_header lookup text_eq header_of sort_json insert_field
parse_header-frame l message_id index count total digest control a b c d e = ground arith

module _ (decode : List ℕ → Option (List ℕ)) (loads : List ℕ → Option Json)
    (dumps : Json → List ℕ) where
  pub frame_bytes-ok :
      (l : Limits) (kind : MessageType) (count : ℕ) (fs : Fields) (chunk bytes : List ℕ)
      → frame_bytes dumps l kind count fs chunk ≡ ok bytes
      → (length (dumps (obj (sort_fields fs))) ≤ l.max_control_bytes)
        × (bytes
            ≡ pack_prefix
                (code kind)
                (if ltb 1 count then 1 else 0)
                (length (dumps (obj (sort_fields fs))))
                (length chunk)
              ++ (dumps (obj (sort_fields fs)) ++ chunk))
  unfolding frame_bytes
  frame_bytes-ok l kind count fs chunk bytes h =
      let (control, e, h₁) = >>=-eq-ok (json_dumps dumps fs l) _ h in
      let (_, e₁) = >>-eq-ok (validate_json l.max_metadata_bytes (obj fs) 0) _ e in
      ground (arith, e₁, h₁)

  -- A frame that was written is read back, with what follows it.
  pub receive_frame-frame_bytes :
      (l : Limits) (kind : MessageType) (count : ℕ) (fs : Fields) (chunk bytes rest : List ℕ)
      → l.max_control_bytes < 2 ^ 32
      → l.max_frame_payload_bytes < 2 ^ 32
      → length chunk ≤ l.max_frame_payload_bytes
      → json_loads decode loads (dumps (obj (sort_fields fs))) l ≡ ok (sort_fields fs)
      → frame_bytes dumps l kind count fs chunk ≡ ok bytes
      → receive_frame decode loads l (bytes ++ rest)
        ≡ ok (record { kind = kind; header = sort_fields fs; payload = chunk; rest = rest })
  receive_frame-frame_bytes l kind count fs chunk bytes rest hc hf fits loaded written =
      let (small, e) = frame_bytes-ok l kind count fs chunk bytes written in
      let control = dumps (obj (sort_fields fs)) in
      let flags : ℕ = if ltb 1 count then 1 else 0 in
      let head = pack_prefix (code kind) flags (length control) (length chunk) in
      let (p, unpacked, _, _, _, _, _, clen, plen, checked) =
        check_prefix-pack l kind flags (length control) (length chunk) (ground arith) (omega arith)
          (omega arith) small fits in
      receive_frame_steps decode loads l (bytes ++ rest) (control ++ (chunk ++ rest))
        (chunk ++ rest) head control chunk rest p kind (sort_fields fs)
        (ap (recv_exact 16) (ap (λ b. b ++ rest) e ∙ regroup head control chunk rest)
          ∙ recv_exact-append 16 head (control ++ (chunk ++ rest)) (pack_prefix-length _ _ _ _))
        unpacked checked (recv_exact-append p.control_len control (chunk ++ rest) clen) loaded
        (recv_exact-append p.payload_len chunk rest plen)

-- The reader with one message under way.
abbrev pub under_way : Reader → String → Chunks → Reader
under_way r message_id c = record {
  messages = insert message_id c r.messages;
  incomplete_bytes = r.incomplete_bytes + c.received;
}

under_way-lookup :
    (r : Reader) (message_id : String) (c : Chunks)
    → lookup message_id (insert message_id c r.messages) ≡ some c
under_way-lookup r message_id c =
    lookup-insert message_id message_id c r.messages
    ∙ if_pos (text_eq message_id message_id) refl _ _

module _ (sha256 : List ℕ → String) (l : Limits) (r : Reader) (message_id digest : String) where
  abbrev pub header_at : ℕ → ℕ → ℕ → Json → Header
  header_at index count total control = header_of message_id index count total digest control

  pub extend_more :
      (index count : ℕ) (control : Json) (c : Chunks) (payload : List ℕ) (total : ℕ)
      → index ≡ c.next_index
      → index + 1 ≢ count
      → r.incomplete_bytes + c.received + length payload ≤ l.max_message_bytes
      → c.received + length payload ≤ c.total
      → extend sha256 l (under_way r message_id c) (header_at index count total control) c payload
        ≡ (ok none, under_way r message_id (grown c payload))
  unfolding extend header_of
  extend_more index count control c payload total ei more fits small =
      ground (arith, insert-insert message_id (grown c payload) c r.messages)

  pub extend_last :
      (index count : ℕ) (control : Json) (c : Chunks) (payload : List ℕ) (total : ℕ) (m : Message)
      → lookup message_id r.messages ≡ none
      → index ≡ c.next_index
      → index + 1 ≡ count
      → r.incomplete_bytes + c.received + length payload ≤ l.max_message_bytes
      → c.received + length payload ≡ c.total
      → c.kind ≡ m.kind
      → c.control ≡ m.control
      → join (c.parts ++ payload ∷ []) ≡ m.payload
      → sha256 m.payload ≡ c.digest
      → extend sha256 l (under_way r message_id c) (header_at index count total control) c payload
        ≡ (ok (some m), r)
  unfolding extend header_of finish
  extend_last index count control c payload total m absent ei last fits all ek ec ep hash = ground (
    arith,
    insert-insert message_id (grown c payload) c r.messages,
    delete-insert_absent message_id (grown c payload) r.messages absent,
  )

  -- The message before its first chunk.
  abbrev pub fresh : MessageType → Fields → ℕ → ℕ → Chunks
  fresh kind control count total = record {
    kind = kind;
    control = control;
    count = count;
    total = total;
    digest = digest;
    next_index = 0;
    parts = [];
    received = 0;
  }

  begin_first :
      (kind : MessageType) (control : Fields) (count total : ℕ) (payload : List ℕ)
      → length r.messages < l.max_incomplete_messages
      → begin sha256 l r kind (header_at 0 count total (obj control)) (obj control) payload
        ≡ extend sha256 l
            (under_way r message_id (fresh kind control count total))
            (header_at 0 count total (obj control))
            (fresh kind control count total)
            payload
  unfolding begin header_of
  begin_first kind control count total payload room =
      let full : leb l.max_incomplete_messages (length r.messages) ≡ false = ground arith in
      rw full (
        ap
          (λ n.
            extend sha256 l
              (record {
                messages = insert message_id (fresh kind control count total) r.messages;
                incomplete_bytes = n;
              })
              (header_at 0 count total (obj control)) (fresh kind control count total) payload)
          (sym (add-zero r.incomplete_bytes)))

  pub accept_first :
      (kind : MessageType) (control : Fields) (count total : ℕ) (payload : List ℕ)
      → parse_header l
          (dict_of (sort_fields (frame_control message_id 0 count total digest (obj control))))
        ≡ ok (header_at 0 count total (obj (sort_fields control)))
      → lookup message_id r.messages ≡ none
      → length r.messages < l.max_incomplete_messages
      → accept sha256 l r kind
          (dict_of (sort_fields (frame_control message_id 0 count total digest (obj control))))
          payload
        ≡ extend sha256 l
            (under_way r message_id (fresh kind (sort_fields control) count total))
            (header_at 0 count total (obj (sort_fields control)))
            (fresh kind (sort_fields control) count total)
            payload
  unfolding header_of accept extend
  accept_first kind control count total payload parsed absent room =
      rw (parsed, accept)
        (rw (absent, accept_header)
          (begin_first kind (sort_fields control) count total payload room))

  pub accept_known :
      (index count total : ℕ) (kind : MessageType) (c : Chunks) (payload : List ℕ)
      → c.kind ≡ kind
      → c.count ≡ count
      → c.total ≡ total
      → c.digest ≡ digest
      → parse_header l
          (dict_of (sort_fields (frame_control message_id index count total digest null)))
        ≡ ok (header_at index count total null)
      → accept sha256 l
          (under_way r message_id c)
          kind
          (dict_of (sort_fields (frame_control message_id index count total digest null)))
          payload
        ≡ extend sha256 l (under_way r message_id c) (header_at index count total null) c payload
  unfolding header_of accept extend
  accept_known index count total kind c payload ek ec et ed parsed =
      rw (parsed, accept)
        (rw (under_way-lookup r message_id c, accept_header) (ground (arith, ap code ek)))

pub length-take-le : (n : ℕ) (xs : List ℕ) → length (take n xs) ≤ n
length-take-le zero xs = omega arith
length-take-le (suc n) [] = omega arith
length-take-le (suc n) (x ∷ xs) = omega (arith, length-take-le n xs)

pub length-chunk_at-le : (f : ℕ) (payload : List ℕ) (i : ℕ) → length (chunk_at f payload i) ≤ f
length-chunk_at-le f payload i = length-take-le f (drop (i * f) payload)
