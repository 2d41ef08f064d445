-- ===== src/Protocol/Reader.antt =====
-- `MessageReader` of deadpool/remote/_protocol.py: the reassembly of messages from chunks. The hash
-- of a payload, `hashlib.sha256(...).hexdigest()`, is the parameter `sha256`.
pub mod Invariant
use Prim.Native.String.{count as count_characters}
use deadpool.Base.{
  ℕ, zero, suc, ◌+◌, ◌-◌, ◌≤◌, ◌<◌, ◌≡◌, refl, Bool, true, false, not, String, Option, none, some,
  List, [], ◌∷◌, ◌++◌, arith, ltb, leb, ◌==◌, ◌||◌, ◌&&◌, if◌then◌else◌, length, ite,
}
use deadpool.Python.{ℤ, pos, negsuc, negative, above, to_nat}
use deadpool.Result.{
  Result, ok, err, remote_protocol_error, key_error, guard, or_raise, ◌>>=◌, ◌>>◌,
}
use deadpool.Dict.{Dict, lookup, insert, delete, has, text_key, text_eq}
use deadpool.Config.Limits.{Limits}
use deadpool.Protocol.Json.{Json, null, int, str, obj, Fields}
use deadpool.Protocol.Frame.{MessageType, code}

pub record Message : Type 0 where
  pub kind : MessageType
  pub control : Fields
  pub payload : List ℕ

-- `_Chunks`
pub record Chunks : Type 0 where
  pub kind : MessageType
  pub control : Fields
  pub count : ℕ
  pub total : ℕ
  pub digest : String
  pub next_index : ℕ
  pub parts : List (List ℕ)
  pub received : ℕ

pub record Reader : Type 0 where
  pub messages : List (String × Chunks)
  pub incomplete_bytes : ℕ

unfoldable pub new : Reader
new = record { messages = []; incomplete_bytes = 0 }

-- The fields of a frame's header, after the tests that do not read the reader's state.
pub record Header : Type 0 where
  pub message_id : String
  pub index : ℕ
  pub count : ℕ
  pub total : ℕ
  pub digest : String
  pub control : Json

-- b"".join(parts)
abbrev pub join : List (List ℕ) → List ℕ
join [] = []
join (p ∷ ps) = p ++ join ps

-- `set(header) == required`
unfoldable pub has_fields : Dict String Json → Bool
has_fields h =
    length h == 6
    && (has "message_id" h
        && (has "index" h
            && (has "count" h && (has "total" h && (has "digest" h && has "control" h)))))

abbrev text_field : Option Json → ℕ → (ℕ → Bool) → Result String
text_field (some (str s)) n ok_length =
    guard (ok_length (count_characters s)) remote_protocol_error >> ok s
text_field _ _ _ = err remote_protocol_error

-- a JSON integer, which `True` and `False` are not
abbrev int_field : Option Json → Result ℤ
int_field (some (int n)) = ok n
int_field _ = err remote_protocol_error

abbrev any_field : Option Json → Result Json
any_field none = err key_error
any_field (some v) = ok v

-- the first half of `_accept`, down to the look-up of the message
unfoldable pub parse_header : Limits → Dict String Json → Result Header
unfolding has_fields
parse_header l h = do
  guard (has_fields h) remote_protocol_error
  message_id ← text_field (lookup "message_id" h) 64 (λ n. leb n 64)
  index ← int_field (lookup "index" h)
  count ← int_field (lookup "count" h)
  total ← int_field (lookup "total" h)
  guard (above count 0 && not (above count l.max_chunks)) remote_protocol_error
  guard (not (negative index) && above count (to_nat index)) remote_protocol_error
  guard (not (negative total || above total l.max_message_bytes)) remote_protocol_error
  digest ← text_field (lookup "digest" h) 64 (λ n. n == 64)
  control ← any_field (lookup "control" h)
  ok (record {
    message_id = message_id;
    index = to_nat index;
    count = to_nat count;
    total = to_nat total;
    digest = digest;
    control = control;
  })

-- What `_accept` returns or raises, and the reader that it leaves.
abbrev pub Accepted : Type 0
Accepted = Result (Option Message) × Reader

abbrev is_null : Json → Bool
is_null null = true
is_null _ = false

abbrev pub same_text : String → String → Bool
same_text s t = ite (text_eq s t) true false

-- state.kind == kind and the other comparisons of a later chunk with its message
abbrev agrees : MessageType → Header → Chunks → Bool
agrees kind h c =
    (code c.kind == code kind)
    && ((c.count == h.count)
        && ((c.total == h.total) && (same_text c.digest h.digest && is_null h.control)))

module _ (sha256 : List ℕ → String) where
  -- the end of `_accept`, for the last chunk
  unfoldable pub finish : Reader → String → Chunks → Accepted
  finish r message_id c =
      let r' : Reader = record {
        messages = delete message_id r.messages;
        incomplete_bytes = r.incomplete_bytes - c.received;
      } in
      let payload = join c.parts in
      if not (c.received == c.total)
      then (err remote_protocol_error, r')
      else ite (text_eq (sha256 payload) c.digest)
          (ok (some (record { kind = c.kind; control = c.control; payload = payload })), r')
          (err remote_protocol_error, r')

  -- the second half of `_accept`, from the test of the index; `c` is the state of the message in
  -- the reader's dict, which is the same object
  unfoldable pub extend : Limits → Reader → Header → Chunks → List ℕ → Accepted
  unfolding finish
  extend l r h c payload =
      let c' = record c {
        next_index = c.next_index + 1;
        parts = c.parts ++ payload ∷ [];
        received = c.received + length payload;
      } in
      let r' : Reader = record {
        messages = insert h.message_id c' r.messages;
        incomplete_bytes = r.incomplete_bytes + length payload;
      } in
      if not (h.index == c.next_index)
      then (err remote_protocol_error, r)
      else if ltb l.max_message_bytes (r.incomplete_bytes + length payload)
      then (err remote_protocol_error, r)
      else if ltb c'.total c'.received
      then (err remote_protocol_error, r')
      else if not (h.index + 1 == h.count)
      then (ok none, r')
      else finish r' h.message_id c'

  -- a message that the reader does not know
  unfoldable pub begin : Limits → Reader → MessageType → Header → Json → List ℕ → Accepted
  unfolding extend
  begin l r kind h (obj control) payload =
      let c : Chunks = record {
        kind = kind;
        control = control;
        count = h.count;
        total = h.total;
        digest = h.digest;
        next_index = 0;
        parts = [];
        received = 0;
      } in
      if not (h.index == 0)
      then (err remote_protocol_error, r)
      else if leb l.max_incomplete_messages (length r.messages)
      then (err remote_protocol_error, r)
      else extend l (record r { messages = insert h.message_id c r.messages }) h c payload
  begin l r kind h _ payload = (err remote_protocol_error, r)

  unfoldable pub accept_header : Limits → Reader → MessageType → Header → List ℕ → Accepted
  unfolding begin
  accept_header l r kind h payload = elim (lookup h.message_id r.messages) [
    | none ↦ begin l r kind h h.control payload
    | some c ↦ if agrees kind h c then extend l r h c payload else (err remote_protocol_error, r)
  ]

  -- `_accept`
  unfoldable pub accept : Limits → Reader → MessageType → Dict String Json → List ℕ → Accepted
  unfolding accept_header parse_header
  accept l r kind header payload = elim (parse_header l header) [
    | err e ↦ (err e, r)
    | ok h ↦ accept_header l r kind h payload
  ]
