-- ===== src/Protocol/Reader/Invariant.antt =====
-- What holds of a reader between two frames, after errors too, and what a completed message is.
use deadpool.Base.{
  ℕ, ◌+◌, ◌-◌, ◌≤◌, ◌≡◌, refl, false, not, String, none, some, List, [], ◌∷◌, ◌++◌, arith, ltb, leb,
  ◌==◌, length, length-append, inl, inr, Option-cases, if-case, ite-case, if_pos, ◌∙◌,
}
use deadpool.Result.{Result-cases}
use deadpool.Dict.{Dict, lookup, insert, delete, text_key, text_eq, Unique}
use deadpool.Dict.Laws.{lookup-insert, length-insert, lookup-delete, insert-Unique, delete-Unique}
use deadpool.Dict.Sums.{total, total-insert, total-delete}
use deadpool.Config.Limits.{Limits}
use deadpool.Protocol.Json.{Json, null, bool, int, float, str, arr, obj}
use deadpool.Protocol.Frame.{MessageType}
use deadpool.Protocol.Reader.{
  Chunks, Reader, Header, join, new, parse_header, finish, extend, begin, accept_header, accept,
  agrees, Accepted,
}

pub record ChunksValid (c : Chunks) : Type 0 where
  pub counted : c.received ≡ length (join c.parts)
  pub indexed : c.next_index ≡ length c.parts

pub record ReaderValid (l : Limits) (r : Reader) : Type 0 where
  pub unique : Unique r.messages
  pub summed : r.incomplete_bytes ≡ total (λ k c. c.received) r.messages
  pub bounded : r.incomplete_bytes ≤ l.max_message_bytes
  pub few : length r.messages ≤ l.max_incomplete_messages
  pub each : (k : String) (c : Chunks) → lookup k r.messages ≡ some c → ChunksValid c

pub new-ReaderValid : (l : Limits) → ReaderValid l new
unfolding new lookup
new-ReaderValid l = record {
  unique = tt;
  summed = refl;
  bounded = omega arith;
  few = omega arith;
  each = λ k c h. cc;
}

length-join-snoc :
    (ps : List (List ℕ)) (p : List ℕ) → length (join (ps ++ p ∷ [])) ≡ length (join ps) + length p
length-join-snoc [] p = omega (arith, length-append p [])
length-join-snoc (q ∷ ps) p =
    omega (
      arith,
      length-append q (join (ps ++ p ∷ [])),
      length-append q (join ps),
      length-join-snoc ps p,
    )

length-delete-le : (k : String) (d : Dict String Chunks) → length (delete k d) ≤ length d
unfolding delete
length-delete-le k [] = omega arith
length-delete-le k ((j, b) ∷ d) = ground (arith, length-delete-le k d)

-- Another chunk of a known message.
extend-summed :
    (l : Limits) (r : Reader) (k : String) (c c' : Chunks) (n : ℕ)
    → ReaderValid l r
    → lookup k r.messages ≡ some c
    → ChunksValid c'
    → c'.received ≡ c.received + n
    → r.incomplete_bytes + n ≤ l.max_message_bytes
    → ReaderValid l
        (record { messages = insert k c' r.messages; incomplete_bytes = r.incomplete_bytes + n })
extend-summed l r k c c' n v e vc more fits = record {
  unique = insert-Unique k c' r.messages v.unique;
  summed = ground (arith, v.summed, total-insert (λ k c. c.received) k c' r.messages);
  bounded = fits;
  few = ground (arith, v.few, length-insert k c' r.messages);
  each = λ j d h. ground (arith, v.each j d, lookup-insert k j c' r.messages);
}

drop-summed :
    (l : Limits) (r : Reader) (k : String) (c : Chunks)
    → ReaderValid l r
    → lookup k r.messages ≡ some c
    → ReaderValid l (record {
      messages = delete k r.messages;
      incomplete_bytes = r.incomplete_bytes - c.received;
    })
drop-summed l r k c v e = record {
  unique = delete-Unique k r.messages v.unique;
  summed = ground (arith, v.summed, total-delete (λ k c. c.received) k r.messages v.unique);
  bounded = omega (arith, v.bounded);
  few = omega (arith, v.few, length-delete-le k r.messages);
  each = λ j d h. ground (arith, v.each j d, lookup-delete k j r.messages);
}

-- The message with one more chunk.
abbrev pub grown : Chunks → List ℕ → Chunks
grown c payload = record c {
  next_index = c.next_index + 1;
  parts = c.parts ++ payload ∷ [];
  received = c.received + length payload;
}

grown-ChunksValid : (c : Chunks) (payload : List ℕ) → ChunksValid c → ChunksValid (grown c payload)
grown-ChunksValid c payload v = omega (
  arith,
  v.counted,
  v.indexed,
  length-join-snoc c.parts payload,
  length-append c.parts (payload ∷ []),
)

module _ (sha256 : List ℕ → String) (l : Limits) where
  abbrev Keeps : Accepted → Type 0
  Keeps a = ReaderValid l a.1

  finish-ReaderValid :
      (r : Reader) (k : String) (c : Chunks)
      → ReaderValid l r
      → lookup k r.messages ≡ some c
      → ReaderValid l (finish sha256 r k c).1
  unfolding finish
  finish-ReaderValid r k c v e =
      let w = drop-summed l r k c v e in
      if-case Keeps (not (c.received == c.total)) (λ _. w)
        (λ _. ite-case Keeps (text_eq (sha256 (join c.parts)) c.digest) (λ _. w) (λ _. w))

  extend-ReaderValid :
      (r : Reader) (h : Header) (c : Chunks) (payload : List ℕ)
      → ReaderValid l r
      → lookup h.message_id r.messages ≡ some c
      → ReaderValid l (extend sha256 l r h c payload).1
  unfolding extend
  extend-ReaderValid r h c payload v e =
      if-case Keeps (not (h.index == c.next_index)) (λ _. v)
        λ _.
          if-case Keeps (ltb l.max_message_bytes (r.incomplete_bytes + length payload)) (λ _. v)
            λ fits.
              let w =
                extend-summed l r h.message_id c (grown c payload) (length payload) v e
                  (grown-ChunksValid c payload (v.each h.message_id c e)) refl (ground arith) in
              if-case Keeps (ltb c.total (c.received + length payload)) (λ _. w)
                λ _.
                  if-case Keeps (not (h.index + 1 == h.count)) (λ _. w)
                    λ _. finish-ReaderValid _ h.message_id (grown c payload) w (
                      lookup-insert h.message_id h.message_id (grown c payload) r.messages
                      ∙ if_pos (text_eq h.message_id h.message_id) refl _ _)

  begin-ReaderValid :
      (r : Reader) (kind : MessageType) (h : Header) (control : Json) (payload : List ℕ)
      → ReaderValid l r
      → lookup h.message_id r.messages ≡ none
      → ReaderValid l (begin sha256 l r kind h control payload).1
  unfolding begin
  begin-ReaderValid r kind h (obj control) payload v e =
      if-case Keeps (not (h.index == 0)) (λ _. v)
        λ _.
          if-case Keeps (leb l.max_incomplete_messages (length r.messages)) (λ _. v)
            λ room. extend-ReaderValid _ h _ payload (opened room) (
              lookup-insert h.message_id h.message_id _ r.messages
              ∙ if_pos (text_eq h.message_id h.message_id) refl _ _)
    where
      fresh : Chunks
      fresh = record {
        kind = kind;
        control = control;
        count = h.count;
        total = h.total;
        digest = h.digest;
        next_index = 0;
        parts = [];
        received = 0;
      }

      opened :
          leb l.max_incomplete_messages (length r.messages) ≡ false
          → ReaderValid l (record r { messages = insert h.message_id fresh r.messages })
      opened room = record {
        unique = insert-Unique h.message_id fresh r.messages v.unique;
        summed =
            ground
              (arith, v.summed, total-insert (λ k c. c.received) h.message_id fresh r.messages);
        bounded = v.bounded;
        few = ground (arith, length-insert h.message_id fresh r.messages);
        each = λ j d g. ground (arith, v.each j d, lookup-insert h.message_id j fresh r.messages);
      }
  begin-ReaderValid r kind h null payload v e = v
  begin-ReaderValid r kind h (bool b) payload v e = v
  begin-ReaderValid r kind h (int n) payload v e = v
  begin-ReaderValid r kind h (float x) payload v e = v
  begin-ReaderValid r kind h (str s) payload v e = v
  begin-ReaderValid r kind h (arr xs) payload v e = v

  accept_header-ReaderValid :
      (r : Reader) (kind : MessageType) (h : Header) (payload : List ℕ)
      → ReaderValid l r
      → ReaderValid l (accept_header sha256 l r kind h payload).1
  unfolding accept_header
  accept_header-ReaderValid r kind h payload v =
      elim (Option-cases (lookup h.message_id r.messages)) [
        | inl e ↦ rw (e, accept_header) (begin-ReaderValid r kind h h.control payload v e)
        | inr (c, e) ↦
            rw (e, accept_header)
              (if-case Keeps (agrees kind h c) (λ _. extend-ReaderValid r h c payload v e) (λ _. v))
      ]

  -- Whatever frame arrives, and whether it is accepted or refused, the reader keeps its books: the
  -- bytes it holds are the sum over its messages and at most `max_message_bytes`, there are at most
  -- `max_incomplete_messages`, and each message's count of bytes is that of its chunks.
  pub accept-ReaderValid :
      (r : Reader) (kind : MessageType) (header : Dict String Json) (payload : List ℕ)
      → ReaderValid l r
      → ReaderValid l (accept sha256 l r kind header payload).1
  unfolding accept
  accept-ReaderValid r kind header payload v = elim (Result-cases (parse_header l header)) [
    | inl (h, e) ↦ rw (e, accept) (accept_header-ReaderValid r kind h payload v)
    | inr (x, e) ↦ rw (e, accept) v
  ]
