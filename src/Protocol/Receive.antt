-- ===== src/Protocol/Receive.antt =====
-- `MessageReader.receive` and `_json_loads` of deadpool/remote/_protocol.py, over the bytes that a
-- connection delivers before it is closed. Decoding UTF-8 and the JSON of the standard library are the
-- parameters `decode` and `loads`: the code points of the bytes, and the value of a text with each
-- field of its objects in the order of the text. `loads` gives NaN and the infinities as floats, which
-- `_validate_json` refuses with the error that `parse_constant` leads to. Timeouts do not occur here.
use deadpool.Base.{
  ap, Bool, true, not, ◌&&◌, ℕ, zero, suc, ◌+◌, ◌≤◌, ◌<◌, ◌≡◌, ◌≢◌, String, Option, none, some,
  List, [], ◌∷◌, arith, ltb, if◌then◌else◌, length, take, drop, length-drop, inl, inr,
}
use deadpool.Result.{
  Result, ok, err, remote_protocol_error, eof_error, guard, or_raise, ◌>>=◌, ◌>>◌, Result-cases,
  >>=-eq-ok,
}
use deadpool.Config.Limits.{Limits}
use deadpool.Dict.{has, text_key}
use deadpool.Protocol.Json.{
  Json, arr, obj, Items, nil, cons, Fields, end, field, validate_json, validate_nesting,
}
use deadpool.Protocol.Frame.{MessageType, Prefix, unpack_prefix, check_prefix}
use deadpool.Protocol.Reader.{Message, Reader, accept}

-- The dict that a JSON object is.
abbrev pub dict_of : Fields → List (String × Json)
dict_of end = []
dict_of (field k v fs) = (k, v) ∷ dict_of fs

-- `_unique_object` at every object of a text: no key is repeated
unfoldable mutual
  pub unique_json : Json → Bool
  unique_json (arr vs) = unique_items vs
  unique_json (obj fs) = unique_fields fs
  unique_json _ = true

  pub unique_items : Items → Bool
  unique_items nil = true
  unique_items (cons v vs) = let rest = unique_items vs in unique_json v && rest

  pub unique_fields : Fields → Bool
  unique_fields end = true
  unique_fields (field k v fs) =
      let value = unique_json v in
      let rest = unique_fields fs in not (has k (dict_of fs)) && (value && rest)

abbrev as_object : Json → Result Fields
as_object (obj fs) = ok fs
as_object _ = err remote_protocol_error

-- `_recv_exact`: the bytes and what is left of the stream
unfoldable pub recv_exact : ℕ → List ℕ → Result (List ℕ × List ℕ)
recv_exact n bytes = if ltb (length bytes) n then err eof_error else ok (take n bytes, drop n bytes)

-- A frame as `_accept` is called with it, and what is left of the stream.
pub record Frame : Type 0 where
  pub kind : MessageType
  pub header : Fields
  pub payload : List ℕ
  pub rest : List ℕ

module _ (decode : List ℕ → Option (List ℕ)) (loads : List ℕ → Option Json) where
  -- `_json_loads`
  unfoldable pub json_loads : List ℕ → Limits → Result Fields
  unfolding unique_json
  json_loads bytes l = do
    text ← or_raise (decode bytes) remote_protocol_error
    validate_nesting text
    value ← or_raise (loads text) remote_protocol_error
    guard (unique_json value) remote_protocol_error
    validate_json l.max_metadata_bytes value 0
    as_object value

  -- the body of the loop of `receive`, down to the call of `_accept`
  unfoldable pub receive_frame : Limits → List ℕ → Result Frame
  unfolding json_loads recv_exact
  receive_frame l bytes = recv_exact 16 bytes >>= λ (head, bytes₁).
      or_raise (unpack_prefix head) remote_protocol_error >>= λ prefix.
      check_prefix l prefix >>= λ kind.
      recv_exact prefix.control_len bytes₁ >>= λ (control, bytes₂).
      json_loads control l >>= λ header. recv_exact prefix.payload_len bytes₂ >>= λ (payload, rest).
      ok (record { kind = kind; header = header; payload = payload; rest = rest })

  -- `receive`: a message with what is left of the stream, or what it raises; and the reader. It is
  -- `none` where the fuel, one for each frame, runs out.
  unfoldable pub receive_from :
      (List ℕ → String) → Limits → ℕ → Reader → List ℕ → Option (Result (Message × List ℕ) × Reader)
  unfolding receive_frame
  receive_from sha256 l zero r bytes = none
  receive_from sha256 l (suc fuel) r bytes = elim (receive_frame l bytes) [
    | err e ↦ some (err e, r)
    | ok frame ↦
        let (result, r') = accept sha256 l r frame.kind (dict_of frame.header) frame.payload in
        elim result [
          | err e ↦ some (err e, r')
          | ok none ↦ receive_from sha256 l fuel r' frame.rest
          | ok (some m) ↦ some (ok (m, frame.rest), r')
        ]
  ]

  unfoldable pub receive :
      (List ℕ → String) → Limits → Reader → List ℕ → Option (Result (Message × List ℕ) × Reader)
  unfolding receive_from
  receive sha256 l r bytes = receive_from sha256 l (suc (length bytes)) r bytes

recv_exact-rest :
    (n : ℕ) (bytes xs rest : List ℕ)
    → recv_exact n bytes ≡ ok (xs, rest)
    → length rest + n ≡ length bytes
unfolding recv_exact
recv_exact-rest n bytes xs rest h = ground (arith, length-drop n bytes)

module _ (decode : List ℕ → Option (List ℕ)) (loads : List ℕ → Option Json) where
  receive_frame-rest :
      (l : Limits) (bytes : List ℕ) (f : Frame)
      → receive_frame decode loads l bytes ≡ ok f
      → length f.rest + 16 ≤ length bytes
  unfolding receive_frame
  receive_frame-rest l bytes f h =
      let ((head, bytes₁), e₁, h₁) = >>=-eq-ok (recv_exact 16 bytes) _ h in
      let (prefix, _, h₂) = >>=-eq-ok (or_raise (unpack_prefix head) _) _ h₁ in
      let (kind, _, h₃) = >>=-eq-ok (check_prefix l prefix) _ h₂ in
      let ((control, bytes₂), e₂, h₄) = >>=-eq-ok (recv_exact prefix.control_len bytes₁) _ h₃ in
      let (header, _, h₅) = >>=-eq-ok (json_loads decode loads control l) _ h₄ in
      let ((payload, rest), e₃, h₆) = >>=-eq-ok (recv_exact prefix.payload_len bytes₂) _ h₅ in
      ground (
        arith,
        h₆,
        recv_exact-rest 16 bytes head bytes₁ e₁,
        recv_exact-rest prefix.control_len bytes₁ control bytes₂ e₂,
        recv_exact-rest prefix.payload_len bytes₂ payload rest e₃,
      )

  -- A frame of which each part is read is read whole.
  pub receive_frame_steps :
      (l : Limits) (bytes bytes₁ bytes₂ head control payload rest : List ℕ) (p : Prefix)
      (kind : MessageType) (header : Fields)
      → recv_exact 16 bytes ≡ ok (head, bytes₁)
      → unpack_prefix head ≡ some p
      → check_prefix l p ≡ ok kind
      → recv_exact p.control_len bytes₁ ≡ ok (control, bytes₂)
      → json_loads decode loads control l ≡ ok header
      → recv_exact p.payload_len bytes₂ ≡ ok (payload, rest)
      → receive_frame decode loads l bytes
        ≡ ok (record { kind = kind; header = header; payload = payload; rest = rest })
  unfolding receive_frame
  receive_frame_steps l bytes bytes₁ bytes₂ head control payload rest p kind header a b c d e f =
      rw (a, receive_frame) (rw b (rw c (rw d (rw e (rw f)))))

  -- One turn of the loop, for a chunk that completes a message and for one that does not.
  pub receive_from_done :
      (sha256 : List ℕ → String) (l : Limits) (fuel : ℕ) (r r' : Reader) (bytes : List ℕ)
      (f : Frame) (m : Message)
      → receive_frame decode loads l bytes ≡ ok f
      → accept sha256 l r f.kind (dict_of f.header) f.payload ≡ (ok (some m), r')
      → receive_from decode loads sha256 l (suc fuel) r bytes ≡ some (ok (m, f.rest), r')
  unfolding receive_from
  receive_from_done sha256 l fuel r r' bytes f m e g =
      rw (e, receive_from)
        (rw (ap (λ a. a.0) g) (ap (λ x. some (ok (m, f.rest), x)) (ap (λ a. a.1) g)))

  pub receive_from_more :
      (sha256 : List ℕ → String) (l : Limits) (fuel : ℕ) (r r' : Reader) (bytes : List ℕ)
      (f : Frame)
      → receive_frame decode loads l bytes ≡ ok f
      → accept sha256 l r f.kind (dict_of f.header) f.payload ≡ (ok none, r')
      → receive_from decode loads sha256 l (suc fuel) r bytes
        ≡ receive_from decode loads sha256 l fuel r' f.rest
  unfolding receive_from
  receive_from_more sha256 l fuel r r' bytes f e g =
      rw (e, receive_from)
        (rw (ap (λ a. a.0) g)
          (ap (λ x. receive_from decode loads sha256 l fuel x f.rest) (ap (λ a. a.1) g)))

  receive_from_total :
      (sha256 : List ℕ → String) (l : Limits) (fuel : ℕ) (r : Reader) (bytes : List ℕ)
      → length bytes < fuel
      → receive_from decode loads sha256 l fuel r bytes ≢ none
  unfolding receive_from
  receive_from_total sha256 l zero r bytes h = elim h [ ]
  receive_from_total sha256 l (suc fuel) r bytes h =
      elim (Result-cases (receive_frame decode loads l bytes)) [
        | inl (f, e) ↦
            let r' = (accept sha256 l r f.kind (dict_of f.header) f.payload).1 in
            ground
              (arith, e, receive_frame-rest l bytes f e, receive_from_total sha256 l fuel r' f.rest)
        | inr (x, e) ↦ ground (arith, e)
      ]

  -- Reading ends: each frame takes at least the 16 bytes of its prefix, so the bytes of the stream
  -- are fuel enough, and `receive` gives a message or an exception.
  pub receive_total :
      (sha256 : List ℕ → String) (l : Limits) (r : Reader) (bytes : List ℕ)
      → receive decode loads sha256 l r bytes ≢ none
  unfolding receive
  receive_total sha256 l r bytes =
      receive_from_total sha256 l (suc (length bytes)) r bytes (omega arith)
