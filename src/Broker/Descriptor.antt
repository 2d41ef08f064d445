-- ===== src/Broker/Descriptor.antt =====
-- The cut of an outcome's descriptor to what a frame takes, in deadpool/remote/server.py:
-- `_fit_terminal_descriptor`, `_terminal_descriptor_fits` and `_truncate_utf8`, with
-- `validate_message_control` of deadpool/remote/_protocol.py. Texts have no lone surrogates.
pub mod Truncation
pub mod Longest
use Prim.Native.String.{len, slice, ◌++◌ as append}
use deadpool.Base.{
  ℕ, zero, suc, ◌+◌, ◌-◌, ◌/◌, Bool, true, false, String, Option, none, some, List, [], ◌∷◌,
  if◌then◌else◌, leb, ltb,
}
use deadpool.Dict.{Dict, lookup, insert, has, text_key}
use deadpool.Result.{Result, ok, err, ◌>>=◌}
use deadpool.Config.Limits.{Limits}
use deadpool.Protocol.Json.{Json, str, obj, Fields, end, field}
use deadpool.Protocol.Receive.{dict_of}
use deadpool.Protocol.Send.{message_chunk_count, frame_control, json_dumps}

abbrev pub marker : String
marker = "...[truncated]"

-- len(marker)
abbrev pub marker_length : ℕ
marker_length = 14

-- `_truncate_utf8`
unfoldable pub truncate_utf8 : String → ℕ → String
truncate_utf8 value limit =
    if leb (len value) limit
    then value
    else if leb limit marker_length
    then slice marker 0 limit
    else append (slice value 0 (limit - marker_length)) marker

-- "0" * 32 and "0" * 64
abbrev no_id : String
no_id = "00000000000000000000000000000000"

abbrev no_digest : String
no_digest = "0000000000000000000000000000000000000000000000000000000000000000"

abbrev pub is_ok {ℓ} : {A : Type ℓ} → Result A → Bool
is_ok (ok v) = true
is_ok (err x) = false

-- the fields that a descriptor keeps, and the order in which it gives them up
abbrev pub kept_fields : List String
kept_fields = "module" ∷ "type" ∷ "message" ∷ "serialization_error" ∷ "traceback" ∷ []

abbrev pub cut_fields : List String
cut_fields = "traceback" ∷ "serialization_error" ∷ "message" ∷ "type" ∷ "module" ∷ []

-- {name: text, ...}
abbrev pub fields_of : Dict String String → Fields
fields_of [] = end
fields_of ((name, text) ∷ d) = field name (str text) (fields_of d)

module _ (dumps : Json → List ℕ) (text : Json → String) (l : Limits) where
  -- `validate_message_control`
  unfoldable pub validate_message_control : Fields → ℕ → Result (List ℕ)
  unfolding message_chunk_count json_dumps
  validate_message_control control size = message_chunk_count size l >>= λ count.
      json_dumps dumps (frame_control no_id 0 count size no_digest (obj control)) l

  -- `_terminal_descriptor_fits`
  unfoldable pub terminal_descriptor_fits : String → Dict String String → ℕ → Bool
  unfolding validate_message_control
  terminal_descriptor_fits request_id descriptor size =
      is_ok
        (validate_message_control (field "request_id" (str request_id) (fields_of descriptor)) size)

  -- the descriptor with every text of the fields that it keeps cut to a metadata's length
  unfoldable pub bounded_fields : List String → Dict String Json → Dict String String
  unfolding truncate_utf8
  bounded_fields [] d = []
  bounded_fields (name ∷ names) d =
      let rest = bounded_fields names d in
      elim (lookup name d) [
        | none ↦ rest
        | some v ↦ (name, truncate_utf8 (text v) l.max_metadata_bytes) ∷ rest
      ]

  module _ (request_id : String) (size : ℕ) where
    -- The binary search for the longest text of a field that fits; `high` is one more than the
    -- source's, and the fuel is at most the number of lengths between the two.
    unfoldable pub longest : Dict String String → String → String → ℕ → ℕ → ℕ → String → String
    unfolding terminal_descriptor_fits truncate_utf8
    longest bounded name original zero low high best = best
    longest bounded name original (suc fuel) low high best =
        let middle = (low + high - 1) / 2 in
        let candidate = truncate_utf8 original middle in
        let fits = terminal_descriptor_fits request_id (insert name candidate bounded) size in
        elim (ltb low high) [
          | true ↦
              longest bounded name original fuel (if fits then suc middle else low)
                (if fits then high else middle) (if fits then candidate else best)
          | false ↦ best
        ]

    -- the loop that empties one field after the other until the rest fits
    unfoldable pub cut : List String → Dict String String → Dict String String
    unfolding longest terminal_descriptor_fits
    cut [] bounded = []
    cut (name ∷ names) bounded =
        let emptied = insert name "" bounded in
        let rest = cut names emptied in
        let others = cut names bounded in
        elim (lookup name bounded) [
          | none ↦ others
          | some original ↦
              if terminal_descriptor_fits request_id emptied size
              then insert name
                  (longest emptied name original (suc (len original)) 0 (suc (len original)) "")
                  emptied
              else rest
        ]

    -- `_fit_terminal_descriptor`
    unfoldable pub fit_bounded : Dict String String → Dict String String
    unfolding cut terminal_descriptor_fits
    fit_bounded bounded =
        if terminal_descriptor_fits request_id bounded size then bounded else cut cut_fields bounded

  unfoldable pub fit_terminal_descriptor : String → Fields → ℕ → Fields
  unfolding fit_bounded bounded_fields
  fit_terminal_descriptor request_id descriptor size =
      fields_of (fit_bounded request_id size (bounded_fields kept_fields (dict_of descriptor)))
