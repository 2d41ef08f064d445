-- ===== src/Protocol/WireLimits.antt =====
-- The limits that both ends of a connection compare, `_wire_limits` and `_validate_wire_limits` of
-- deadpool/remote/_protocol.py.
use deadpool.Base.{
  ℕ, ◌≡◌, refl, Bool, true, false, not, String, Option, none, some, List, [], ◌∷◌, ◌&&◌, any, ◌==◌,
  length, arith, ◌↔◌,
}
use deadpool.Dict.{Dict, has, lookup, text_key, text_eq}
use deadpool.Python.{pos, negsuc, nonpositive, equal_int}
use deadpool.Result.{Result, err, guard, ◌>>◌, remote_protocol_error}
use deadpool.Config.Limits.{Limits}
use deadpool.Protocol.Json.{Json, int, obj, Fields, end, field}
use deadpool.Protocol.Receive.{dict_of}

-- `_WIRE_LIMIT_FIELDS`
abbrev pub wire_limit_fields : List String
wire_limit_fields =
    "max_control_bytes" ∷ "max_frame_payload_bytes" ∷ "max_message_bytes" ∷ "max_metadata_bytes"
    ∷ "max_chunks" ∷ []

-- `_wire_limits`
unfoldable pub wire_limits : Limits → Fields
wire_limits l = field "max_control_bytes" (int (pos l.max_control_bytes)) (
    field "max_frame_payload_bytes" (int (pos l.max_frame_payload_bytes)) (
      field "max_message_bytes" (int (pos l.max_message_bytes)) (
        field "max_metadata_bytes" (int (pos l.max_metadata_bytes))
          (field "max_chunks" (int (pos l.max_chunks)) end))))

-- names <= set(value)
unfoldable pub has_all : List String → Dict String Json → Bool
has_all [] d = true
has_all (name ∷ names) d = has name d && has_all names d

abbrev same_text : String → String → Bool
same_text s t = elim (text_eq s t) [ yes p ↦ true | no n ↦ false ]

-- set(value) <= names
unfoldable pub only_has : List String → Dict String Json → Bool
only_has names [] = true
only_has names ((name, v) ∷ d) = any (same_text name) names && only_has names d

-- an integer, no boolean, greater than zero
abbrev pub is_positive_int : Json → Bool
is_positive_int (int n) = not (nonpositive n)
is_positive_int _ = false

unfoldable pub all_positive : Dict String Json → Bool
all_positive [] = true
all_positive ((name, v) ∷ d) = is_positive_int v && all_positive d

-- `_validate_wire_limits`
unfoldable pub validate_wire_limits : Option Json → Result (Unit {0})
unfolding has_all only_has all_positive
validate_wire_limits (some (obj fields)) =
    guard
      (only_has wire_limit_fields (dict_of fields) && has_all wire_limit_fields (dict_of fields))
      remote_protocol_error
    >> guard (all_positive (dict_of fields)) remote_protocol_error
validate_wire_limits _ = err remote_protocol_error

-- `==` of a value of one dict and what another has under its key
abbrev equals_int : Json → Option Json → Bool
equals_int (int m) (some (int n)) = equal_int m n
equals_int _ _ = false

unfoldable pub equal_entries : Dict String Json → Dict String Json → Bool
equal_entries [] d = true
equal_entries ((name, v) ∷ rest) d = equals_int v (lookup name d) && equal_entries rest d

-- `==` of a dict with `_wire_limits(limits)`, where the values are integers as in a dict that
-- `_validate_wire_limits` let pass
unfoldable pub same_wire_limits : Limits → Option Json → Bool
unfolding wire_limits equal_entries
same_wire_limits l (some (obj fields)) =
    length (dict_of fields) == length (dict_of (wire_limits l))
    && equal_entries (dict_of (wire_limits l)) (dict_of fields)
same_wire_limits l _ = false

-- The limits of the wire that a dict names.
pub record NamesLimits (l : Limits) (fields : Fields) : Type 0 where
  pub max_control_bytes :
      lookup "max_control_bytes" (dict_of fields) ≡ some (int (pos l.max_control_bytes))
  pub max_frame_payload_bytes :
      lookup "max_frame_payload_bytes" (dict_of fields) ≡ some (int (pos l.max_frame_payload_bytes))
  pub max_message_bytes :
      lookup "max_message_bytes" (dict_of fields) ≡ some (int (pos l.max_message_bytes))
  pub max_metadata_bytes :
      lookup "max_metadata_bytes" (dict_of fields) ≡ some (int (pos l.max_metadata_bytes))
  pub max_chunks : lookup "max_chunks" (dict_of fields) ≡ some (int (pos l.max_chunks))

equals_int_sound :
    (n : ℕ) (o : Option Json) → equals_int (int (pos n)) o ≡ true → o ≡ some (int (pos n))
equals_int_sound n none h = ground arith
equals_int_sound n (some (int (pos m))) h = let same : m ≡ n = ground (arith, h) in rw same refl
equals_int_sound n (some (int (negsuc m))) h = ground arith
equals_int_sound n (some Json.null) h = ground arith
equals_int_sound n (some (Json.bool b)) h = ground arith
equals_int_sound n (some (Json.float x)) h = ground arith
equals_int_sound n (some (Json.str s)) h = ground arith
equals_int_sound n (some (Json.arr vs)) h = ground arith
equals_int_sound n (some (obj fs)) h = ground arith

both : (a b : Bool) → a && b ≡ true → (a ≡ true) × (b ≡ true)
both true b h = (refl, h)
both false b h = ground arith

-- A dict equals the limits' only where it names each of them.
pub same_wire_limits-NamesLimits :
    (l : Limits) (fields : Fields)
    → same_wire_limits l (some (obj fields)) ≡ true
    → NamesLimits l fields
unfolding same_wire_limits wire_limits equal_entries
same_wire_limits-NamesLimits l fields h =
    let d = dict_of fields in
    let (_, h₀) = both _ _ h in
    let (control, h₁) =
      both (equals_int (int (pos l.max_control_bytes)) (lookup "max_control_bytes" d)) _ h₀ in
    let (frame, h₂) =
      both (equals_int (int (pos l.max_frame_payload_bytes)) (lookup "max_frame_payload_bytes" d)) _
        h₁ in
    let (message, h₃) =
      both (equals_int (int (pos l.max_message_bytes)) (lookup "max_message_bytes" d)) _ h₂ in
    let (metadata, h₄) =
      both (equals_int (int (pos l.max_metadata_bytes)) (lookup "max_metadata_bytes" d)) _ h₃ in
    let (chunks, _) = both (equals_int (int (pos l.max_chunks)) (lookup "max_chunks" d)) _ h₄ in
    record {
      max_control_bytes = equals_int_sound l.max_control_bytes _ control;
      max_frame_payload_bytes = equals_int_sound l.max_frame_payload_bytes _ frame;
      max_message_bytes = equals_int_sound l.max_message_bytes _ message;
      max_metadata_bytes = equals_int_sound l.max_metadata_bytes _ metadata;
      max_chunks = equals_int_sound l.max_chunks _ chunks;
    }

-- The limits of the wire are the same.
pub record SameWireLimits (l m : Limits) : Type 0 where
  pub max_control_bytes : l.max_control_bytes ≡ m.max_control_bytes
  pub max_frame_payload_bytes : l.max_frame_payload_bytes ≡ m.max_frame_payload_bytes
  pub max_message_bytes : l.max_message_bytes ≡ m.max_message_bytes
  pub max_metadata_bytes : l.max_metadata_bytes ≡ m.max_metadata_bytes
  pub max_chunks : l.max_chunks ≡ m.max_chunks

pub same_wire_limits_iff :
    (l m : Limits) → (same_wire_limits l (some (obj (wire_limits m))) ≡ true) ↔ SameWireLimits l m
unfolding same_wire_limits wire_limits equal_entries lookup text_eq
same_wire_limits_iff l m = (
  λ h. record {
    max_control_bytes = ground (arith, h);
    max_frame_payload_bytes = ground (arith, h);
    max_message_bytes = ground (arith, h);
    max_metadata_bytes = ground (arith, h);
    max_chunks = ground (arith, h);
  },
  λ s. ground (
    arith, s.max_control_bytes, s.max_frame_payload_bytes, s.max_message_bytes,
    s.max_metadata_bytes, s.max_chunks,
  ),
)
