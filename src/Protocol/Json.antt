-- ===== src/Protocol/Json.antt =====
-- The control values of deadpool/remote/_protocol.py and `_validate_json`, and the lexical scan
-- `_validate_json_nesting` over code points.
use Prim.Native.Nat.{◌^◌}
use Prim.Native.String.{len}
use deadpool.Base.{
  ℕ, suc, ◌+◌, ◌≤◌, ◌≡◌, refl, Bool, true, false, String, List, [], ◌∷◌, arith, ltb, leb, ◌==◌,
  ◌||◌, if◌then◌else◌, max, ◌↔◌,
}
use deadpool.Python.{ℤ, pos, negsuc, Float, is_finite, above, succ_ℤ, pred_ℤ}
use deadpool.Result.{Result, ok, err, remote_protocol_error, guard, ◌>>=◌, ◌>>◌}

mutual
  pub data Json : Type 0 where
    null : Json
    bool : Bool → Json
    int : ℤ → Json
    float : Float → Json
    str : String → Json
    arr : Items → Json
    obj : Fields → Json

  pub data Items : Type 0 where
    nil : Items
    cons : Json → Items → Items

  pub data Fields : Type 0 where
    end : Fields
    field : String → Json → Fields → Fields

-- len(value)
abbrev pub count_items : Items → ℕ
count_items nil = 0
count_items (cons x xs) = suc (count_items xs)

abbrev pub count_fields : Fields → ℕ
count_fields end = 0
count_fields (field k v fs) = suc (count_fields fs)

abbrev pub max_json_depth : ℕ
max_json_depth = 12

-- -(1 << 63) <= value < (1 << 63)
abbrev pub in_int64 : ℤ → Bool
in_int64 (pos n) = ltb n (2 ^ 63)
in_int64 (negsuc n) = ltb n (2 ^ 63)

-- `_validate_json`, where `limit` is `limits.max_metadata_bytes`. The keys of an object are texts, no text
-- has a lone surrogate, and there is no value of another type, so their refusals do not occur.
-- A text as a key is validated one level down, as a value is.
validate_text : ℕ → String → ℕ → Result (Unit {0})
validate_text limit s depth = do
  guard (leb depth max_json_depth) remote_protocol_error
  guard (leb (len s) limit) remote_protocol_error

unfoldable mutual
  unfolding validate_text

  pub validate_json : ℕ → Json → ℕ → Result (Unit {0})
  validate_json limit null depth = guard (leb depth max_json_depth) remote_protocol_error
  validate_json limit (bool b) depth = guard (leb depth max_json_depth) remote_protocol_error
  validate_json limit (int n) depth =
      guard (leb depth max_json_depth) remote_protocol_error
      >> guard (in_int64 n) remote_protocol_error
  validate_json limit (float x) depth =
      guard (leb depth max_json_depth) remote_protocol_error
      >> guard (is_finite x) remote_protocol_error
  validate_json limit (str s) depth = validate_text limit s depth
  validate_json limit (arr xs) depth =
      let each = validate_items limit xs (suc depth) in
      guard (leb depth max_json_depth) remote_protocol_error
      >> (guard (leb (count_items xs) 1024) remote_protocol_error >> each)
  validate_json limit (obj fs) depth =
      let each = validate_fields limit fs (suc depth) in
      guard (leb depth max_json_depth) remote_protocol_error
      >> (guard (leb (count_fields fs) 128) remote_protocol_error >> each)

  pub validate_items : ℕ → Items → ℕ → Result (Unit {0})
  validate_items limit nil depth = ok tt
  validate_items limit (cons x xs) depth =
      let rest = validate_items limit xs depth in validate_json limit x depth >> rest

  pub validate_fields : ℕ → Fields → ℕ → Result (Unit {0})
  validate_fields limit end depth = ok tt
  validate_fields limit (field k v fs) depth =
      let value = validate_json limit v depth in
      let rest = validate_fields limit fs depth in validate_text limit k depth >> (value >> rest)

-- The description that the validation is held to: how deep a value is nested, and that each part
-- of it is within its own bound.
mutual
  pub height : Json → ℕ
  height null = 0
  height (bool b) = 0
  height (int n) = 0
  height (float x) = 0
  height (str s) = 0
  height (arr xs) = levels xs
  height (obj fs) = levels_fields fs

  pub levels : Items → ℕ
  levels nil = 0
  levels (cons x xs) = max (suc (height x)) (levels xs)

  pub levels_fields : Fields → ℕ
  levels_fields end = 0
  levels_fields (field k v fs) = max (suc (height v)) (levels_fields fs)

unfoldable mutual
  pub Small : ℕ → Json → Type 0
  Small limit null = Unit
  Small limit (bool b) = Unit
  Small limit (int n) = in_int64 n ≡ true
  Small limit (float x) = is_finite x ≡ true
  Small limit (str s) = len s ≤ limit
  Small limit (arr xs) = (count_items xs ≤ 1024) × SmallItems limit xs
  Small limit (obj fs) = (count_fields fs ≤ 128) × SmallFields limit fs

  pub SmallItems : ℕ → Items → Type 0
  SmallItems limit nil = Unit
  SmallItems limit (cons x xs) = Small limit x × SmallItems limit xs

  pub SmallFields : ℕ → Fields → Type 0
  SmallFields limit end = Unit
  SmallFields limit (field k v fs) = (len k ≤ limit) × Small limit v × SmallFields limit fs

mutual
  unfolding validate_json height Small

  sound : (m : ℕ) (v : Json) (d : ℕ) → validate_json m v d ≡ ok tt → Small m v × (height v + d ≤ 12)
  sound m null d h = ground arith
  sound m (bool b) d h = ground arith
  sound m (int n) d h = ground arith
  sound m (float x) d h = ground arith
  sound m (str s) d h = ground arith
  sound m (arr xs) d h = ground (arith, sound_items m xs d)
  sound m (obj fs) d h = ground (arith, sound_fields m fs d)

  sound_items :
      (m : ℕ) (xs : Items) (d : ℕ)
      → validate_items m xs (suc d) ≡ ok tt
      → d ≤ 12
      → SmallItems m xs × (levels xs + d ≤ 12)
  sound_items m nil d h l = ground arith
  sound_items m (cons x xs) d h l = ground (arith, sound m x (suc d), sound_items m xs d)

  sound_fields :
      (m : ℕ) (fs : Fields) (d : ℕ)
      → validate_fields m fs (suc d) ≡ ok tt
      → d ≤ 12
      → SmallFields m fs × (levels_fields fs + d ≤ 12)
  sound_fields m end d h l = ground arith
  sound_fields m (field k v fs) d h l = ground (arith, sound m v (suc d), sound_fields m fs d)

mutual
  unfolding validate_json height Small

  complete :
      (m : ℕ) (v : Json) (d : ℕ) → Small m v → height v + d ≤ 12 → validate_json m v d ≡ ok tt
  complete m null d h l = ground arith
  complete m (bool b) d h l = ground arith
  complete m (int n) d h l = ground arith
  complete m (float x) d h l = ground arith
  complete m (str s) d h l = ground arith
  complete m (arr nil) d h l = ground arith
  complete m (arr (cons x xs)) d h l = ground (arith, complete_items m (cons x xs) d)
  complete m (obj end) d h l = ground arith
  complete m (obj (field k v fs)) d h l = ground (arith, complete_fields m (field k v fs) d)

  complete_items :
      (m : ℕ) (xs : Items) (d : ℕ)
      → SmallItems m xs
      → levels xs + d ≤ 12
      → validate_items m xs (suc d) ≡ ok tt
  complete_items m nil d h l = refl
  complete_items m (cons x xs) d h l = ground (arith, complete m x (suc d), complete_items m xs d)

  complete_fields :
      (m : ℕ) (fs : Fields) (d : ℕ)
      → SmallFields m fs
      → levels_fields fs + d ≤ 12
      → validate_fields m fs (suc d) ≡ ok tt
  complete_fields m end d h l = refl
  complete_fields m (field k v fs) d h l =
      ground (arith, complete m v (suc d), complete_fields m fs d)

-- `_validate_json` passes exactly the values whose integers are of 64 bits, whose floats are finite,
-- whose texts, lists and objects are within their bounds and which are nested at most 12 deep.
pub validate_json_iff :
    (m : ℕ) (v : Json) → (validate_json m v 0 ≡ ok tt) ↔ (Small m v × (height v ≤ 12))
validate_json_iff m v = (
  λ h. let (small, low) = sound m v 0 h in (small, omega arith),
  λ h. complete m v 0 h.0 (omega (arith, h.1)),
)

-- The variables of the loop of `_validate_json_nesting`.
pub record Scan : Type 0 where
  pub depth : ℤ
  pub in_string : Bool
  pub escaped : Bool

-- the body of the loop, for one character
unfoldable pub scan_char : Scan → ℕ → Result Scan
scan_char s c =
    if s.in_string
    then (if s.escaped
        then ok (record s { escaped = false })
        else if c == 92
        then ok (record s { escaped = true })
        else if c == 34
        then ok (record s { in_string = false })
        else ok s)
    else if c == 34
    then ok (record s { in_string = true })
    else if c == 91 || c == 123
    then (if above (succ_ℤ s.depth) (max_json_depth + 1)
        then err remote_protocol_error
        else ok (record s { depth = succ_ℤ s.depth }))
    else if c == 93 || c == 125
    then ok (record s { depth = pred_ℤ s.depth })
    else ok s

unfoldable pub scan_text : Scan → List ℕ → Result Scan
unfolding scan_char
scan_text s [] = ok s
scan_text s (c ∷ cs) = scan_char s c >>= λ t. scan_text t cs

-- `_validate_json_nesting`
unfoldable pub validate_nesting : List ℕ → Result (Unit {0})
unfolding scan_text
validate_nesting text =
    scan_text (record { depth = pos 0; in_string = false; escaped = false }) text >>= λ s. ok tt
