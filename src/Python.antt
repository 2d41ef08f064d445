-- ===== src/Python.antt =====
-- Python's values as the program tests them: integers, booleans, floats, texts, None.
use deadpool.Base.{ℕ, zero, suc, Bool, true, false, String, ltb, ◌==◌}

-- `negsuc n` is -(n + 1).
pub data ℤ : Type 0 where
  pos : ℕ → ℤ
  negsuc : ℕ → ℤ

-- A float is a mantissa and a power of two, an infinity (its sign: is it negative?) or a NaN.
pub data Float : Type 0 where
  finite : ℤ → ℤ → Float
  infinite : Bool → Float
  nan : Float

pub data PyValue : Type 0 where
  int : ℤ → PyValue
  bool : Bool → PyValue
  float : Float → PyValue
  str : String → PyValue
  none_value : PyValue

-- n + 1 and n - 1
abbrev pub succ_ℤ : ℤ → ℤ
succ_ℤ (pos n) = pos (suc n)
succ_ℤ (negsuc zero) = pos 0
succ_ℤ (negsuc (suc n)) = negsuc n

abbrev pub pred_ℤ : ℤ → ℤ
pred_ℤ (pos zero) = negsuc 0
pred_ℤ (pos (suc n)) = pos n
pred_ℤ (negsuc n) = negsuc (suc n)

-- value > n, for a non-negative n
abbrev pub above : ℤ → ℕ → Bool
above (pos m) n = ltb n m
above (negsuc m) n = false

-- value <= 0
abbrev pub nonpositive : ℤ → Bool
nonpositive (pos zero) = true
nonpositive (pos (suc n)) = false
nonpositive (negsuc n) = true

-- value < 0
abbrev pub negative : ℤ → Bool
negative (pos n) = false
negative (negsuc n) = true

-- m == n
abbrev pub equal_int : ℤ → ℤ → Bool
equal_int (pos m) (pos n) = m == n
equal_int (negsuc m) (negsuc n) = m == n
equal_int _ _ = false

-- The number that a non-negative integer is.
abbrev pub to_nat : ℤ → ℕ
to_nat (pos n) = n
to_nat (negsuc n) = 0

abbrev pub nat_of : PyValue → ℕ
nat_of (int n) = to_nat n
nat_of _ = 0

-- math.isfinite(value)
abbrev pub is_finite : Float → Bool
is_finite (finite m e) = true
is_finite (infinite s) = false
is_finite nan = false

-- value <= 0 and value < 0, which a NaN is not
abbrev pub float_nonpositive : Float → Bool
float_nonpositive (finite m e) = nonpositive m
float_nonpositive (infinite s) = s
float_nonpositive nan = false

abbrev pub float_negative : Float → Bool
float_negative (finite m e) = negative m
float_negative (infinite s) = s
float_negative nan = false
