-- ===== src/Broker/Descriptor/Truncation.antt =====
-- A text that `_truncate_utf8` of deadpool/remote/server.py cuts is as short as it was asked to be.
use Prim.Native.Nat.{◌-◌, compare as compare_ℕ, Ordering}
use Prim.Native.Char.{Char, len_utf8}
use Prim.Native.String.{String, [], ◌∷◌, len, slice, fits}
use Prim.Native.String.slice.{nil as slice_nil, cons-zero as slice_cons}
use Prim.Native.String.len.{nil as len_nil, cons as len_cons}
use text.Mathlib.TextPositions.{len-append, len_utf8-pos}
use deadpool.Base.{ℕ, ◌+◌, ◌≤◌, ◌≡◌, refl, arith, leb, if-case, ap, ◌∙◌}
use deadpool.Broker.Descriptor.{truncate_utf8, marker, marker_length}

-- A character in front of a text, where it fits.
len-fits :
    (c : Char) (k : ℕ) (rest : String)
    → len rest ≤ k - len_utf8 c
    → (o : Ordering) → compare_ℕ (len_utf8 c) k ≡ o
    → len (fits o c rest) ≤ k
len-fits c k rest h Ordering.lt e =
    let one : len (c ∷ rest) ≡ len_utf8 c + len rest = len_cons c rest in ground (arith, h, one, e)
len-fits c k rest h Ordering.eq e =
    let one : len (c ∷ rest) ≡ len_utf8 c + len rest = len_cons c rest in ground (arith, h, one, e)
len-fits c k rest h Ordering.gt e = rw len_nil (omega arith)

-- The characters that stand whole in front of a position take no more bytes than it counts.
pub len-slice : (s : String) (k : ℕ) → len (slice s 0 k) ≤ k
len-slice [] k =
    let empty : len (slice [] 0 k) ≡ 0 = ap len (slice_nil 0 k) ∙ len_nil in rw empty (omega arith)
len-slice (c ∷ s) k =
    let rest = slice s 0 (k - len_utf8 c) in
    let first : len (slice (c ∷ s) 0 k) ≡ len (fits (compare_ℕ (len_utf8 c) k) c rest) =
      ap len (slice_cons c s k) in
    rw first (len-fits c k rest (len-slice s (k - len_utf8 c)) (compare_ℕ (len_utf8 c) k) refl)

-- A text is cut to at most the bytes that it is given, and left as it is where it has no more.
pub truncate_utf8-le :
    (value : String) (limit : ℕ)
    → (len (truncate_utf8 value limit) ≤ limit)
      × (len value ≤ limit → truncate_utf8 value limit ≡ value)
unfolding truncate_utf8
truncate_utf8-le value limit = (short, λ h. ground (arith, h))
  where
    short : len (truncate_utf8 value limit) ≤ limit
    short =
        let P : String → Type 0 = λ s. len s ≤ limit in
        if-case P (leb (len value) limit) (λ h. ground (arith, h))
          (λ _.
            if-case P (leb limit marker_length) (λ _. len-slice marker limit)
              (λ h. ground (
                arith,
                h,
                len-append (slice value 0 (limit - marker_length)) marker,
                len-slice value (limit - marker_length),
              )))

-- Nothing is left of a text that is cut to no bytes.
pub truncate_utf8-zero : (value : String) → truncate_utf8 value 0 ≡ []
truncate_utf8-zero value = nothing (truncate_utf8 value 0) (truncate_utf8-le value 0).0
  where
    nothing : (s : String) → len s ≤ 0 → s ≡ []
    nothing [] h = refl
    nothing (c ∷ s) h =
        let one : len (c ∷ s) ≡ len_utf8 c + len s = len_cons c s in
        let (k, some) = len_utf8-pos c in ground (arith, h, one, some)
