-- ===== src/Protocol/Send/Chunking.antt =====
-- The chunks of a payload, and that the reader's loop puts them together again.
use deadpool.Base.{
  ℕ, zero, suc, ◌+◌, ◌*◌, ◌≤◌, ◌≡◌, refl, List, [], ◌∷◌, ◌++◌, arith, length, take, drop, ap, sym,
  ◌∙◌,
}
use deadpool.Protocol.Reader.{join}
use deadpool.Protocol.Send.{chunk_at}

-- The chunks from `index` on, `left` of them.
abbrev pub chunks_from : ℕ → List ℕ → ℕ → ℕ → List (List ℕ)
chunks_from f payload index zero = []
chunks_from f payload index (suc left) =
    chunk_at f payload index ∷ chunks_from f payload (suc index) left

take-nil : (n : ℕ) → take {A = ℕ} n [] ≡ []
take-nil zero = refl
take-nil (suc n) = refl

drop-nil : (n : ℕ) → drop {A = ℕ} n [] ≡ []
drop-nil zero = refl
drop-nil (suc n) = refl

take-add : (n m : ℕ) (xs : List ℕ) → take (n + m) xs ≡ take n xs ++ take m (drop n xs)
take-add zero m xs = ap (λ k. take k xs) (omega arith)
take-add (suc n) m [] = take-nil (suc n + m) ∙ sym (take-nil m)
take-add (suc n) m (x ∷ xs) =
    ap (λ k. take k (x ∷ xs)) {y = suc (n + m)} (omega arith) ∙ ap (◌∷◌ x) (take-add n m xs)

drop-drop : (n m : ℕ) (xs : List ℕ) → drop m (drop n xs) ≡ drop (n + m) xs
drop-drop zero m xs = ap (λ k. drop k xs) (omega arith)
drop-drop (suc n) m [] = drop-nil m ∙ sym (drop-nil (suc n + m))
drop-drop (suc n) m (x ∷ xs) =
    drop-drop n m xs ∙ ap (λ k. drop k (x ∷ xs)) {x = suc (n + m)} (omega arith)

take_all : (n : ℕ) (xs : List ℕ) → length xs ≤ n → take n xs ≡ xs
take_all zero [] h = refl
take_all zero (x ∷ xs) h = absurd (omega arith)
take_all (suc n) [] h = refl
take_all (suc n) (x ∷ xs) h = ap (◌∷◌ x) (take_all n xs (omega arith))

join-chunks_from :
    (f : ℕ) (payload : List ℕ) (index left : ℕ)
    → join (chunks_from f payload index left) ≡ take (left * f) (drop (index * f) payload)
join-chunks_from f payload index zero =
    ap (λ k. take k (drop (index * f) payload)) {x = 0} (omega arith)
join-chunks_from f payload index (suc left) =
    ap (◌++◌ (chunk_at f payload index)) (join-chunks_from f payload (suc index) left)
    ∙ (ap (λ k. take f start ++ take (left * f) k) next
        ∙ sym
            (ap (λ k. take k start) {y = f + left * f} (omega arith) ∙ take-add f (left * f) start))
  where
    start : List ℕ
    start = drop (index * f) payload

    next : drop (suc index * f) payload ≡ drop f start
    next =
        ap (λ k. drop k payload) {y = index * f + f} (omega arith)
        ∙ sym (drop-drop (index * f) f payload)

pub join-chunks :
    (f : ℕ) (payload : List ℕ) (count : ℕ)
    → length payload ≤ count * f
    → join (chunks_from f payload 0 count) ≡ payload
join-chunks f payload count h =
    join-chunks_from f payload 0 count
    ∙ (ap (λ k. take (count * f) (drop k payload)) {y = 0} (omega arith)
        ∙ take_all (count * f) payload h)
