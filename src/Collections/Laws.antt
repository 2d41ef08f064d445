-- ===== src/Collections/Laws.antt =====
-- Laws of the deque and heap operations, by how often an element occurs.
use deadpool.Base.{
  length, ℕ, ◌+◌, ◌≤◌, ◌<◌, ◌≡◌, refl, ap, ◌∙◌, min, Option, none, some, List, [], ◌∷◌, ◌++◌, arith,
  ite,
}
use deadpool.Dict.{Key, nat_key}
use deadpool.Collections.{remove, discard, count, heappush, LeAll, IsHeap}

module _ {A : Type 0} ⦃e : Key A⦄ where
  pub count-append : (x : A) (ys zs : List A) → count x (ys ++ zs) ≡ count x ys + count x zs
  unfolding count
  count-append x [] zs = omega arith
  count-append x (y ∷ ys) zs = ground (arith, count-append x ys zs)

  abbrev count_left : A → A → List A → Option (List A) → ℕ
  count_left x z ys none = count z ys
  count_left x z ys (some zs) = ite (e.eq x z) 1 0 + count z zs

  count-count_left : (x z : A) (ys : List A) → count z ys ≡ count_left x z ys (remove x ys)
  unfolding count remove
  count-count_left x z [] = refl
  count-count_left x z (y ∷ ys) = ground (arith, count-count_left x z ys)

  pub count-cons : (x z : A) (ys : List A) → count z (x ∷ ys) ≡ ite (e.eq x z) 1 0 + count z ys
  unfolding count
  count-cons x z ys = ground arith

  -- A removed element is gone once, and every other one is still there as often.
  pub count-remove :
      (x z : A) (ys zs : List A)
      → remove x ys ≡ some zs
      → count z ys ≡ ite (e.eq x z) 1 0 + count z zs
  count-remove x z ys zs h = count-count_left x z ys ∙ ap (count_left x z ys) h

  pub remove-none : (x : A) (ys : List A) → remove x ys ≡ none → count x ys ≡ 0
  unfolding count remove
  remove-none x [] h = refl
  remove-none x (y ∷ ys) h = ground (arith, remove-none x ys)

  abbrev length_left : List A → Option (List A) → ℕ
  length_left ys none = length ys
  length_left ys (some zs) = length zs + 1

  length-length_left : (x : A) (ys : List A) → length ys ≡ length_left ys (remove x ys)
  unfolding remove
  length-length_left x [] = refl
  length-length_left x (y ∷ ys) = ground (arith, length-length_left x ys)

  pub length-remove : (x : A) (ys zs : List A) → remove x ys ≡ some zs → length ys ≡ length zs + 1
  length-remove x ys zs h = length-length_left x ys ∙ ap (length_left ys) h

  -- `discard` takes out one occurrence, where there is one.
  pub count-discard :
      (x z : A) (ys : List A)
      → count z (discard x ys) + ite (e.eq x z) (min 1 (count x ys)) 0 ≡ count z ys
  unfolding discard
  count-discard x z ys =
      ground (arith, count-count_left x z ys, count-count_left x x ys, remove-none x ys)

pub LeAll-trans : (m n : ℕ) (h : List ℕ) → m ≤ n → LeAll n h → LeAll m h
LeAll-trans m n [] l v = tt
LeAll-trans m n (k ∷ h) l v = (omega arith, LeAll-trans m n h l v.1)

LeAll-heappush : (m n : ℕ) (h : List ℕ) → m ≤ n → LeAll m h → LeAll m (heappush n h)
unfolding heappush
LeAll-heappush m n [] l v = (l, tt)
LeAll-heappush m n (k ∷ h) l v = ground (arith, LeAll-heappush m n h)

pub heappush-IsHeap : (n : ℕ) (h : List ℕ) → IsHeap h → IsHeap (heappush n h)
unfolding heappush
heappush-IsHeap n [] v = (tt, tt)
heappush-IsHeap n (k ∷ h) v =
    ground (arith, heappush-IsHeap n h, LeAll-heappush k n h, LeAll-trans n k h)

pub count-heappush : (n m : ℕ) (h : List ℕ) → count m (heappush n h) ≡ count m (n ∷ h)
unfolding heappush count
count-heappush n m [] = refl
count-heappush n m (k ∷ h) = ground (arith, count-heappush n m h)

LeAll-discard : (m n : ℕ) (h : List ℕ) → LeAll m h → LeAll m (discard n h)
unfolding discard remove
LeAll-discard m n [] v = tt
LeAll-discard m n (k ∷ h) v = ground (arith, LeAll-discard m n h)

pub discard-IsHeap : (n : ℕ) (h : List ℕ) → IsHeap h → IsHeap (discard n h)
unfolding discard remove
discard-IsHeap n [] v = tt
discard-IsHeap n (k ∷ h) v = ground (arith, discard-IsHeap n h, LeAll-discard k n h)

-- What is below the least element does not occur.
pub count_below : (m n : ℕ) (h : List ℕ) → LeAll n h → m < n → count m h ≡ 0
unfolding count
count_below m n [] v l = refl
count_below m n (k ∷ h) v l = ground (arith, count_below m n h)
