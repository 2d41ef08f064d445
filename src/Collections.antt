-- ===== src/Collections.antt =====
-- What the program uses of `collections.deque` and of `heapq`. A deque is the list of its elements
-- from the left. Of a heap the program reads the least element and the set of elements only, so it
-- is the list of its elements in order.
pub mod Laws
use deadpool.Base.{
  ℕ, suc, ◌+◌, ◌≤◌, Bool, true, false, Option, none, some, List, [], ◌∷◌, ite, dec_le, ltb,
  if◌then◌else◌,
}
use deadpool.Dict.{Key}

module _ {ℓ} {A : Type ℓ} where
  abbrev pub is_empty : List A → Bool
  is_empty [] = true
  is_empty (x ∷ xs) = false

  -- d.popleft(), with the deque that is left
  abbrev pub popleft : List A → Option (A × List A)
  popleft [] = none
  popleft (x ∷ xs) = some (x, xs)

module _ {A : Type 0} ⦃e : Key A⦄ where
  -- d.remove(x); `none` is its ValueError
  unfoldable pub remove : A → List A → Option (List A)
  remove x [] = none
  remove x (y ∷ ys) =
      let rest = remove x ys in
      ite (e.eq y x) (some ys) (elim rest [ none ↦ none | some zs ↦ some (y ∷ zs) ])

  -- `try: d.remove(x) except ValueError: pass`
  unfoldable pub discard : A → List A → List A
  unfolding remove
  discard x ys = elim (remove x ys) [ none ↦ ys | some zs ↦ zs ]

  -- How often an element occurs.
  unfoldable pub count : A → List A → ℕ
  count x [] = 0
  count x (y ∷ ys) = let rest = count x ys in ite (e.eq y x) (suc rest) rest

-- heapq.heappush(h, n)
unfoldable pub heappush : ℕ → List ℕ → List ℕ
heappush n [] = n ∷ []
heappush n (m ∷ h) = let rest = heappush n h in if ltb m n then m ∷ rest else n ∷ m ∷ h

-- The least element of a heap stands first.
abbrev pub LeAll : ℕ → List ℕ → Type 0
LeAll n [] = Unit
LeAll n (m ∷ h) = (n ≤ m) × LeAll n h

abbrev pub IsHeap : List ℕ → Type 0
IsHeap [] = Unit
IsHeap (n ∷ h) = LeAll n h × IsHeap h
