-- ===== src/Dict/Sums.antt =====
-- Sums over a dict: an assignment and a deletion change the total by the entry they touch.
use deadpool.Base.{ℕ, ◌+◌, ◌≤◌, ◌≡◌, Option, none, some, [], ◌∷◌, arith}
use deadpool.Dict.{Key, Dict, lookup, insert, delete, Unique}
use deadpool.Dict.Laws.{delete_absent}

module _ {ℓ} {K V : Type ℓ} where
  -- The sum of a measure of the entries.
  abbrev pub total : (K → V → ℕ) → Dict K V → ℕ
  total f [] = 0
  total f ((k, v) ∷ d) = f k v + total f d

  -- The measure of the entry that a lookup found.
  abbrev pub entry : (K → V → ℕ) → K → Option V → ℕ
  entry f k none = 0
  entry f k (some v) = f k v

module _ {ℓ} {K V : Type ℓ} ⦃e : Key K⦄ where
  pub total-insert :
      (f : K → V → ℕ) (k : K) (v : V) (d : Dict K V)
      → total f (insert k v d) + entry f k (lookup k d) ≡ f k v + total f d
  unfolding lookup insert
  total-insert f k v [] = omega arith
  total-insert f k v ((i, w) ∷ d) = ground (arith, total-insert f k v d)

  pub total-delete :
      (f : K → V → ℕ) (k : K) (d : Dict K V)
      → Unique d
      → total f (delete k d) + entry f k (lookup k d) ≡ total f d
  unfolding lookup delete
  total-delete f k [] h = omega arith
  total-delete f k ((i, w) ∷ d) h = ground (arith, total-delete f k d, delete_absent k d)

  pub entry-le-total : (f : K → V → ℕ) (k : K) (d : Dict K V) → entry f k (lookup k d) ≤ total f d
  unfolding lookup
  entry-le-total f k [] = omega arith
  entry-le-total f k ((i, w) ∷ d) = ground (arith, entry-le-total f k d)
