-- ===== src/Dict/Laws.antt =====
-- What a lookup finds after an assignment or a deletion, and that both keep the keys distinct.
use deadpool.Base.{◌≡◌, refl, none, some, [], ◌∷◌, arith, ite, length, ◌+◌, if◌then◌else◌}
use deadpool.Dict.{Key, Dict, has, lookup, insert, delete, Unique}

module _ {ℓ} {K V : Type ℓ} ⦃e : Key K⦄ where
  pub lookup-insert :
      (k j : K) (v : V) (d : Dict K V)
      → lookup j (insert k v d) ≡ ite (e.eq k j) (some v) (lookup j d)
  unfolding lookup insert
  lookup-insert k j v [] = refl
  lookup-insert k j v ((i, w) ∷ d) = ground (arith, lookup-insert k j v d)

  pub lookup-delete :
      (k j : K) (d : Dict K V) → lookup j (delete k d) ≡ ite (e.eq k j) none (lookup j d)
  unfolding lookup delete
  lookup-delete k j [] = ground arith
  lookup-delete k j ((i, w) ∷ d) = ground (arith, lookup-delete k j d)

  pub insert-Unique : (k : K) (v : V) (d : Dict K V) → Unique d → Unique (insert k v d)
  unfolding lookup insert
  insert-Unique k v [] h = (refl, tt)
  insert-Unique k v ((i, w) ∷ d) h = ground (arith, insert-Unique k v d, lookup-insert k i v d)

  pub delete-Unique : (k : K) (d : Dict K V) → Unique d → Unique (delete k d)
  unfolding lookup delete
  delete-Unique k [] h = tt
  delete-Unique k ((i, w) ∷ d) h = ground (arith, delete-Unique k d, lookup-delete k i d)

  pub delete_absent : (k : K) (d : Dict K V) → lookup k d ≡ none → delete k d ≡ d
  unfolding lookup delete
  delete_absent k [] h = refl
  delete_absent k ((i, w) ∷ d) h = ground (arith, delete_absent k d)

  pub delete-insert_absent :
      (k : K) (v : V) (d : Dict K V) → lookup k d ≡ none → delete k (insert k v d) ≡ d
  unfolding lookup delete insert
  delete-insert_absent k v [] h = ground arith
  delete-insert_absent k v ((i, u) ∷ d) h = ground (arith, delete-insert_absent k v d)

  pub insert-insert : (k : K) (v w : V) (d : Dict K V) → insert k v (insert k w d) ≡ insert k v d
  unfolding lookup insert
  insert-insert k v w [] = ground arith
  insert-insert k v w ((i, u) ∷ d) = ground (arith, insert-insert k v w d)

  pub lookup-insert_self : (k : K) (v : V) (d : Dict K V) → lookup k (insert k v d) ≡ some v
  lookup-insert_self k v d = ground (arith, lookup-insert k k v d)

  pub length-insert :
      (k : K) (v : V) (d : Dict K V)
      → length (insert k v d) ≡ (if has k d then length d else length d + 1)
  unfolding lookup insert
  length-insert k v [] = omega arith
  length-insert k v ((j, w) ∷ d) = ground (arith, length-insert k v d)
