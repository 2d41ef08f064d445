-- ===== src/Scheduler/Views.antt =====
-- The scheduler seen from outside: for each priority and principal the items that wait, in order,
-- and for each priority the principals in the order in which they are next served.
use deadpool.Base.{
  ℕ, String, ◌≡◌, Bool, Option, none, some, List, [], ◌∷◌, arith, ite, if◌then◌else◌, Option-cases,
  inl, inr,
}
use deadpool.Dict.{lookup, nat_key, text_key}
use deadpool.Dict.Laws.{lookup-insert, lookup-delete}
use deadpool.Collections.{is_empty}
use deadpool.Scheduler.{
  Priority, FairScheduler, empty_priority, queue_of, enqueue, put_bucket, rotate, put_at, put_back,
  settle,
}

module _ {T : Type 0} where
  abbrev pub bucket_or_empty : Option (Priority T) → Priority T
  bucket_or_empty none = empty_priority
  bucket_or_empty (some b) = b

  abbrev pub bucket_at : FairScheduler T → ℕ → Priority T
  bucket_at s p = bucket_or_empty (lookup p s.priorities)

  -- The items of one principal at one priority, first in first.
  abbrev pub stream : FairScheduler T → ℕ → String → List T
  stream s p k = queue_of (bucket_at s p) k

  -- The principals with items at one priority, next to be served first.
  abbrev pub turns : FairScheduler T → ℕ → List String
  turns s p = (bucket_at s p).principals

  pub bucket_at-put_at :
      (item : T) (p q : ℕ) (k : String) (front : Bool) (s : FairScheduler T)
      → bucket_at (put_at item p k front s) q
        ≡ ite (nat_key.eq p q) (put_bucket item k front (bucket_at s p)) (bucket_at s q)
  unfolding put_at
  bucket_at-put_at item p q k front s = elim (Option-cases (lookup p s.priorities)) [
    | inl e ↦
        rw (e, put_at)
          (ground (arith, lookup-insert p q (put_bucket item k front empty_priority) s.priorities))
    | inr (b, e) ↦
        rw (e, put_at) (ground (arith, lookup-insert p q (put_bucket item k front b) s.priorities))
  ]

  -- A bucket without principals shows no items: where it is dropped, nothing is lost from view.
  pub bucket_at-put_back :
      (p q : ℕ) (b : Priority T) (s : FairScheduler T) (h : List ℕ)
      → bucket_at (put_back p b s h) q
        ≡ ite (nat_key.eq p q) (if is_empty b.principals then empty_priority else b) (bucket_at s q)
  unfolding put_back
  bucket_at-put_back p q b s h =
      ground (arith, lookup-insert p q b s.priorities, lookup-delete p q s.priorities)

  pub queue_of-put_bucket :
      (item : T) (k j : String) (front : Bool) (b : Priority T)
      → queue_of (put_bucket item k front b) j
        ≡ ite (text_key.eq k j) (enqueue front item (queue_of b k)) (queue_of b j)
  unfolding put_bucket
  queue_of-put_bucket item k j front b =
      ground (arith, lookup-insert k j (enqueue front item (queue_of b k)) b.queued)

  pub queue_of-rotate :
      (k j : String) (ks : List String) (queue : List T) (b : Priority T)
      → queue_of (rotate k ks queue b) j ≡ ite (text_key.eq k j) queue (queue_of b j)
  unfolding rotate
  queue_of-rotate k j ks [] b = ground (arith, lookup-delete k j b.queued)
  queue_of-rotate k j ks (x ∷ queue) b = ground (arith, lookup-insert k j (x ∷ queue) b.queued)

  pub queue_of-settle :
      (k j : String) (queue : List T) (b : Priority T)
      → queue_of (settle k queue b) j ≡ ite (text_key.eq k j) queue (queue_of b j)
  unfolding settle
  queue_of-settle k j [] b = ground (arith, lookup-delete k j b.queued)
  queue_of-settle k j (x ∷ queue) b = ground (arith, lookup-insert k j (x ∷ queue) b.queued)
