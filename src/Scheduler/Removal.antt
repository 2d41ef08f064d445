-- ===== src/Scheduler/Removal.antt =====
-- `remove` of the scheduler: what the search finds, and that the invariant survives.
use deadpool.Base.{ℕ, String, ◌≡◌, none, some, List, [], ◌∷◌, arith, Option-cases, inl, inr}
use deadpool.Dict.{Key, lookup, Unique, nat_key, text_key}
use deadpool.Collections.{count, remove, discard}
use deadpool.Collections.Laws.{length-remove, remove-none, discard-IsHeap, count-discard}
use deadpool.Scheduler.{
  Priority, FairScheduler, settle, put_back, remove_queued, remove_priorities, remove_item,
}
use deadpool.Scheduler.Bucket.{settle-BucketValid, bucket_size-settle}
use deadpool.Scheduler.Invariant.{IsValid, put_back-IsValid}

module _ {T : Type 0} ⦃e : Key T⦄ where
  -- The queue in which `remove_queued` found the item.
  pub record Queued (item : T) (d : List (String × List T)) (k : String) (queue : List T)
      : Type 0 where
    pub old : List T
    pub found : lookup k d ≡ some old
    pub removed : remove item old ≡ some queue

  skip_queue :
      (item : T) (j k : String) (first queue : List T) (d : List (String × List T))
      → lookup j d ≡ none
      → Queued item d k queue
      → Queued item ((j, first) ∷ d) k queue
  unfolding lookup
  skip_queue item j k first queue d fresh q = record {
    old = q.old;
    found = ground (arith, q.found);
    removed = q.removed;
  }

  pub remove_queued-Queued :
      (item : T) (d : List (String × List T)) (k : String) (queue : List T)
      → Unique d
      → remove_queued item d ≡ some (k, queue)
      → Queued item d k queue
  unfolding remove_queued lookup
  remove_queued-Queued item [] k queue u h = cc
  remove_queued-Queued item ((j, first) ∷ d) k queue u h = elim (Option-cases (remove item first)) [
    | inl missing ↦
        skip_queue item j k first queue d u.0
          (remove_queued-Queued item d k queue u.1 (ground arith))
    | inr (rest, here) ↦ record { old = first; found = ground arith; removed = ground arith }
  ]

  -- A failed search found the item in no queue.
  pub remove_queued-none :
      (item : T) (d : List (String × List T)) (k : String) (queue : List T)
      → remove_queued item d ≡ none
      → lookup k d ≡ some queue
      → count item queue ≡ 0
  unfolding remove_queued lookup
  remove_queued-none item [] k queue h l = cc
  remove_queued-none item ((j, first) ∷ d) k queue h l =
      ground (arith, remove-none item first, remove_queued-none item d k queue)

  pub record Found (item : T) (d : List (ℕ × Priority T)) (p : ℕ) (c : Priority T) : Type 0 where
    pub bucket : Priority T
    pub principal : String
    pub queue : List T
    pub found : lookup p d ≡ some bucket
    pub searched : remove_queued item bucket.queued ≡ some (principal, queue)
    pub settled : c ≡ settle principal queue bucket

  skip_priority :
      (item : T) (j p : ℕ) (first c : Priority T) (d : List (ℕ × Priority T))
      → lookup j d ≡ none
      → Found item d p c
      → Found item ((j, first) ∷ d) p c
  unfolding lookup
  skip_priority item j p first c d fresh f = record {
    bucket = f.bucket;
    principal = f.principal;
    queue = f.queue;
    found = ground (arith, f.found);
    searched = f.searched;
    settled = f.settled;
  }

  pub remove_priorities-Found :
      (item : T) (d : List (ℕ × Priority T)) (p : ℕ) (c : Priority T)
      → Unique d
      → remove_priorities item d ≡ some (p, c)
      → Found item d p c
  unfolding remove_priorities lookup
  remove_priorities-Found item [] p c u h = cc
  remove_priorities-Found item ((j, b) ∷ d) p c u h =
      elim (Option-cases (remove_queued item b.queued)) [
        | inl missing ↦
            skip_priority item j p b c d u.0 (remove_priorities-Found item d p c u.1 (ground arith))
        | inr ((k, queue), here) ↦ record {
          bucket = b;
          principal = k;
          queue = queue;
          found = ground arith;
          searched = ground arith;
          settled = ground arith;
        }
      ]

  pub remove_priorities-none :
      (item : T) (d : List (ℕ × Priority T)) (p : ℕ) (b : Priority T)
      → remove_priorities item d ≡ none
      → lookup p d ≡ some b
      → remove_queued item b.queued ≡ none
  unfolding remove_priorities lookup
  remove_priorities-none item [] p b h l = cc
  remove_priorities-none item ((j, first) ∷ d) p b h l =
      ground (arith, remove_priorities-none item d p b)

  Found-IsValid :
      (item : T) (s : FairScheduler T) (p : ℕ) (c : Priority T)
      → IsValid s
      → Found item s.priorities p c
      → IsValid (put_back p c s (discard p s.heap))
  Found-IsValid item s p c v f =
      let bv = v.buckets p f.bucket f.found in
      let q = remove_queued-Queued item f.bucket.queued f.principal f.queue bv.unique f.searched in
      put_back-IsValid s p f.bucket c (discard p s.heap) v f.found
        (rw f.settled
          (settle-BucketValid f.principal f.queue f.bucket bv (ground (arith, q.found))))
        (rw f.settled (
          bucket_size-settle f.principal f.queue q.old f.bucket bv q.found
            (length-remove item q.old f.queue q.removed)))
        (discard-IsHeap p s.heap v.heap_ordered)
        (λ r. ground (arith, count-discard p r s.heap, v.heap_listed p, f.found))

  pub remove_item-IsValid :
      (item : T) (s : FairScheduler T) → IsValid s → IsValid (remove_item item s).1
  unfolding remove_item
  remove_item-IsValid item s v = elim (Option-cases (remove_priorities item s.priorities)) [
    | inl missing ↦ rw (missing, remove_item) v
    | inr ((p, c), found) ↦
        rw (found, remove_item)
          (Found-IsValid item s p c v
            (remove_priorities-Found item s.priorities p c v.unique found))
  ]
