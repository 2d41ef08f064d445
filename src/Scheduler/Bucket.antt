-- ===== src/Scheduler/Bucket.antt =====
-- The invariant of one priority's bucket: the round-robin deque holds each principal that has a
-- queue, once, and no queue is empty.
use deadpool.Base.{
  ℕ, ◌+◌, String, ◌≡◌, ◌≢◌, refl, Bool, true, false, some, List, [], ◌∷◌, ◌++◌, arith, length,
  length-append,
}
use deadpool.Dict.{lookup, Unique, has, text_key}
use deadpool.Dict.Laws.{lookup-insert, lookup-delete, insert-Unique, delete-Unique}
use deadpool.Dict.Sums.{total, total-insert, total-delete}
use deadpool.Collections.{count}
use deadpool.Collections.Laws.{count-append, count-discard}
use deadpool.Scheduler.{Priority, empty_priority, queue_of, enqueue, put_bucket, rotate, settle}

abbrev pub indicator : Bool → ℕ
indicator true = 1
indicator false = 0

pub record BucketValid {T : Type 0} (b : Priority T) : Type 0 where
  pub unique : Unique b.queued
  pub listed : (k : String) → count k b.principals ≡ indicator (has k b.queued)
  pub busy : (k : String) → lookup k b.queued ≢ some []

module _ {T : Type 0} where
  -- How many items the bucket holds.
  abbrev pub bucket_size : Priority T → ℕ
  bucket_size b = total (λ k q. length q) b.queued

  pub empty_priority-BucketValid : BucketValid (empty_priority {T = T})
  unfolding lookup count
  empty_priority-BucketValid = record { unique = tt; listed = λ k. refl; busy = λ k. ground arith }

  pub put_bucket-BucketValid :
      (item : T) (p : String) (front : Bool) (b : Priority T)
      → BucketValid b
      → BucketValid (put_bucket item p front b)
  unfolding put_bucket count
  put_bucket-BucketValid item p front b v = record {
    unique = insert-Unique p _ b.queued v.unique;
    listed = λ k. ground (
      arith,
      v.listed k,
      v.busy p,
      lookup-insert p k (enqueue front item (queue_of b p)) b.queued,
      count-append k b.principals (p ∷ []),
    );
    busy = λ k.
        ground (arith, v.busy k, lookup-insert p k (enqueue front item (queue_of b p)) b.queued);
  }

  pub rotate-BucketValid :
      (p : String) (ps : List String) (item : T) (queue : List T) (b : Priority T)
      → BucketValid b
      → b.principals ≡ p ∷ ps
      → queue_of b p ≡ item ∷ queue
      → BucketValid (rotate p ps queue b)
  unfolding rotate count
  rotate-BucketValid p ps item [] b v e q = record {
    unique = delete-Unique p b.queued v.unique;
    listed = λ k. ground (arith, v.listed k, v.listed p, lookup-delete p k b.queued);
    busy = λ k. ground (arith, v.busy k, lookup-delete p k b.queued);
  }
  rotate-BucketValid p ps item (x ∷ queue) b v e q = record {
    unique = insert-Unique p _ b.queued v.unique;
    listed = λ k.
        ground
          (arith, v.listed k, lookup-insert p k (x ∷ queue) b.queued, count-append k ps (p ∷ []));
    busy = λ k. ground (arith, v.busy k, lookup-insert p k (x ∷ queue) b.queued);
  }

  pub settle-BucketValid :
      (p : String) (queue : List T) (b : Priority T)
      → BucketValid b
      → has p b.queued ≡ true
      → BucketValid (settle p queue b)
  unfolding settle
  settle-BucketValid p [] b v h = record {
    unique = delete-Unique p b.queued v.unique;
    listed = λ k.
        ground (
          arith,
          v.listed k,
          v.listed p,
          lookup-delete p k b.queued,
          count-discard p k b.principals,
        );
    busy = λ k. ground (arith, v.busy k, lookup-delete p k b.queued);
  }
  settle-BucketValid p (x ∷ queue) b v h = record {
    unique = insert-Unique p _ b.queued v.unique;
    listed = λ k. ground (arith, v.listed k, lookup-insert p k (x ∷ queue) b.queued);
    busy = λ k. ground (arith, v.busy k, lookup-insert p k (x ∷ queue) b.queued);
  }

  pub bucket_size-put_bucket :
      (item : T) (p : String) (front : Bool) (b : Priority T)
      → bucket_size (put_bucket item p front b) ≡ bucket_size b + 1
  unfolding put_bucket
  bucket_size-put_bucket item p true b =
      ground (arith, total-insert (λ k q. length q) p (item ∷ queue_of b p) b.queued)
  bucket_size-put_bucket item p false b = ground (
    arith,
    length-append (queue_of b p) (item ∷ []),
    total-insert (λ k q. length q) p (queue_of b p ++ item ∷ []) b.queued,
  )

  -- Taking the item out of a queue and writing the queue back takes one item out of the bucket.
  pub bucket_size-rotate :
      (p : String) (ps : List String) (item : T) (queue : List T) (b : Priority T)
      → BucketValid b
      → queue_of b p ≡ item ∷ queue
      → bucket_size (rotate p ps queue b) + 1 ≡ bucket_size b
  unfolding rotate
  bucket_size-rotate p ps item [] b v q =
      ground (arith, total-delete (λ k q. length q) p b.queued v.unique)
  bucket_size-rotate p ps item (x ∷ queue) b v q =
      ground (arith, total-insert (λ k q. length q) p (x ∷ queue) b.queued)

  pub bucket_size-settle :
      (p : String) (queue old : List T) (b : Priority T)
      → BucketValid b
      → lookup p b.queued ≡ some old
      → length old ≡ length queue + 1
      → bucket_size (settle p queue b) + 1 ≡ bucket_size b
  unfolding settle
  bucket_size-settle p [] old b v q l =
      ground (arith, total-delete (λ k q. length q) p b.queued v.unique)
  bucket_size-settle p (x ∷ queue) old b v q l =
      ground (arith, total-insert (λ k q. length q) p (x ∷ queue) b.queued)
