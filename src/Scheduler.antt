-- ===== src/Scheduler.antt =====
-- deadpool/remote/_scheduler.py: the broker's scheduler. Priorities are the non-negative integers
-- that the broker passes. Items are compared by `==` in `remove` alone.
pub mod Bucket
pub mod Views
pub mod Invariant
pub mod Order
pub mod Rounds
pub mod Removal
use deadpool.Base.{
  ℕ, suc, ◌+◌, ◌-◌, String, Bool, true, false, not, Option, none, some, List, [], ◌∷◌, ◌++◌,
  if◌then◌else◌, ◌==◌,
}
use deadpool.Result.{Result, ok, err, index_error, key_error, or_raise, ◌>>=◌}
use deadpool.Dict.{Key, Dict, lookup, insert, delete, nat_key, text_key}
use deadpool.Collections.{is_empty, popleft, remove, discard, heappush}

pub record Priority {ℓ} (T : Type ℓ) : Type ℓ where
  pub principals : List String
  pub queued : List (String × List T)

pub record FairScheduler {ℓ} (T : Type ℓ) : Type ℓ where
  pub priorities : List (ℕ × Priority T)
  pub heap : List ℕ
  pub size : ℕ

module _ {T : Type 0} where
  abbrev pub empty_priority : Priority T
  empty_priority = record { principals = []; queued = [] }

  unfoldable pub new : FairScheduler T
  new = record { priorities = []; heap = []; size = 0 }

  -- `bucket.queued[principal]`, a defaultdict of deques
  abbrev pub or_empty : Option (List T) → List T
  or_empty none = []
  or_empty (some queue) = queue

  abbrev pub queue_of : Priority T → String → List T
  queue_of bucket principal = or_empty (lookup principal bucket.queued)

  -- `append` or `appendleft`
  abbrev pub enqueue : Bool → T → List T → List T
  enqueue true item queue = item ∷ queue
  enqueue false item queue = queue ++ item ∷ []

  -- the part of `_put` below the choice of the bucket
  unfoldable pub put_bucket : T → String → Bool → Priority T → Priority T
  put_bucket item principal front bucket =
      let queue = queue_of bucket principal in
      record {
        principals =
            if is_empty queue then bucket.principals ++ principal ∷ [] else bucket.principals;
        queued = insert principal (enqueue front item queue) bucket.queued;
      }

  unfoldable pub put_at : T → ℕ → String → Bool → FairScheduler T → FairScheduler T
  put_at item priority principal front s = elim (lookup priority s.priorities) [
    | none ↦ record {
      priorities = insert priority (put_bucket item principal front empty_priority) s.priorities;
      heap = heappush priority s.heap;
      size = s.size + 1;
    }
    | some bucket ↦ record s {
      priorities = insert priority (put_bucket item principal front bucket) s.priorities;
      size = s.size + 1;
    }
  ]

  unfoldable pub put : T → ℕ → String → FairScheduler T → FairScheduler T
  put item priority principal s = put_at item priority principal false s

  unfoldable pub put_front : T → ℕ → String → FairScheduler T → FairScheduler T
  put_front item priority principal s = put_at item priority principal true s

  -- The bucket after `popleft` on both deques: `principals` and `queue` are what they leave.
  unfoldable pub rotate : String → List String → List T → Priority T → Priority T
  rotate principal principals queue bucket =
      if is_empty queue
      then record { principals = principals; queued = delete principal bucket.queued }
      else record {
        principals = principals ++ principal ∷ [];
        queued = insert principal queue bucket.queued;
      }

  -- The bucket is written back, or dropped with its priority where no principal is left in it.
  unfoldable pub put_back : ℕ → Priority T → FairScheduler T → List ℕ → FairScheduler T
  put_back priority bucket s heap =
      if is_empty bucket.principals
      then record { priorities = delete priority s.priorities; heap = heap; size = s.size - 1 }
      else record s { priorities = insert priority bucket s.priorities; size = s.size - 1 }

  unfoldable pub pop : FairScheduler T → Result (T × FairScheduler T)
  unfolding rotate put_back
  pop s =
      if s.size == 0
      then err index_error
      else or_raise (popleft s.heap) index_error >>= λ (priority, heap).
          or_raise (lookup priority s.priorities) key_error >>= λ bucket.
          or_raise (popleft bucket.principals) index_error >>= λ (principal, principals).
          or_raise (popleft (queue_of bucket principal)) index_error >>= λ (item, queue).
          ok (item, put_back priority (rotate principal principals queue bucket) s heap)

  -- the tail of the inner loop of `remove`: the queue that is left is put back, or dropped with its
  -- principal where it is empty
  unfoldable pub settle : String → List T → Priority T → Priority T
  settle principal queue bucket =
      if is_empty queue
      then record {
        principals = discard principal bucket.principals;
        queued = delete principal bucket.queued;
      }
      else record bucket { queued = insert principal queue bucket.queued }

module _ {T : Type 0} ⦃e : Key T⦄ where
  -- the inner loop of `remove`: the first queue that held the item, and what is left of it
  unfoldable pub remove_queued : T → List (String × List T) → Option (String × List T)
  remove_queued item [] = none
  remove_queued item ((principal, queue) ∷ d) =
      let rest = remove_queued item d in
      elim (remove item queue) [ none ↦ rest | some queue' ↦ some (principal, queue') ]

  -- the outer loop of `remove`: the first priority with such a queue, and its bucket afterwards
  unfoldable pub remove_priorities : T → List (ℕ × Priority T) → Option (ℕ × Priority T)
  unfolding settle
  remove_priorities item [] = none
  remove_priorities item ((priority, bucket) ∷ d) =
      let rest = remove_priorities item d in
      elim (remove_queued item bucket.queued) [
        | none ↦ rest
        | some (principal, queue) ↦ some (priority, settle principal queue bucket)
      ]

  unfoldable pub remove_item : T → FairScheduler T → Bool × FairScheduler T
  unfolding put_back
  remove_item item s = elim (remove_priorities item s.priorities) [
    | none ↦ (false, s)
    | some (priority, bucket) ↦ (true, put_back priority bucket s (discard priority s.heap))
  ]

module _ {T : Type 0} where
  -- `__len__` and `__bool__`
  abbrev pub len : FairScheduler T → ℕ
  len s = s.size

  abbrev pub is_true : FairScheduler T → Bool
  is_true s = not (s.size == 0)
