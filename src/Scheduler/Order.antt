-- ===== src/Scheduler/Order.antt =====
-- The contract of `put`, `put_front` and `pop`: strict priority, round robin among the principals
-- of a priority, first in first out for one principal.
use deadpool.Base.{
  ℕ, ◌+◌, ◌-◌, ◌<◌, String, ◌≡◌, ◌≢◌, refl, Bool, false, List, [], ◌∷◌, ◌++◌, arith, ite,
  if◌then◌else◌, inl, inr, ℕ_discrete, Bool-cases,
}
use deadpool.Result.{ok}
use deadpool.Dict.{lookup, has, nat_key, text_key, text_eq}
use deadpool.Collections.{is_empty, count}
use deadpool.Collections.Laws.{count_below, count-cons}
use deadpool.Scheduler.{
  Priority, FairScheduler, empty_priority, queue_of, enqueue, put_bucket, rotate, put_at, put_back,
  pop,
}
use deadpool.Scheduler.Bucket.{BucketValid, rotate-BucketValid}
use deadpool.Scheduler.Views.{
  stream, turns, bucket_at, bucket_at-put_at, bucket_at-put_back, queue_of-put_bucket,
  queue_of-rotate,
}
use deadpool.Scheduler.Invariant.{IsValid, Popped, pop-Popped, Popped-IsValid}

-- `pop` took `item` out of `s` and left `t`.
pub record Serves {T : Type 0} (s : FairScheduler T) (item : T) (t : FairScheduler T) : Type 0 where
  pub priority : ℕ
  pub principal : String
  pub waiting : List String
  pub queue : List T
  pub first_turn : turns s priority ≡ principal ∷ waiting
  pub first_item : stream s priority principal ≡ item ∷ queue
  -- No more urgent priority has anybody waiting.
  pub urgent : (q : ℕ) → q < priority → turns s q ≡ []
  -- The principal goes to the end of the round, or leaves it with its last item.
  pub turns_eq :
      (q : ℕ)
      → turns t q
        ≡ ite
            (ℕ_discrete priority q)
            (if is_empty queue then waiting else waiting ++ principal ∷ [])
            (turns s q)
  -- Only the item is gone.
  pub streams_eq :
      (q : ℕ) (j : String)
      → stream t q j
        ≡ ite
            (ℕ_discrete priority q)
            (ite (text_eq principal j) queue (stream s q j))
            (stream s q j)
  pub size_eq : t.size + 1 ≡ s.size

module _ {T : Type 0} where
  absent-turns : (s : FairScheduler T) (q : ℕ) → has q s.priorities ≡ false → turns s q ≡ []
  absent-turns s q h = ground arith

  no_turns_below :
      (s : FairScheduler T) (p q : ℕ) (h : List ℕ)
      → IsValid s
      → s.heap ≡ p ∷ h
      → q < p
      → turns s q ≡ []
  no_turns_below s p q h v e l = absent-turns s q (
      ground (
        arith,
        v.heap_listed q,
        count-cons p q h,
        count_below q p h ((rw e at v.heap_ordered).0) l,
      ))

  rotate-principals :
      (k : String) (ks : List String) (queue : List T) (b : Priority T)
      → (rotate k ks queue b).principals ≡ (if is_empty queue then ks else ks ++ k ∷ [])
  unfolding rotate
  rotate-principals k ks [] b = refl
  rotate-principals k ks (x ∷ queue) b = refl

  if_empty_principals :
      (b : Priority T)
      → (if is_empty b.principals then empty_priority else b).principals ≡ b.principals
  if_empty_principals b = ground arith

  rotate-principals-queue :
      (k : String) (ks : List String) (queue : List T) (b : Priority T) (j : String)
      → BucketValid (rotate k ks queue b)
      → queue_of
          (if is_empty (rotate k ks queue b).principals
            then empty_priority
            else rotate k ks queue b)
          j
        ≡ queue_of (rotate k ks queue b) j
  unfolding count lookup
  rotate-principals-queue k ks queue b j v =
      elim (Bool-cases (is_empty (rotate k ks queue b).principals)) [
        | inl e ↦ rw e (ground (arith, v.listed j))
        | inr e ↦ rw e
      ]

  put_back-size :
      (p : ℕ) (b : Priority T) (s : FairScheduler T) (h : List ℕ)
      → (put_back p b s h).size ≡ s.size - 1
  unfolding put_back
  put_back-size p b s h = ground arith

  put_at-size :
      (item : T) (p : ℕ) (k : String) (front : Bool) (s : FairScheduler T)
      → (put_at item p k front s).size ≡ s.size + 1
  unfolding put_at
  put_at-size item p k front s = ground arith

  Popped-Serves :
      (s : FairScheduler T) (r : Popped s)
      → IsValid s
      → s.size ≢ 0
      → Serves s r.item
          (put_back r.priority (rotate r.principal r.principals r.queue r.bucket) s r.heap)
  Popped-Serves s r v pos = record {
    priority = r.priority;
    principal = r.principal;
    waiting = r.principals;
    queue = r.queue;
    first_turn = ground (arith, r.bucket_eq, r.principals_eq);
    first_item = ground (arith, r.bucket_eq, r.queue_eq);
    urgent = λ q l. no_turns_below s r.priority q r.heap v r.heap_eq l;
    turns_eq = λ q. ground (
      arith,
      bucket_at-put_back r.priority q after s r.heap,
      if_empty_principals after,
      rotate-principals r.principal r.principals r.queue r.bucket,
    );
    streams_eq = λ q j. ground (
      arith,
      r.bucket_eq,
      bucket_at-put_back r.priority q after s r.heap,
      rotate-principals-queue r.principal r.principals r.queue r.bucket j valid,
      queue_of-rotate r.principal j r.principals r.queue r.bucket,
    );
    size_eq = omega (arith, put_back-size r.priority after s r.heap);
  }
    where
      after : Priority T
      after = rotate r.principal r.principals r.queue r.bucket

      valid : BucketValid after
      valid =
          rotate-BucketValid r.principal r.principals r.item r.queue r.bucket
            (v.buckets r.priority r.bucket r.bucket_eq) r.principals_eq r.queue_eq

  -- A valid scheduler with an item in it gives one up, by strict priority, in turn and in order,
  -- and stays valid.
  pub pop-Serves :
      (s : FairScheduler T)
      → IsValid s
      → s.size ≢ 0
      → (item : T) × (t : FairScheduler T) × (pop s ≡ ok (item, t)) × Serves s item t × IsValid t
  pop-Serves s v pos =
      let r = pop-Popped s v pos in
      (r.item, _, r.pop_eq, Popped-Serves s r v pos, Popped-IsValid s r v)

  pub put_at_views :
      (item : T) (p : ℕ) (k : String) (front : Bool) (s : FairScheduler T) (q : ℕ) (j : String)
      → (stream (put_at item p k front s) q j
          ≡ ite
              (ℕ_discrete p q)
              (ite (text_eq k j) (enqueue front item (stream s p k)) (stream s q j))
              (stream s q j))
        × (turns (put_at item p k front s) q
            ≡ ite
                (ℕ_discrete p q)
                (if is_empty (stream s p k) then turns s p ++ k ∷ [] else turns s p)
                (turns s q))
        × ((put_at item p k front s).size ≡ s.size + 1)
  unfolding put_bucket
  put_at_views item p k front s q j = (
    ground (
      arith,
      bucket_at-put_at item p q k front s,
      queue_of-put_bucket item k j front (bucket_at s p),
    ),
    ground (arith, bucket_at-put_at item p q k front s),
    put_at-size item p k front s,
  )
