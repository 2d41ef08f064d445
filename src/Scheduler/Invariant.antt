-- ===== src/Scheduler/Invariant.antt =====
-- The invariant of the whole scheduler: each priority has a valid bucket with a principal in it,
-- the heap holds each of these priorities once, and the size counts the items.
use deadpool.Base.{
  ℕ, ◌+◌, ◌-◌, ◌≤◌, String, ◌≡◌, ◌≢◌, refl, Bool, true, false, none, some, List, [], ◌∷◌, arith,
  ite, length, Option-cases, List-cases, Bool-cases, ℕ_discrete, inl, inr, ◌∙◌,
}
use deadpool.Result.{ok, err, index_error}
use deadpool.Dict.{lookup, insert, delete, Unique, has, nat_key, text_key}
use deadpool.Dict.Laws.{lookup-insert, lookup-delete, insert-Unique, delete-Unique}
use deadpool.Dict.Sums.{total, entry, entry-le-total, total-insert, total-delete}
use deadpool.Collections.{is_empty, count, heappush, IsHeap}
use deadpool.Collections.Laws.{heappush-IsHeap, count-heappush, count-cons}
use deadpool.Scheduler.{
  Priority, FairScheduler, empty_priority, queue_of, enqueue, put_bucket, rotate, new, put_at,
  put_back, pop,
}
use deadpool.Scheduler.Bucket.{
  indicator, BucketValid, bucket_size, empty_priority-BucketValid, put_bucket-BucketValid,
  rotate-BucketValid, bucket_size-put_bucket, bucket_size-rotate,
}

pub record IsValid {T : Type 0} (s : FairScheduler T) : Type 0 where
  pub unique : Unique s.priorities
  pub heap_ordered : IsHeap s.heap
  pub heap_listed : (p : ℕ) → count p s.heap ≡ indicator (has p s.priorities)
  pub buckets : (p : ℕ) (b : Priority T) → lookup p s.priorities ≡ some b → BucketValid b
  pub inhabited : (p : ℕ) (b : Priority T) → lookup p s.priorities ≡ some b → b.principals ≢ []
  pub sized : s.size ≡ total (λ p b. bucket_size b) s.priorities

module _ {T : Type 0} where
  pub new-IsValid : IsValid (new {T = T})
  unfolding new lookup count
  new-IsValid = record {
    unique = tt;
    heap_ordered = tt;
    heap_listed = λ p. refl;
    buckets = λ p b h. cc;
    inhabited = λ p b h. cc;
    sized = refl;
  }

  inhabited_of_has :
      (k : String) (b : Priority T) → BucketValid b → has k b.queued ≡ true → b.principals ≢ []
  unfolding count
  inhabited_of_has k b v h e = ground (arith, v.listed k)

  has-put_bucket :
      (item : T) (k : String) (front : Bool) (b : Priority T)
      → has k (put_bucket item k front b).queued ≡ true
  unfolding put_bucket
  has-put_bucket item k front b =
      ground (arith, lookup-insert k k (enqueue front item (queue_of b k)) b.queued)

  -- A valid bucket written at a priority, with a heap that lists that priority too.
  insert-IsValid :
      (s : FairScheduler T) (p n : ℕ) (b : Priority T) (h : List ℕ)
      → IsValid s
      → BucketValid b
      → b.principals ≢ []
      → IsHeap h
      → ((q : ℕ) → count q h ≡ indicator (has q (insert p b s.priorities)))
      → n + entry (λ p b. bucket_size b) p (lookup p s.priorities) ≡ bucket_size b + s.size
      → IsValid (record { priorities = insert p b s.priorities; heap = h; size = n })
  insert-IsValid s p n b h v bv bi hv listed sized = record {
    unique = insert-Unique p b s.priorities v.unique;
    heap_ordered = hv;
    heap_listed = listed;
    buckets = λ q c e. ground (arith, v.buckets q c, lookup-insert p q b s.priorities);
    inhabited = λ q c e. ground (arith, v.inhabited q c, lookup-insert p q b s.priorities);
    sized = omega (arith, v.sized, total-insert (λ p b. bucket_size b) p b s.priorities);
  }

  delete-IsValid :
      (s : FairScheduler T) (p n : ℕ) (h : List ℕ)
      → IsValid s
      → IsHeap h
      → ((q : ℕ) → count q h ≡ indicator (has q (delete p s.priorities)))
      → n + entry (λ p b. bucket_size b) p (lookup p s.priorities) ≡ s.size
      → IsValid (record { priorities = delete p s.priorities; heap = h; size = n })
  delete-IsValid s p n h v hv listed sized = record {
    unique = delete-Unique p s.priorities v.unique;
    heap_ordered = hv;
    heap_listed = listed;
    buckets = λ q c e. ground (arith, v.buckets q c, lookup-delete p q s.priorities);
    inhabited = λ q c e. ground (arith, v.inhabited q c, lookup-delete p q s.priorities);
    sized = omega (arith, v.sized, total-delete (λ p b. bucket_size b) p s.priorities v.unique);
  }

  pub put_at-IsValid :
      (item : T) (p : ℕ) (k : String) (front : Bool) (s : FairScheduler T)
      → IsValid s
      → IsValid (put_at item p k front s)
  unfolding put_at
  put_at-IsValid item p k front s v = elim (Option-cases (lookup p s.priorities)) [
    | inl e ↦
        let b = put_bucket item k front empty_priority in
        let bv = put_bucket-BucketValid item k front empty_priority empty_priority-BucketValid in
        rw (e, put_at)
          (insert-IsValid s p (s.size + 1) b (heappush p s.heap) v bv
            (inhabited_of_has k b bv (has-put_bucket item k front empty_priority))
            (heappush-IsHeap p s.heap v.heap_ordered) (pushed b e)
            (ground (arith, bucket_size-put_bucket item k front empty_priority)))
    | inr (c, e) ↦
        let b = put_bucket item k front c in
        let bv = put_bucket-BucketValid item k front c (v.buckets p c e) in
        rw (e, put_at)
          (insert-IsValid s p (s.size + 1) b s.heap v bv
            (inhabited_of_has k b bv (has-put_bucket item k front c)) v.heap_ordered (kept b c e)
            (ground (arith, bucket_size-put_bucket item k front c)))
  ]
    where
      pushed :
          (b : Priority T)
          → lookup p s.priorities ≡ none
          → (q : ℕ) → count q (heappush p s.heap) ≡ indicator (has q (insert p b s.priorities))
      pushed b e q = ground (
        arith,
        v.heap_listed q,
        count-heappush p q s.heap,
        count-cons p q s.heap,
        lookup-insert p q b s.priorities,
      )

      kept :
          (b c : Priority T)
          → lookup p s.priorities ≡ some c
          → (q : ℕ) → count q s.heap ≡ indicator (has q (insert p b s.priorities))
      kept b c e q = ground (arith, v.heap_listed q, lookup-insert p q b s.priorities)

  total_absent :
      (d : List (String × List T))
      → ((k : String) → has k d ≡ false)
      → total (λ k q. length q) d ≡ 0
  unfolding lookup
  total_absent [] h = refl
  total_absent ((k, q) ∷ d) h = ground (arith, h k)

  bucket_size_empty :
      (b : Priority T) → BucketValid b → is_empty b.principals ≡ true → bucket_size b ≡ 0
  unfolding count
  bucket_size_empty b v h = total_absent b.queued (λ k. ground (arith, v.listed k))

  -- A bucket of one item fewer, put back or dropped: the last steps of `pop` and of `remove`.
  pub put_back-IsValid :
      (s : FairScheduler T) (p : ℕ) (b c : Priority T) (h : List ℕ)
      → IsValid s
      → lookup p s.priorities ≡ some b
      → BucketValid c
      → bucket_size c + 1 ≡ bucket_size b
      → IsHeap h
      → ((q : ℕ) → count q s.heap ≡ ite (ℕ_discrete p q) 1 0 + count q h)
      → IsValid (put_back p c s h)
  unfolding put_back
  put_back-IsValid s p b c h v e cv less hv taken = elim (Bool-cases (is_empty c.principals)) [
    | inl none_left ↦ rw none_left (
        delete-IsValid s p (s.size - 1) h v hv
          (λ q.
            ground
              (arith, taken q, v.heap_listed q, v.heap_listed p, lookup-delete p q s.priorities))
          (ground (arith, bucket_size_empty c cv none_left, counted)))
    | inr some_left ↦ rw some_left (
        insert-IsValid s p (s.size - 1) c s.heap v cv (ground arith) v.heap_ordered
          (λ q. ground (arith, v.heap_listed q, lookup-insert p q c s.priorities))
          (ground (arith, counted)))
  ]
    where
      counted : bucket_size b ≤ s.size
      counted = ground (arith, v.sized, entry-le-total (λ p b. bucket_size b) p s.priorities)

  -- What a successful `pop` has found.
  pub record Popped (s : FairScheduler T) : Type 0 where
    pub priority : ℕ
    pub heap : List ℕ
    pub bucket : Priority T
    pub principal : String
    pub principals : List String
    pub item : T
    pub queue : List T
    pub heap_eq : s.heap ≡ priority ∷ heap
    pub bucket_eq : lookup priority s.priorities ≡ some bucket
    pub principals_eq : bucket.principals ≡ principal ∷ principals
    pub queue_eq : queue_of bucket principal ≡ item ∷ queue
    pub pop_eq :
        pop s ≡ ok (item, put_back priority (rotate principal principals queue bucket) s heap)

  queue_inhabited :
      (b : Priority T) (k : String) (ks : List String)
      → BucketValid b
      → b.principals ≡ k ∷ ks
      → queue_of b k ≢ []
  unfolding count
  queue_inhabited b k ks v e = ground (arith, v.listed k, v.busy k)

  pop_bucket :
      (s : FairScheduler T) (p : ℕ) (h : List ℕ) (b : Priority T)
      → IsValid s
      → s.size ≢ 0
      → s.heap ≡ p ∷ h
      → lookup p s.priorities ≡ some b
      → Popped s
  unfolding pop
  pop_bucket s p h b v pos eh eb = elim (List-cases b.principals) [
    | inl none_left ↦ absurd (v.inhabited p b eb none_left)
    | inr (k, ks, ek) ↦ elim (List-cases (queue_of b k)) [
      | inl empty ↦ absurd (queue_inhabited b k ks (v.buckets p b eb) ek empty)
      | inr (item, queue, eq) ↦ record {
        priority = p;
        heap = h;
        bucket = b;
        principal = k;
        principals = ks;
        item = item;
        queue = queue;
        heap_eq = eh;
        bucket_eq = eb;
        principals_eq = ek;
        queue_eq = eq;
        pop_eq = ground arith;
      }
    ]
  ]

  has_of_total :
      (d : List (ℕ × Priority T)) → total (λ p b. bucket_size b) d ≢ 0 → (p : ℕ) × (has p d ≡ true)
  unfolding lookup
  has_of_total [] h = absurd (h refl)
  has_of_total ((p, b) ∷ d) h = (p, ground arith)

  heap_inhabited : (s : FairScheduler T) → IsValid s → s.size ≢ 0 → s.heap ≢ []
  unfolding count
  heap_inhabited s v pos e =
      let (p, there) = has_of_total s.priorities (λ z. pos (v.sized ∙ z)) in
      ground (arith, v.heap_listed p)

  has_of_heap :
      (s : FairScheduler T) (p : ℕ) (h : List ℕ)
      → IsValid s
      → s.heap ≡ p ∷ h
      → lookup p s.priorities ≢ none
  unfolding count
  has_of_heap s p h v e = ground (arith, v.heap_listed p)

  -- With an item in it a valid scheduler finds one: no KeyError, no IndexError.
  pub pop-Popped : (s : FairScheduler T) → IsValid s → s.size ≢ 0 → Popped s
  pop-Popped s v pos = elim (List-cases s.heap) [
    | inl e ↦ absurd (heap_inhabited s v pos e)
    | inr (p, h, e) ↦ elim (Option-cases (lookup p s.priorities)) [
      | inl missing ↦ absurd (has_of_heap s p h v e missing)
      | inr (b, eb) ↦ pop_bucket s p h b v pos e eb
    ]
  ]

  pub pop_empty : (s : FairScheduler T) → s.size ≡ 0 → pop s ≡ err index_error
  unfolding pop
  pop_empty s e = ground arith

  -- The scheduler that `pop` leaves is valid.
  pub Popped-IsValid :
      (s : FairScheduler T) (r : Popped s)
      → IsValid s
      → IsValid (put_back r.priority (rotate r.principal r.principals r.queue r.bucket) s r.heap)
  Popped-IsValid s r v =
      let bv = v.buckets r.priority r.bucket r.bucket_eq in
      put_back-IsValid s r.priority r.bucket _ r.heap v r.bucket_eq
        (rotate-BucketValid r.principal r.principals r.item r.queue r.bucket bv r.principals_eq
          r.queue_eq)
        (bucket_size-rotate r.principal r.principals r.item r.queue r.bucket bv r.queue_eq)
        (rw r.heap_eq at v.heap_ordered).1 (λ q. rw r.heap_eq (count-cons r.priority q r.heap))
