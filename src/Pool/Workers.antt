-- ===== src/Pool/Workers.antt =====
-- The number of workers of the pool of deadpool/_pool.py.
use deadpool.Base.{
  ℕ, zero, suc, min, ◌+◌, ◌≤◌, ◌<◌, ◌≡◌, refl, true, false, Option, some, List, [], ◌∷◌, arith,
  length, length-append, if-case, not, ltb, ◌&&◌, ◌∙◌, subst, option-case,
}
use deadpool.Result.{Error, ok, >>=-eq-ok, or_raise, key_error}
use deadpool.Dict.{lookup, has, nat_key}
use deadpool.Python.{ℤ}
use deadpool.Collections.{is_empty, remove}
use deadpool.Collections.Laws.{length-remove}
use deadpool.Pool.{
  Pool, Worker, add_worker_to_pool, shut_down, grow, take_idle, get_process, recycle, reaches,
  settle_process, done_with_process, Answer, returned, raised, broken, died, read_answer,
  finish_task, complete, Completion, count_failures, spoil, submit, submit_future, exit_worker,
  unread, submit_job, measure, PoolOptions, add_workers, bare_pool, new_pool,
}

-- The pool's workers, idle and busy.
abbrev pub staff : Pool → ℕ
staff p = length p.workers + length p.busy_workers

-- There are at most `pool_size` workers, and at least `min_workers`, or as many as there may be.
pub record IsStaffed (p : Pool) : Type 0 where
  pub enough : min p.min_workers p.pool_size ≤ staff p
  pub few : staff p ≤ p.pool_size

-- The bounds of two pools are the same.
abbrev SameBounds : Pool → Pool → Type 0
SameBounds p q = (q.min_workers ≡ p.min_workers) × (q.pool_size ≡ p.pool_size)

add_worker_to_pool-staff :
    (p : Pool) → SameBounds p (add_worker_to_pool p) × (staff (add_worker_to_pool p) ≡ staff p + 1)
unfolding add_worker_to_pool
add_worker_to_pool-staff p =
    ((refl, refl), omega (arith, length-append p.workers (length p.processes ∷ [])))

grow-IsStaffed : (p : Pool) → IsStaffed p → IsStaffed (grow p)
unfolding grow
grow-IsStaffed p v =
    if-case IsStaffed
      (ltb (length p.busy_workers + length p.workers) p.pool_size && is_empty p.workers)
      (λ room.
        let (same, more) = add_worker_to_pool-staff p in
        let size : staff p < p.pool_size = ground (arith, room) in
        record {
          enough = omega (arith, same.0, more, v.enough);
          few = omega (arith, same.1, more, size);
        })
      (λ _. v)

take_idle-IsStaffed :
    (p : Pool) (idle : List ℕ) (wp : ℕ) (q : Pool)
    → p.workers ≡ idle
    → take_idle p idle ≡ some (wp, q)
    → IsStaffed p
    → IsStaffed q
unfolding take_idle
take_idle-IsStaffed p [] wp q e h v = ground arith
take_idle-IsStaffed p (i ∷ is) wp q e h v = record {
  enough = ground (arith, e, h, v.enough);
  few = ground (arith, e, h, v.few);
}

-- Taking a worker keeps the number of workers between `min_workers` and `pool_size`.
get_process-IsStaffed :
    (p : Pool) (wp : ℕ) (q : Pool) → get_process p ≡ some (wp, q) → IsStaffed p → IsStaffed q
unfolding get_process
get_process-IsStaffed p wp q h v =
    take_idle-IsStaffed (grow p) (grow p).workers wp q refl h (grow-IsStaffed p v)

-- A worker that is done was one of `staff p + 1`.
record Returning (p : Pool) : Type 0 where
  enough : min p.min_workers p.pool_size ≤ staff p + 1
  few : staff p + 1 ≤ p.pool_size

added-IsStaffed : (p : Pool) → Returning p → IsStaffed (add_worker_to_pool p)
added-IsStaffed p v =
    let (same, more) = add_worker_to_pool-staff p in
    record {
      enough = omega (arith, same.0, more, v.enough);
      few = omega (arith, same.1, more, v.few);
    }

stopped : (wp : ℕ) (p : Pool) → Returning p → Returning (shut_down wp p)
unfolding shut_down
stopped wp p v = record { enough = v.enough; few = v.few }

recycle-IsStaffed : (wp : ℕ) (w : Worker) (p : Pool) → Returning p → IsStaffed (recycle wp w p)
unfolding recycle
recycle-IsStaffed wp w p v =
    if-case IsStaffed (not w.alive) (λ _. added-IsStaffed p v)
      (λ _.
        if-case IsStaffed (not w.fine) (λ _. added-IsStaffed p v)
          (λ _.
            if-case IsStaffed (reaches w.tasks_ran p.max_tasks_per_child)
              (λ _. added-IsStaffed (shut_down wp p) (stopped wp p v))
              (λ _.
                if-case IsStaffed (reaches w.rss_bytes p.max_worker_memory_bytes)
                  (λ _. added-IsStaffed (shut_down wp p) (stopped wp p v))
                  (λ _. record {
                    enough = omega (arith, v.enough, length-append p.workers (wp ∷ []));
                    few = omega (arith, v.few, length-append p.workers (wp ∷ []));
                  }))))

settle_process-IsStaffed :
    (wp : ℕ) (w : Worker) (p : Pool) → Returning p → IsStaffed (settle_process wp w p)
unfolding settle_process shut_down
settle_process-IsStaffed wp w p v =
    if-case IsStaffed
      (ltb p.min_workers (length p.busy_workers + length p.workers + 1)
        && is_empty p.submitted_jobs)
      (λ spare.
        let more : p.min_workers < staff p + 1 = ground (arith, spare) in
        record { enough = omega (arith, more); few = omega (arith, v.few) })
      (λ _. recycle-IsStaffed wp w p v)

or_raise-some : (o : Option (List ℕ)) (x : Error) (a : List ℕ) → or_raise o x ≡ ok a → o ≡ some a
or_raise-some o x a h = ground arith

ok-injective : {p q : Pool} → ok p ≡ ok q → p ≡ q
ok-injective h = cc

done_with_process-IsStaffed :
    (wp : ℕ) (p q : Pool) → done_with_process wp p ≡ ok q → IsStaffed p → IsStaffed q
unfolding done_with_process
done_with_process-IsStaffed wp p q h v =
    let (busy, eb, h₁) = >>=-eq-ok (or_raise (remove wp p.busy_workers) key_error) _ h in
    let (w, _, h₂) = >>=-eq-ok (or_raise (lookup wp p.processes) key_error) _ h₁ in
    let one_less =
      length-remove wp p.busy_workers busy
        (or_raise-some (remove wp p.busy_workers) key_error busy eb) in
    let returning : Returning (record p { busy_workers = busy }) = record {
      enough = omega (arith, v.enough, one_less);
      few = omega (arith, v.few, one_less);
    } in
    subst IsStaffed (ok-injective h₂) (settle_process-IsStaffed wp w _ returning)

complete-IsStaffed :
    (fut : ℕ) (c : Completion) (p : Pool) → IsStaffed p → IsStaffed (complete fut c p)
unfolding complete
complete-IsStaffed fut c p v =
    if-case IsStaffed (has fut p.futures) (λ _. v) (λ _. record { enough = v.enough; few = v.few })

count_failures-IsStaffed : (n : ℕ) (p : Pool) → IsStaffed p → IsStaffed (count_failures n p)
count_failures-IsStaffed n p v = record { enough = v.enough; few = v.few }

spoil-IsStaffed : (wp : ℕ) (p : Pool) → IsStaffed p → IsStaffed (spoil wp p)
unfolding spoil
spoil-IsStaffed wp p v =
    option-case IsStaffed (lookup wp p.processes) (λ _. v)
      (λ w _. record { enough = v.enough; few = v.few })

exit_worker-IsStaffed : (wp : ℕ) (p : Pool) → IsStaffed p → IsStaffed (exit_worker wp p)
unfolding exit_worker
exit_worker-IsStaffed wp p v =
    option-case IsStaffed (lookup wp p.processes) (λ _. v)
      (λ w _. record { enough = v.enough; few = v.few })

submit_job-IsStaffed : (wp : ℕ) (p : Pool) → IsStaffed p → IsStaffed (submit_job wp p)
unfolding submit_job
submit_job-IsStaffed wp p v =
    option-case IsStaffed (lookup wp p.processes) (λ _. v)
      (λ w _. record { enough = v.enough; few = v.few })

measure-IsStaffed : (rss wp : ℕ) (p : Pool) → IsStaffed p → IsStaffed (measure rss wp p)
unfolding measure
measure-IsStaffed rss wp p v =
    option-case IsStaffed (lookup wp p.processes) (λ _. v)
      (λ w _. record { enough = v.enough; few = v.few })

failed-IsStaffed :
    (fut : ℕ) (c : Completion) (p : Pool)
    → IsStaffed p
    → IsStaffed (complete fut c (count_failures 1 p))
failed-IsStaffed fut c p v = complete-IsStaffed fut c _ (count_failures-IsStaffed 1 p v)

read_answer-IsStaffed :
    (wp fut : ℕ) (answer : Answer) (p : Pool)
    → IsStaffed p
    → IsStaffed (read_answer wp fut answer p)
unfolding read_answer
read_answer-IsStaffed wp fut returned p v = complete-IsStaffed fut _ p v
read_answer-IsStaffed wp fut (raised true) p v =
    spoil-IsStaffed wp _ (count_failures-IsStaffed 1 _ (failed-IsStaffed fut _ p v))
read_answer-IsStaffed wp fut (raised false) p v = failed-IsStaffed fut _ p v
read_answer-IsStaffed wp fut broken p v = failed-IsStaffed fut _ _ (exit_worker-IsStaffed wp p v)
read_answer-IsStaffed wp fut unread p v = failed-IsStaffed fut _ p v
read_answer-IsStaffed wp fut died p v = failed-IsStaffed fut _ _ (exit_worker-IsStaffed wp p v)

finish_task-IsStaffed :
    (wp fut : ℕ) (answer : Answer) (p q : Pool)
    → finish_task wp fut answer p ≡ ok q
    → IsStaffed p
    → IsStaffed q
unfolding finish_task
finish_task-IsStaffed wp fut answer p q h v =
    let (p', done, h₁) = >>=-eq-ok (done_with_process wp (read_answer wp fut answer p)) _ h in
    subst IsStaffed (ok-injective h₁) (
      complete-IsStaffed fut _ p'
        (done_with_process-IsStaffed wp _ p' done (read_answer-IsStaffed wp fut answer p v)))

submit-IsStaffed :
    (fut : ℕ) (priority : ℤ) (p q : Pool) → submit fut priority p ≡ ok q → IsStaffed p → IsStaffed q
unfolding submit submit_future
submit-IsStaffed fut priority p q h v = record {
  enough = ground (arith, h, v.enough);
  few = ground (arith, h, v.few);
}

-- What happens to a pool: a submission, a worker taken, a job given to it, a worker given back
-- without a job, a task that ended, a process that ended by itself, one that takes other memory.
pub data Calls (p : Pool) : Pool → Type 0 where
  start : Calls p p
  submits :
      {q r : Pool} → Calls p q → (fut : ℕ) (priority : ℤ) → submit fut priority q ≡ ok r → Calls p r
  takes : {q r : Pool} → Calls p q → (wp : ℕ) → get_process q ≡ some (wp, r) → Calls p r
  sends : {q : Pool} → Calls p q → (wp : ℕ) → Calls p (submit_job wp q)
  gives : {q r : Pool} → Calls p q → (wp : ℕ) → done_with_process wp q ≡ ok r → Calls p r
  finishes :
      {q r : Pool}
      → Calls p q
      → (wp fut : ℕ) (answer : Answer) → finish_task wp fut answer q ≡ ok r
      → Calls p r
  exits : {q : Pool} → Calls p q → (wp : ℕ) → Calls p (exit_worker wp q)
  measures : {q : Pool} → Calls p q → (rss wp : ℕ) → Calls p (measure rss wp q)

add_workers-staff :
    (n : ℕ) (p : Pool) → SameBounds p (add_workers n p) × (staff (add_workers n p) ≡ staff p + n)
unfolding add_workers
add_workers-staff zero p = ((refl, refl), omega arith)
add_workers-staff (suc n) p =
    let (same, more) = add_worker_to_pool-staff p in
    let (same', more') = add_workers-staff n (add_worker_to_pool p) in
    ((same'.0 ∙ same.0, same'.1 ∙ same.1), omega (arith, more, more'))

new_pool-IsStaffed : (o : PoolOptions) → IsStaffed (new_pool o)
unfolding new_pool bare_pool
new_pool-IsStaffed o =
    let (same, more) = add_workers-staff (bare_pool o).pool_size (bare_pool o) in
    record { enough = omega (arith, same.0, same.1, more); few = omega (arith, same.1, more) }

-- Whatever options a pool is made with, and through every sequence of submissions, of workers taken,
-- used and given back, of tasks that end in any way and of processes that end by themselves, the pool
-- has at most `pool_size` workers, and at least the lesser of `min_workers` and `pool_size`.
pub Calls-IsStaffed : (o : PoolOptions) (q : Pool) → Calls (new_pool o) q → IsStaffed q
Calls-IsStaffed o _ start = new_pool-IsStaffed o
Calls-IsStaffed o q (submits c fut priority h) =
    submit-IsStaffed fut priority _ _ h (Calls-IsStaffed o _ c)
Calls-IsStaffed o q (takes c wp h) = get_process-IsStaffed _ wp _ h (Calls-IsStaffed o _ c)
Calls-IsStaffed o _ (sends c wp) = submit_job-IsStaffed wp _ (Calls-IsStaffed o _ c)
Calls-IsStaffed o q (gives c wp h) = done_with_process-IsStaffed wp _ _ h (Calls-IsStaffed o _ c)
Calls-IsStaffed o q (finishes c wp fut answer h) =
    finish_task-IsStaffed wp fut answer _ _ h (Calls-IsStaffed o _ c)
Calls-IsStaffed o _ (exits c wp) = exit_worker-IsStaffed wp _ (Calls-IsStaffed o _ c)
Calls-IsStaffed o _ (measures c rss wp) = measure-IsStaffed rss wp _ (Calls-IsStaffed o _ c)
