-- ===== src/Tests/Pool.antt =====
-- deadpool/_pool.py at a pool of two workers, of which one dies while it runs a task.
use deadpool.Base.{ℕ, ◌≡◌, refl, true, Option, none, some, [], ◌∷◌, ℕ_discrete}
use deadpool.Result.{Result, ok, err}
use deadpool.Dict.{nat_key, lookup, insert}
use deadpool.Collections.{remove}
use deadpool.Pool.{Pool, PoolOptions, new_pool, get_process, submit_job, finish_task, raised, died}
use deadpool.Pool.Workers.{IsStaffed, start, takes, sends, finishes, Calls-IsStaffed}

abbrev options : PoolOptions
options = record {
  max_workers = some 2;
  min_workers = none;
  max_tasks_per_child = some 10;
  max_worker_memory_bytes = none;
  max_backlog = 5;
  cpus = 8;
}

abbrev pool : Pool
pool = new_pool options

abbrev taken_from : Option (ℕ × Pool) → Pool
taken_from none = pool
taken_from (some (wp, p)) = p

abbrev of_ok : Result Pool → Pool
of_ok (ok p) = p
of_ok (err x) = pool

abbrev taken : Pool
taken = submit_job 0 (taken_from (get_process pool))

abbrev timed_out : Pool
timed_out = of_ok (finish_task 0 7 (raised true) taken)

abbrev replaced : Pool
replaced = of_ok (finish_task 0 7 died taken)

worker_taken : get_process pool ≡ some (0, taken_from (get_process pool))
unfolding get_process new_pool
worker_taken = refl

task_ended : finish_task 0 7 died taken ≡ ok replaced
unfolding finish_task get_process remove lookup ℕ_discrete insert new_pool submit_job
task_ended = refl

-- A task that ends with a TimeoutError counts as two failed tasks.
counted_twice : (timed_out).statistics.tasks_failed ≡ 2
unfolding finish_task get_process remove lookup ℕ_discrete insert new_pool submit_job
counted_twice = refl

-- A worker that died is replaced by a new one.
worker_replaced : (replaced).workers ≡ 1 ∷ 2 ∷ []
unfolding finish_task get_process remove lookup ℕ_discrete insert new_pool submit_job
worker_replaced = refl

Calls-IsStaffed_example : IsStaffed replaced
Calls-IsStaffed_example =
    Calls-IsStaffed options replaced
      (finishes (sends (takes start 0 worker_taken) 0) 0 7 died task_ended)
