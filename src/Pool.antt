-- ===== src/Pool.antt =====
-- deadpool/_pool.py: the local pool's workers, its queue of jobs and its counters. Workers and futures
-- are numbered; a worker's process and a future's result are in one table each. Starting, stopping and
-- killing a process show as the lists of workers that were shut down and of pids that were killed.
pub mod Workers
use deadpool.Base.{
  ℕ, zero, suc, ◌+◌, ◌-◌, Bool, true, false, not, Option, none, some, List, [], ◌∷◌, ◌++◌,
  if◌then◌else◌, ◌==◌, ◌&&◌, ltb, leb, length, is_some, max,
}
use deadpool.Result.{Result, ok, err, value_error, key_error, pool_closed, full, or_raise, ◌>>=◌}
use deadpool.Dict.{Dict, lookup, insert, delete, has, nat_key}
use deadpool.Collections.{is_empty, remove}
use deadpool.Python.{ℤ, pos, negsuc, negative}

-- What the pool reads of a `WorkerProcess`.
pub record Worker : Type 0 where
  pub alive : Bool
  pub fine : Bool
  pub tasks_ran : ℕ
  pub rss_bytes : ℕ

-- `PrioritizedItem`; an item without a future is the None that ends the runner
pub record PrioritizedItem : Type 0 where
  pub priority : ℤ
  pub sequence : ℕ
  pub item : Option ℕ

pub record Counters : Type 0 where
  pub tasks_received : ℕ
  pub tasks_launched : ℕ
  pub tasks_failed : ℕ
  pub worker_processes_created : ℕ
  pub max_workers_busy_concurrently : ℕ

-- `Statistics.reset_counters`
unfoldable pub reset_counters : Counters → Counters
reset_counters c = record {
  tasks_received = 0;
  tasks_launched = 0;
  tasks_failed = 0;
  worker_processes_created = 0;
  max_workers_busy_concurrently = 0;
}

-- What a future was given: a result, an exception (is it a TimeoutError?), or a cancellation.
pub data Completion : Type 0 where
  result : Completion
  failed : Bool → Completion
  cancelled : Completion

pub record Pool : Type 0 where
  pub pool_size : ℕ
  pub min_workers : ℕ
  pub max_tasks_per_child : Option ℕ
  pub max_worker_memory_bytes : Option ℕ
  pub max_backlog : ℕ
  pub closed : Bool
  pub processes : List (ℕ × Worker)
  pub workers : List ℕ
  pub busy_workers : List ℕ
  pub stopped : List ℕ
  pub submitted_jobs : List PrioritizedItem
  pub next_sequence : ℕ
  pub futures : List (ℕ × Completion)
  pub statistics : Counters

abbrev new_worker : Worker
new_worker = record { alive = true; fine = true; tasks_ran = 0; rss_bytes = 0 }

-- `add_worker_to_pool`: a new worker is put behind those that are idle
unfoldable pub add_worker_to_pool : Pool → Pool
add_worker_to_pool p = record p {
  processes = insert (length p.processes) new_worker p.processes;
  workers = p.workers ++ length p.processes ∷ [];
  statistics = record (p.statistics) {
    worker_processes_created = p.statistics.worker_processes_created + 1;
  };
}

-- the loop of `__init__`
unfoldable pub add_workers : ℕ → Pool → Pool
unfolding add_worker_to_pool
add_workers zero p = p
add_workers (suc n) p = add_workers n (add_worker_to_pool p)

-- max_workers or len(os.sched_getaffinity(0))
unfoldable pub size_of : Option ℕ → ℕ → ℕ
size_of none cpus = cpus
size_of (some n) cpus = if n == 0 then cpus else n

abbrev no_counters : Counters
no_counters = record {
  tasks_received = 0;
  tasks_launched = 0;
  tasks_failed = 0;
  worker_processes_created = 0;
  max_workers_busy_concurrently = 0;
}

-- What a `Deadpool` is made with, and the number of processors it may run on.
pub record PoolOptions : Type 0 where
  pub max_workers : Option ℕ
  pub min_workers : Option ℕ
  pub max_tasks_per_child : Option ℕ
  pub max_worker_memory_bytes : Option ℕ
  pub max_backlog : ℕ
  pub cpus : ℕ

-- `Deadpool.__init__` before its loop
unfoldable pub bare_pool : PoolOptions → Pool
unfolding size_of
bare_pool o = record {
  pool_size = size_of o.max_workers o.cpus;
  min_workers = elim o.min_workers [ none ↦ size_of o.max_workers o.cpus | some n ↦ n ];
  max_tasks_per_child = o.max_tasks_per_child;
  max_worker_memory_bytes = o.max_worker_memory_bytes;
  max_backlog = o.max_backlog;
  closed = false;
  processes = [];
  workers = [];
  busy_workers = [];
  stopped = [];
  submitted_jobs = [];
  next_sequence = 0;
  futures = [];
  statistics = no_counters;
}

-- `Deadpool.__init__`
unfoldable pub new_pool : PoolOptions → Pool
unfolding bare_pool add_workers
new_pool o = add_workers (bare_pool o).pool_size (bare_pool o)

-- wp.shutdown(wait=False)
unfoldable pub shut_down : ℕ → Pool → Pool
shut_down wp p = record p { stopped = wp ∷ p.stopped }

-- `clear_workers`
unfoldable pub clear_workers : Pool → Pool
clear_workers p = record p { workers = []; stopped = p.workers ++ p.stopped }

-- the first lines of `get_process`: a worker is added where none is idle and there is room
unfoldable pub grow : Pool → Pool
unfolding add_worker_to_pool
grow p =
    if ltb (length p.busy_workers + length p.workers) p.pool_size && is_empty p.workers
    then add_worker_to_pool p
    else p

-- self.workers.get(), which waits where no worker is idle, and the rest of `get_process`
unfoldable pub take_idle : Pool → List ℕ → Option (ℕ × Pool)
take_idle p [] = none
take_idle p (wp ∷ idle) = some (
  wp,
  record p {
    workers = idle;
    busy_workers = wp ∷ p.busy_workers;
    statistics = record (p.statistics) {
      max_workers_busy_concurrently =
          max p.statistics.max_workers_busy_concurrently (suc (length p.busy_workers));
    };
  },
)

-- `get_process`
unfoldable pub get_process : Pool → Option (ℕ × Pool)
unfolding grow take_idle
get_process p = take_idle (grow p) (grow p).workers

abbrev pub reaches : ℕ → Option ℕ → Bool
reaches n none = false
reaches n (some bound) = leb bound n

-- the end of `done_with_process`, for a worker that stays within the pool's needs
unfoldable pub recycle : ℕ → Worker → Pool → Pool
unfolding add_worker_to_pool shut_down
recycle wp w p =
    if not w.alive
    then add_worker_to_pool p
    else if not w.fine
    then add_worker_to_pool p
    else if reaches w.tasks_ran p.max_tasks_per_child
    then add_worker_to_pool (shut_down wp p)
    else if reaches w.rss_bytes p.max_worker_memory_bytes
    then add_worker_to_pool (shut_down wp p)
    else record p { workers = p.workers ++ wp ∷ [] }

-- `done_with_process` below the removal from the busy workers
unfoldable pub settle_process : ℕ → Worker → Pool → Pool
unfolding recycle shut_down
settle_process wp w p =
    if ltb p.min_workers (length p.busy_workers + length p.workers + 1) && is_empty p.submitted_jobs
    then shut_down wp p
    else recycle wp w p

-- `done_with_process`; a set's `remove` raises where the worker is not busy
unfoldable pub done_with_process : ℕ → Pool → Result Pool
unfolding settle_process
done_with_process wp p = or_raise (remove wp p.busy_workers) key_error >>= λ busy.
    or_raise (lookup wp p.processes) key_error >>= λ w.
    ok (settle_process wp w (record p { busy_workers = busy }))

-- fut.done(), and the first completion of a future, which later ones do not replace
unfoldable pub complete : ℕ → Completion → Pool → Pool
complete fut c p = if has fut p.futures then p else record p { futures = insert fut c p.futures }

abbrev before : PrioritizedItem → PrioritizedItem → Bool
before x y = less x.priority y.priority
  where
    less : ℤ → ℤ → Bool
    less (pos m) (pos n) = ltb m n
    less (pos m) (negsuc n) = false
    less (negsuc m) (pos n) = true
    less (negsuc m) (negsuc n) = ltb n m

-- The priority queue as a list in the order in which it is read; an item that is put has the greatest
-- sequence number, so it goes behind those of its priority.
unfoldable pub put_item : PrioritizedItem → List PrioritizedItem → List PrioritizedItem
put_item x [] = x ∷ []
put_item x (y ∷ ys) = let rest = put_item x ys in if before x y then x ∷ y ∷ ys else y ∷ rest

-- `_submit_future` with block=False, where a backlog without a bound is 0
unfoldable pub submit_future : ℕ → ℤ → Pool → Result Pool
unfolding put_item
submit_future fut priority p =
    if p.closed
    then err pool_closed
    else if ltb 0 p.max_backlog && leb p.max_backlog (length p.submitted_jobs)
    then err full
    else ok (record p {
      submitted_jobs =
          put_item (record { priority = priority; sequence = p.next_sequence; item = some fut })
            p.submitted_jobs;
      next_sequence = p.next_sequence + 1;
      statistics = record (p.statistics) { tasks_received = p.statistics.tasks_received + 1 };
    })

-- `submit`, where the queue has room
unfoldable pub submit : ℕ → ℤ → Pool → Result Pool
unfolding submit_future
submit fut priority p =
    if negative priority
    then err value_error
    else if p.closed
    then err pool_closed
    else submit_future fut priority p

-- What a worker's pipe gives `run_task` for a job: a result, an exception that the task raised, which
-- may be a TimeoutError, the end of the pipe, another exception of reading it, or a dead worker.
pub data Answer : Type 0 where
  returned : Answer
  raised : Bool → Answer
  broken : Answer
  unread : Answer
  died : Answer

abbrev pub count_failures : ℕ → Pool → Pool
count_failures n p = record p {
  statistics = record (p.statistics) { tasks_failed = p.statistics.tasks_failed + n };
}

abbrev change_worker : ℕ → (Worker → Worker) → Pool → Pool
change_worker wp change p = elim (lookup wp p.processes) [
  | none ↦ p
  | some w ↦ record p { processes = insert wp (change w) p.processes }
]

-- worker.ok = False
unfoldable pub spoil : ℕ → Pool → Pool
spoil wp p = change_worker wp (λ w. record w { fine = false }) p

-- The worker's process has ended: `is_alive` is false from now on.
unfoldable pub exit_worker : ℕ → Pool → Pool
exit_worker wp p = change_worker wp (λ w. record w { alive = false }) p

-- `WorkerProcess.submit_job` counts the job.
unfoldable pub submit_job : ℕ → Pool → Pool
submit_job wp p = change_worker wp (λ w. record w { tasks_ran = w.tasks_ran + 1 }) p

-- The memory that `get_rss_bytes` reads of the worker's process from now on.
unfoldable pub measure : ℕ → ℕ → Pool → Pool
measure rss wp p = change_worker wp (λ w. record w { rss_bytes = rss }) p

-- the loop of `run_task` that reads the answer; the pipe of a process that ended is at its end
unfoldable pub read_answer : ℕ → ℕ → Answer → Pool → Pool
unfolding complete spoil exit_worker
read_answer wp fut returned p = complete fut result p
read_answer wp fut (raised true) p =
    spoil wp (count_failures 1 (complete fut (failed true) (count_failures 1 p)))
read_answer wp fut (raised false) p = complete fut (failed false) (count_failures 1 p)
read_answer wp fut broken p = complete fut (failed false) (count_failures 1 (exit_worker wp p))
read_answer wp fut unread p = complete fut (failed false) (count_failures 1 p)
read_answer wp fut died p = complete fut (failed false) (count_failures 1 (exit_worker wp p))

-- the end of `run_task`: a future without a result by then is given an exception
unfoldable pub finish_task : ℕ → ℕ → Answer → Pool → Result Pool
unfolding read_answer done_with_process complete
finish_task wp fut answer p =
    done_with_process wp (read_answer wp fut answer p) >>= λ p'. ok (complete fut (failed false) p')

-- `cancel_all_futures_on_queue`
unfoldable pub cancel_all : List PrioritizedItem → Pool → Pool
unfolding complete
cancel_all [] p = p
cancel_all (x ∷ xs) p =
    cancel_all xs (elim x.item [ none ↦ p | some fut ↦ complete fut cancelled p ])
