-- ===== src/WorkerPool.antt =====
-- backend/src/services/workerPool.service.ts: the pool of worker threads. A task is named by the
-- counter in its id; `posted` lists the messages sent to workers and `settled` the promises that were
-- resolved or rejected, in order. That a worker thread can be started is an argument, `starts`.
pub mod Accounting
pub mod Progress
pub mod Crashes
mod Examples
use nexus_ide.Common.{
  ℕ, zero, suc, ◌+◌, ◌-◌, min, max, Bool, true, false, ◌||◌, not, Option, none, some, List, [], ◌∷◌,
  ◌++◌, map, ◌==◌, if◌then◌else◌, filter,
}

pub data Settlement : Type 0 where
  resolved rejected : Settlement

-- A task and the worker that runs it.
pub record Running : Type 0 where
  pub task_id : ℕ
  pub worker_index : ℕ

pub record WorkerPool : Type 0 where
  -- The indices at which `workers` holds a thread.
  pub workers : List ℕ
  pub idle_worker_indices : List ℕ
  pub task_queue : List ℕ
  pub task_map : List Running
  pub next_task_id : ℕ
  pub posted : List Running
  pub settled : List (ℕ × Settlement)

unfoldable pub contains : ℕ → List ℕ → Bool
contains i [] = false
contains i (j ∷ js) = (j == i) || contains i js

-- `taskMap.get`, `set` and `delete`
unfoldable pub map_get : ℕ → List Running → Option Running
map_get t [] = none
map_get t (e ∷ es) = if e.task_id == t then some e else map_get t es

unfoldable pub map_set : Running → List Running → List Running
map_set r [] = r ∷ []
map_set r (e ∷ es) = if e.task_id == r.task_id then r ∷ es else e ∷ map_set r es

unfoldable pub map_delete : ℕ → List Running → List Running
map_delete t [] = []
map_delete t (e ∷ es) = let rest = map_delete t es in if e.task_id == t then rest else e ∷ rest

-- `indexOf` and `splice` of the first occurrence
unfoldable pub remove_first : ℕ → List ℕ → List ℕ
remove_first i [] = []
remove_first i (j ∷ js) = if j == i then js else j ∷ remove_first i js

unfoldable pub create_worker : WorkerPool → ℕ → Bool → WorkerPool
unfolding contains
create_worker p index false = p
create_worker p index true = record p {
  workers = if contains index p.workers then p.workers else p.workers ++ index ∷ [];
  idle_worker_indices = p.idle_worker_indices ++ index ∷ [];
}

unfoldable pub recreate_worker : WorkerPool → ℕ → Bool → WorkerPool
unfolding remove_first create_worker
recreate_worker p index starts =
    create_worker (record p { idle_worker_indices = remove_first index p.idle_worker_indices })
      index starts

-- With no thread at the index the task goes back to the front of the queue.
start_task : WorkerPool → ℕ → ℕ → Bool → WorkerPool
unfolding map_set
start_task p index task false = record p { task_queue = task ∷ p.task_queue }
start_task p index task true = record p {
  task_map = map_set (record { task_id = task; worker_index = index }) p.task_map;
  posted = p.posted ++ record { task_id = task; worker_index = index } ∷ [];
}

shift_both : WorkerPool → List ℕ → List ℕ → WorkerPool
unfolding start_task contains
shift_both p [] idle = p
shift_both p (task ∷ queue) [] = p
shift_both p (task ∷ queue) (index ∷ idle) =
    start_task (record p { task_queue = queue; idle_worker_indices = idle }) index task
      (contains index p.workers)

unfoldable pub process_next_task : WorkerPool → WorkerPool
unfolding shift_both
process_next_task p = shift_both p p.task_queue p.idle_worker_indices

unfoldable pub run_task : WorkerPool → WorkerPool
unfolding process_next_task
run_task p = process_next_task (record p {
  task_queue = p.task_queue ++ p.next_task_id ∷ [];
  next_task_id = p.next_task_id + 1;
})

abbrev pub outcome : Bool → Settlement
outcome true = resolved
outcome false = rejected

settle_entry : WorkerPool → ℕ → Bool → Option Running → WorkerPool
unfolding process_next_task map_delete
settle_entry p task success none = p
settle_entry p task success (some e) = process_next_task (record p {
  task_map = map_delete task p.task_map;
  idle_worker_indices = p.idle_worker_indices ++ e.worker_index ∷ [];
  settled = p.settled ++ (task, outcome success) ∷ [];
})

-- The 'message' handler.
unfoldable pub on_message : WorkerPool → ℕ → Bool → WorkerPool
unfolding settle_entry map_get
on_message p task success = settle_entry p task success (map_get task p.task_map)

abbrev pub runs_on : ℕ → Running → Bool
runs_on index e = e.worker_index == index

abbrev pub reject_entry : Running → ℕ × Settlement
reject_entry e = (e.task_id, rejected)

-- The 'error' handler: every task of the worker is rejected, and the worker replaced.
unfoldable pub on_error : WorkerPool → ℕ → Bool → WorkerPool
unfolding recreate_worker
on_error p index starts =
    recreate_worker
      (record p {
        task_map = filter (λ e. not (runs_on index e)) p.task_map;
        settled = p.settled ++ map reject_entry (filter (runs_on index) p.task_map);
      })
      index starts

-- The 'exit' handler; the code may be negative in the source, and only 0 is told apart.
unfoldable pub on_exit : WorkerPool → ℕ → ℕ → Bool → WorkerPool
unfolding recreate_worker
on_exit p index code starts = if code == 0 then p else recreate_worker p index starts

unfoldable pub terminate : WorkerPool → WorkerPool
terminate p = record p { workers = []; idle_worker_indices = []; task_queue = []; task_map = [] }

empty : WorkerPool
empty = record {
  workers = [];
  idle_worker_indices = [];
  task_queue = [];
  task_map = [];
  next_task_id = 1;
  posted = [];
  settled = [];
}

-- `for (let i = 0; i < poolSize; i++) createWorker(i)`, one `starts` for each round.
initialize_pool : WorkerPool → ℕ → List Bool → WorkerPool
unfolding create_worker
initialize_pool p i [] = p
initialize_pool p i (starts ∷ rest) = initialize_pool (create_worker p i starts) (i + 1) rest

unfoldable pub construct : List Bool → WorkerPool
unfolding empty initialize_pool
construct starts = initialize_pool empty 0 starts

-- `options.poolSize || Math.min(Math.max(numCpus - 1, 2), 4)` with `numCpus = os.cpus().length || 2`
unfoldable pub pool_size : ℕ → ℕ → ℕ
pool_size requested cpus =
    if requested == 0 then min (max ((if cpus == 0 then 2 else cpus) - 1) 2) 4 else requested

pub data Event : Type 0 where
  task_submitted : Event
  message : ℕ → Bool → Event
  error : ℕ → Bool → Event
  exit : ℕ → ℕ → Bool → Event

unfoldable pub step : WorkerPool → Event → WorkerPool
unfolding run_task on_message on_error on_exit
step p task_submitted = run_task p
step p (message task success) = on_message p task success
step p (error index starts) = on_error p index starts
step p (exit index code starts) = on_exit p index code starts

unfoldable pub run : WorkerPool → List Event → WorkerPool
unfolding step
run p [] = p
run p (e ∷ es) = run (step p e) es
