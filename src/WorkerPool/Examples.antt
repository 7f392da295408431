-- ===== src/WorkerPool/Examples.antt =====
-- Runs of the worker pool.
use nexus_ide.Common.{◌≡◌, refl, Bool, true, inl, some, List, [], ◌∷◌, arith}
use nexus_ide.WorkerPool.{
  WorkerPool, Running, Event, task_submitted, message, error, resolved, rejected, construct, run,
  map_get, on_exit, contains, pool_size,
}
use nexus_ide.WorkerPool.Accounting.{places, issued, tasks_accounted}
use nexus_ide.WorkerPool.Progress.{IsBusy}
use nexus_ide.WorkerPool.Crashes.{exit_strands_task}

abbrev two_workers : List Bool
two_workers = true ∷ true ∷ []

abbrev three_tasks : List Event
three_tasks = task_submitted ∷ task_submitted ∷ task_submitted ∷ []

abbrev answered : List Event
answered = task_submitted ∷ task_submitted ∷ task_submitted ∷ message 2 true ∷ error 0 true ∷ []

answered_settled :
    (run (construct two_workers) answered).settled ≡ (2, resolved) ∷ (1, rejected) ∷ []
unfolding run construct
answered_settled = refl

pool_sizes : (pool_size 0 1 ≡ 2) × (pool_size 0 16 ≡ 4) × (pool_size 7 16 ≡ 7)
unfolding pool_size
pool_sizes = (refl, refl, refl)

tasks_accounted_example :
    places 3 (run (construct two_workers) answered)
    ≡ issued 3 (run (construct two_workers) answered).next_task_id
tasks_accounted_example = tasks_accounted two_workers answered 3

new-IsBusy : IsBusy (construct two_workers)
unfolding construct contains
new-IsBusy = record { idle = (refl, (refl, tt)); busy = tt; served = inl refl }

abbrev loaded : WorkerPool
loaded = run (construct two_workers) three_tasks

abbrev first_task : Running
first_task = record { task_id = 1; worker_index = 0 }

first_task_running : map_get first_task.task_id loaded.task_map ≡ some first_task
unfolding run construct map_get
first_task_running = refl

exit_strands_task_example :
    (map_get 1 (on_exit loaded 0 1 true).task_map ≡ some first_task)
    × ((on_exit loaded 0 1 true).settled ≡ loaded.settled)
    × (contains 0 (on_exit loaded 0 1 true).idle_worker_indices ≡ true)
exit_strands_task_example =
    exit_strands_task loaded 0 1 first_task (omega arith) first_task_running refl
