-- ===== src/WorkerPool/Crashes.antt =====
-- What the handlers of a crashed worker leave behind.
use nexus_ide.Common.{ℕ, ◌≡◌, ◌≢◌, refl, true, some, List, [], ◌∷◌, ◌++◌, arith}
use nexus_ide.WorkerPool.{
  WorkerPool, Running, map_get, create_worker, recreate_worker, on_error, on_exit, contains,
  remove_first,
}

contains-snoc : (i : ℕ) (xs : List ℕ) → contains i (xs ++ i ∷ []) ≡ true
unfolding contains
contains-snoc i [] = ground arith
contains-snoc i (x ∷ xs) = ground (arith, contains-snoc i xs)

-- After the error handler, when the replacement starts, its index is idle, but the handler starts
-- nothing: the queue and the messages posted are as before, so a waiting task goes on waiting beside
-- an idle worker.
pub error_starts_nothing :
    (p : WorkerPool) (i : ℕ)
    → (contains i (on_error p i true).idle_worker_indices ≡ true)
      × ((on_error p i true).task_queue ≡ p.task_queue)
      × ((on_error p i true).posted ≡ p.posted)
unfolding on_error recreate_worker create_worker
error_starts_nothing p i = (contains-snoc i (remove_first i p.idle_worker_indices), refl, refl)

-- The exit handler of a worker that ends with a nonzero code while it runs a task puts the replacement
-- among the idle workers and leaves the task in the map, neither resolved nor rejected.
pub exit_strands_task :
    (p : WorkerPool) (i code : ℕ) (e : Running)
    → code ≢ 0
    → map_get e.task_id p.task_map ≡ some e
    → e.worker_index ≡ i
    → (map_get e.task_id (on_exit p i code true).task_map ≡ some e)
      × ((on_exit p i code true).settled ≡ p.settled)
      × (contains e.worker_index (on_exit p i code true).idle_worker_indices ≡ true)
unfolding on_exit recreate_worker create_worker
exit_strands_task p i code e nz m w =
    ground (arith, contains-snoc i (remove_first i p.idle_worker_indices))
