-- ===== src/Lock/Examples.antt =====
-- Tasks under a lock whose Redis is the list of the keys held.
use nexus_ide.Common.{
  ℕ, ◌+◌, String, ◌≡◌, refl, true, false, some, List, [], ◌∷◌, inr, if◌then◌else◌,
}
use nexus_ide.Lock.{
  returned, threw, LockServer, Process, Task, has_lock, delete_lock, with_distributed_lock,
}
use nexus_ide.Lock.Runs.{RunsOnce, lock-RunsOnce, failing_task_runs_twice}

abbrev key_server : LockServer (List String)
key_server = record {
  usable = λ r. true;
  set_nx = λ r k t. if has_lock k r then (returned false, r) else (returned true, k ∷ r);
  unlock = λ r k. delete_lock k r;
}

abbrev idle : Process (List String) ℕ
idle = record { redis = "lock:b" ∷ []; in_memory_locks = []; state = 0 }

abbrev count_task : Task (List String) ℕ ℕ
count_task p = (returned p.state, record p { state = p.state + 1 })

abbrev bad_task : Task (List String) ℕ ℕ
bad_task p = (threw, record p { state = p.state + 1 })

count_result :
    (with_distributed_lock key_server "lock:a" 5000 count_task idle).0 ≡ returned (some 0)
unfolding with_distributed_lock has_lock
count_result = refl

lock-RunsOnce_example :
    RunsOnce key_server
      (λ s. s)
      idle
      (with_distributed_lock key_server "lock:a" 5000 count_task idle)
lock-RunsOnce_example =
    lock-RunsOnce key_server (λ s. s) "lock:a" 5000 count_task idle (λ p. (p.state, refl, refl))

failing_task_runs_twice_example :
    ((with_distributed_lock key_server "lock:a" 5000 bad_task idle).0 ≡ threw)
    × ((with_distributed_lock key_server "lock:a" 5000 bad_task idle).1.state ≡ 2)
unfolding has_lock
failing_task_runs_twice_example =
    failing_task_runs_twice key_server (λ s. s) "lock:a" 5000 bad_task idle
      (λ p. (refl, refl, refl)) refl (inr refl)
