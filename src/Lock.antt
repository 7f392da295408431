-- ===== src/Lock.antt =====
-- backend/src/services/distributedLock.service.ts: a critical section under a lock in Redis, or in
-- memory where Redis cannot be reached. Redis is a parameter; a task changes the state and returns or
-- throws.
pub mod Runs
pub mod Granted
mod Examples
use nexus_ide.Common.{
  ℕ, String, Bool, true, false, ◌||◌, Option, none, some, List, [], ◌∷◌, filter, not, str_eq,
  if◌then◌else◌,
}

-- A promise's end.
pub data Result {ℓ} (A : Type ℓ) : Type ℓ where
  returned : A → Result A
  threw : Result A

-- The commands that the lock uses. `usable` is a status of 'ready' or 'connecting'; `set_nx` is SET
-- with PX and NX, and `unlock` the script that deletes the key if the pod still owns it.
pub record LockServer (R : Type 0) : Type 0 where
  pub usable : R → Bool
  pub set_nx : R → String → ℕ → Result Bool × R
  pub unlock : R → String → R

-- The process: its connection, its fallback mutexes and the rest of its state.
pub record Process (R S : Type 0) : Type 0 where
  pub redis : R
  pub in_memory_locks : List String
  pub state : S

unfoldable pub has_lock : String → List String → Bool
has_lock k [] = false
has_lock k (j ∷ js) = str_eq j k || has_lock k js

unfoldable pub add_lock : String → List String → List String
unfolding has_lock
add_lock k ks = if has_lock k ks then ks else k ∷ ks

unfoldable pub delete_lock : String → List String → List String
delete_lock k ks = filter (λ j. not (str_eq j k)) ks

abbrev pub Task : Type 0 → Type 0 → Type 0 → Type 0
Task R S A = Process R S → Result A × Process R S

module _ {R S A : Type 0} (server : LockServer R) where
  -- `inMemoryLocks.add(key); try { … } finally { inMemoryLocks.delete(key) }`
  abbrev pub release_memory : String → Result A × Process R S → Result A × Process R S
  release_memory k (r, p) = (r, record p { in_memory_locks = delete_lock k p.in_memory_locks })

  pub run_in_memory : String → Task R S A → Task R S A
  unfolding add_lock delete_lock
  run_in_memory k task p =
      release_memory k (task (record p { in_memory_locks = add_lock k p.in_memory_locks }))

  abbrev pub some_result : Result A × Process R S → Result (Option A) × Process R S
  some_result (returned a, p) = (returned (some a), p)
  some_result (threw, p) = (threw, p)

  -- The handler of the outer `catch`.
  pub after_error : String → Task R S A → Task R S (Option A)
  unfolding has_lock run_in_memory
  after_error k task p =
      if has_lock k p.in_memory_locks
      then (returned none, p)
      else some_result (run_in_memory k task p)

  -- The outer `try`: an error goes to the handler.
  pub or_after_error :
      String → Task R S A → Result A × Process R S → Result (Option A) × Process R S
  unfolding after_error
  or_after_error k task (returned a, p) = (returned (some a), p)
  or_after_error k task (threw, p) = after_error k task p

  abbrev pub release_redis : String → Result A × Process R S → Result A × Process R S
  release_redis k (r, p) = (r, record p { redis = server.unlock p.redis k })

  pub acquired : String → Task R S A → Process R S → Result Bool → Result (Option A) × Process R S
  unfolding or_after_error
  acquired k task p (returned true) = or_after_error k task (release_redis k (task p))
  acquired k task p (returned false) = (returned none, p)
  acquired k task p threw = after_error k task p

  pub under_redis :
      String → Task R S A → Process R S → Result Bool × R → Result (Option A) × Process R S
  unfolding acquired
  under_redis k task p (r, redis) = acquired k task (record p { redis = redis }) r

  unfoldable pub with_distributed_lock : String → ℕ → Task R S A → Task R S (Option A)
  unfolding has_lock run_in_memory or_after_error under_redis
  with_distributed_lock k ttl task p =
      if server.usable p.redis
      then under_redis k task p (server.set_nx p.redis k ttl)
      else if has_lock k p.in_memory_locks
      then (returned none, p)
      else or_after_error k task (run_in_memory k task p)
