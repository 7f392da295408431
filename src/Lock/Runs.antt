-- ===== src/Lock/Runs.antt =====
-- How often a critical section runs, and what it holds meanwhile.
use nexus_ide.Common.{
  ℕ, ◌+◌, String, ◌≡◌, refl, ap, ◌∙◌, Bool, true, false, Option, none, some, List, [], ◌∷◌, arith,
  Bool-cases, inl, inr, ◌⊎◌, str_eq, if◌then◌else◌,
}
use nexus_ide.Lock.{
  Result, returned, threw, LockServer, Process, Task, has_lock, add_lock, delete_lock,
  run_in_memory, after_error, or_after_error, acquired, release_redis, some_result,
  with_distributed_lock,
}

has-delete_lock : (k : String) (ks : List String) → has_lock k (delete_lock k ks) ≡ false
unfolding has_lock delete_lock
has-delete_lock k [] = refl
has-delete_lock k (j ∷ js) = elim (Bool-cases (str_eq j k)) [
  | inl same ↦ rw same (has-delete_lock k js)
  | inr other ↦ rw other (rw other (has-delete_lock k js))
]

module _ {R S A : Type 0} (server : LockServer R) (runs : S → ℕ) where
  -- A task that counts its runs and returns.
  abbrev pub Succeeds : Task R S A → Type 0
  Succeeds task =
      (p : Process R S)
      → (a : A) × ((task p).0 ≡ returned a) × (runs (task p).1.state ≡ runs p.state + 1)

  -- A task that counts its runs and throws, leaving the locks as it found them.
  abbrev pub Fails : Task R S A → Type 0
  Fails task =
      (p : Process R S)
      → ((task p).0 ≡ threw)
        × (runs (task p).1.state ≡ runs p.state + 1)
        × ((task p).1.in_memory_locks ≡ p.in_memory_locks)

  after_returned :
      (k : String) (task : Task R S A) (x : Result A × Process R S) (a : A)
      → x.0 ≡ returned a
      → or_after_error server k task x ≡ (returned (some a), x.1)
  unfolding or_after_error
  after_returned k task (returned b, p) a e = ground arith
  after_returned k task (threw, p) a e = cc

  after_threw :
      (k : String) (task : Task R S A) (x : Result A × Process R S)
      → x.0 ≡ threw
      → or_after_error server k task x ≡ after_error server k task x.1
  unfolding or_after_error
  after_threw k task (returned b, p) e = cc
  after_threw k task (threw, p) e = refl

  -- The two ends that a caller of a task that always returns can see.
  abbrev pub RunsOnce : Process R S → Result (Option A) × Process R S → Type 0
  RunsOnce p out =
      ((out.0 ≡ returned none) × (runs out.1.state ≡ runs p.state))
      ⊎ ((a : A) × (out.0 ≡ returned (some a)) × (runs out.1.state ≡ runs p.state + 1))

  memory_result :
      (k : String) (task : Task R S A) (p : Process R S) (a : A)
      → (run_in_memory server k task p).0 ≡ returned a
      → after_error server k task p ≡ (
          if has_lock k p.in_memory_locks
          then (returned none, p)
          else (returned (some a), (run_in_memory server k task p).1))
  unfolding after_error
  memory_result k task p a e = go (run_in_memory server k task p) refl e
    where
      go :
          (x : Result A × Process R S)
          → run_in_memory server k task p ≡ x
          → x.0 ≡ returned a
          → after_error server k task p ≡ (
              if has_lock k p.in_memory_locks then (returned none, p) else (returned (some a), x.1))
      go (returned b, q) h e = rw (h, after_error) (ground arith)
      go (threw, q) h e = cc

  once_in_memory :
      (k : String) (task : Task R S A) (p : Process R S)
      → Succeeds task
      → (a : A) × ((run_in_memory server k task p).0 ≡ returned a)
        × (runs (run_in_memory server k task p).1.state ≡ runs p.state + 1)
  unfolding run_in_memory
  once_in_memory k task p ok =
      let locked : Process R S = record p { in_memory_locks = add_lock k p.in_memory_locks } in
      let (a, e, n) = ok locked in (a, e, n)

  once_after_error :
      (k : String) (task : Task R S A) (p : Process R S)
      → Succeeds task
      → RunsOnce p (after_error server k task p)
  once_after_error k task p ok =
      let (a, e, n) = once_in_memory k task p ok in
      elim (Bool-cases (has_lock k p.in_memory_locks)) [
        | inl held ↦ rw (memory_result k task p a e) (rw held (inl (refl, refl)))
        | inr open_ ↦ rw (memory_result k task p a e) (rw open_ (inr (a, refl, n)))
      ]

  once_acquired :
      (k : String) (task : Task R S A) (p : Process R S) (r : Result Bool)
      → Succeeds task
      → RunsOnce p (acquired server k task p r)
  unfolding acquired
  once_acquired k task p (returned true) ok =
      let (a, e, n) = ok p in
      rw (after_returned k task (release_redis server k (task p)) a e) (inr (a, refl, n))
  once_acquired k task p (returned false) ok = inl (refl, refl)
  once_acquired k task p threw ok = once_after_error k task p ok

  module _ (k : String) (ttl : ℕ) (task : Task R S A) (p : Process R S) where
    locking : Process R S
    locking = record p { redis = (server.set_nx p.redis k ttl).1 }

    lock_up :
        server.usable p.redis ≡ true
        → with_distributed_lock server k ttl task p
          ≡ acquired server k task locking (server.set_nx p.redis k ttl).0
    unfolding with_distributed_lock locking
    lock_up up = simp up

    lock_held :
        server.usable p.redis ≡ false
        → has_lock k p.in_memory_locks ≡ true
        → with_distributed_lock server k ttl task p ≡ (returned none, p)
    unfolding with_distributed_lock
    lock_held down held = simp (down, held)

    lock_memory :
        server.usable p.redis ≡ false
        → has_lock k p.in_memory_locks ≡ false
        → with_distributed_lock server k ttl task p
          ≡ or_after_error server k task (run_in_memory server k task p)
    unfolding with_distributed_lock
    lock_memory down free = simp (down, free)

  after_free :
      (k : String) (task : Task R S A) (p : Process R S)
      → has_lock k p.in_memory_locks ≡ false
      → after_error server k task p ≡ some_result server (run_in_memory server k task p)
  unfolding after_error
  after_free k task p free = simp free

  some_threw : (x : Result A × Process R S) → x.0 ≡ threw → some_result server x ≡ (threw, x.1)
  some_threw (returned a, p) e = cc
  some_threw (threw, p) e = refl

  memory_throws :
      (k : String) (task : Task R S A) (p : Process R S)
      → Fails task
      → ((run_in_memory server k task p).0 ≡ threw)
        × (runs (run_in_memory server k task p).1.state ≡ runs p.state + 1)
        × (has_lock k (run_in_memory server k task p).1.in_memory_locks ≡ false)
  unfolding run_in_memory
  memory_throws k task p bad =
      let locked : Process R S = record p { in_memory_locks = add_lock k p.in_memory_locks } in
      let (e, n, _) = bad locked in (e, n, has-delete_lock k (task locked).1.in_memory_locks)

  handler_throws :
      (k : String) (task : Task R S A) (p : Process R S)
      → Fails task
      → has_lock k p.in_memory_locks ≡ false
      → ((after_error server k task p).0 ≡ threw)
        × (runs (after_error server k task p).1.state ≡ runs p.state + 1)
  handler_throws k task p bad free =
      let (e, n, _) = memory_throws k task p bad in
      rw (after_free k task p free) (rw (some_threw (run_in_memory server k task p) e) (refl, n))

  -- A task that always returns runs at most once: the caller gets its value after one run, or null
  -- after none, whatever Redis answers.
  pub lock-RunsOnce :
      (k : String) (ttl : ℕ) (task : Task R S A) (p : Process R S)
      → Succeeds task
      → RunsOnce p (with_distributed_lock server k ttl task p)
  lock-RunsOnce k ttl task p ok = elim (Bool-cases (server.usable p.redis)) [
    | inl up ↦ rw (lock_up k ttl task p up) (
        unfold locking in
        once_acquired k task (locking k ttl task p) (server.set_nx p.redis k ttl).0 ok)
    | inr down ↦ elim (Bool-cases (has_lock k p.in_memory_locks)) [
      | inl held ↦ rw (lock_held k ttl task p down held) (inl (refl, refl))
      | inr free ↦
          let (a, e, n) = once_in_memory k task p ok in
          rw (lock_memory k ttl task p down free)
            (rw (after_returned k task (run_in_memory server k task p) a e) (inr (a, refl, n)))
    ]
  ]

  -- A task that throws runs twice where the lock was free: the error of the first run reaches the
  -- handler for Redis errors, which runs the task again under the lock in memory only.
  pub failing_task_runs_twice :
      (k : String) (ttl : ℕ) (task : Task R S A) (p : Process R S)
      → Fails task
      → has_lock k p.in_memory_locks ≡ false
      → (server.usable p.redis ≡ false) ⊎ ((server.set_nx p.redis k ttl).0 ≡ returned true)
      → ((with_distributed_lock server k ttl task p).0 ≡ threw)
        × (runs (with_distributed_lock server k ttl task p).1.state ≡ runs p.state + 2)
  failing_task_runs_twice k ttl task p bad free how = elim (Bool-cases (server.usable p.redis)) [
    | inl up ↦
        let q : Process R S = locking k ttl task p in
        let given : (server.set_nx p.redis k ttl).0 ≡ returned true = ground (arith, up) in
        let (e, n, same) = bad q in
        let (thrown, again) =
          handler_throws k task (release_redis server k (task q)).1 bad
            (unfold locking in ap (has_lock k) same ∙ free) in
        rw (lock_up k ttl task p up) (
          rw given (
            unfold acquired in
            rw (after_threw k task (release_redis server k (task q)) e)
              (thrown, unfold locking in omega (arith, n, again))))
    | inr down ↦
        let first = run_in_memory server k task p in
        let (e, n, released) = memory_throws k task p bad in
        let (thrown, again) = handler_throws k task first.1 bad released in
        rw (lock_memory k ttl task p down free)
          (rw (after_threw k task first e) (thrown, omega (arith, n, again)))
  ]
