-- ===== src/Lock/Granted.antt =====
-- A section that gets the lock in Redis and returns.
use nexus_ide.Common.{ℕ, String, ◌≡◌, true, some, arith}
use nexus_ide.Lock.{
  Result, returned, threw, LockServer, Process, Task, or_after_error, acquired,
  with_distributed_lock, release_redis,
}

module _ {R S A : Type 0} (server : LockServer R) (k : String) (ttl : ℕ) (task : Task R S A)
    (p : Process R S) where
  abbrev pub granted : Process R S
  granted = record p { redis = (server.set_nx p.redis k ttl).1 }

  after_return :
      (x : Result A × Process R S) (a : A)
      → x.0 ≡ returned a
      → or_after_error server k task x ≡ (returned (some a), x.1)
  unfolding or_after_error
  after_return (returned b, q) a e = ground arith
  after_return (threw, q) a e = cc

  -- Where Redis grants the lock and the task returns, so does the section, after the unlock.
  pub granted_returns :
      (a : A)
      → server.usable p.redis ≡ true
      → (server.set_nx p.redis k ttl).0 ≡ returned true
      → (task granted).0 ≡ returned a
      → with_distributed_lock server k ttl task p ≡ (
        returned (some a),
        record (task granted).1 { redis = server.unlock (task granted).1.redis k },
      )
  unfolding with_distributed_lock acquired
  granted_returns a up given e =
      rw (up, given) (after_return (release_redis server k (task granted)) a e)
