-- ===== src/WriteBehind/Flush.antt =====
-- What a flush makes of the buffered updates.
use nexus_ide.Common.{
  ℕ, String, ◌≡◌, refl, ap, ◌∙◌, true, false, List, [], ◌∷◌, ◌++◌, map, length, str_eq, eq_refl,
  if◌then◌else◌,
}
use nexus_ide.Lock.{returned, Process}
use nexus_ide.Lock.Granted.{granted, granted_returns}
use nexus_ide.WriteBehind.{
  Bytes, to_hex, BufferServer, Merge, UpdateRow, Store, merged_payload, buffer_key, lock_key,
  on_redis, buffer_crdt_updates_batch, persist, flush_task, flush_file_buffer,
}
use nexus_ide.WriteBehind.Hex.{AllUpdates, map-from_hex-to_hex, length-to_hex}

-- What Redis documents of its lists: RPUSH appends, DEL empties, and the other commands that the
-- buffer and its lock use leave lists alone.
pub record IsBufferServer {R : Type 0} (server : BufferServer R) : Type 0 where
  pub lrange-rpush :
      (r : R) (k j : String) (xs : List (List ℕ))
      → server.lrange (server.rpush r k xs) j
        ≡ (if str_eq k j then server.lrange r j ++ xs else server.lrange r j)
  pub lrange-del :
      (r : R) (k j : String)
      → server.lrange (server.del r k) j ≡ (if str_eq k j then [] else server.lrange r j)
  pub lrange-expire :
      (r : R) (k j : String) (t : ℕ) → server.lrange (server.expire r k t) j ≡ server.lrange r j
  pub lrange-sadd : (r : R) (f j : String) → server.lrange (server.sadd r f) j ≡ server.lrange r j
  pub lrange-srem : (r : R) (f j : String) → server.lrange (server.srem r f) j ≡ server.lrange r j
  pub lrange-set_nx :
      (r : R) (k j : String) (t : ℕ)
      → server.lrange (server.locks.set_nx r k t).1 j ≡ server.lrange r j
  pub lrange-unlock :
      (r : R) (k j : String) → server.lrange (server.locks.unlock r k) j ≡ server.lrange r j

module _ {R : Type 0} (server : BufferServer R) (merge : Merge) (law : IsBufferServer server) where
  after_rpush : String → List (List ℕ) → R → R
  after_rpush file xs r =
      server.expire (server.sadd (server.rpush r (buffer_key file) xs) file) (buffer_key file) 3600

  lrange-after_rpush :
      (file : String) (xs : List (List ℕ)) (r : R)
      → server.lrange (after_rpush file xs r) (buffer_key file)
        ≡ server.lrange r (buffer_key file) ++ xs
  unfolding after_rpush
  lrange-after_rpush file xs r =
      let key : String = buffer_key file in
      law.lrange-expire (server.sadd (server.rpush r key xs) file) key key 3600
      ∙ law.lrange-sadd (server.rpush r key xs) file key
      ∙ law.lrange-rpush r key key xs
      ∙ rw (eq_refl (buffer_key file))

  batch_pushed :
      (file : String) (u : Bytes) (us : List Bytes) (p : Process R Store)
      → server.is_ready p.redis ≡ true
      → p.state.exec_succeeds ≡ true
      → buffer_crdt_updates_batch server merge file (u ∷ us) p
        ≡ on_redis server merge (after_rpush file (map to_hex (u ∷ us))) p
  unfolding buffer_crdt_updates_batch after_rpush
  batch_pushed file u us p up ok = simp (up, ok)

  -- Over a ready connection whose pipeline succeeds a batch goes behind what is buffered, in order, one
  -- hexadecimal text for each update, and the tables stay as they are.
  pub lrange-buffer_batch :
      (file : String) (u : Bytes) (us : List Bytes) (p : Process R Store)
      → server.is_ready p.redis ≡ true
      → p.state.exec_succeeds ≡ true
      → (server.lrange
            (buffer_crdt_updates_batch server merge file (u ∷ us) p).redis
            (buffer_key file)
          ≡ server.lrange p.redis (buffer_key file) ++ map to_hex (u ∷ us))
        × ((buffer_crdt_updates_batch server merge file (u ∷ us) p).state ≡ p.state)
  lrange-buffer_batch file u us p up ok =
      let pushed = batch_pushed file u us p up ok in
      (
        ap (λ (q : Process R Store). server.lrange q.redis (buffer_key file)) pushed
            ∙ lrange-after_rpush file (map to_hex (u ∷ us)) p.redis,
        ap (λ (q : Process R Store). q.state) pushed,
      )

  -- The buffer after the pipeline of a flush.
  drained : String → Process R Store → Process R Store
  drained file p = on_redis server merge (λ r. server.srem (server.del r (buffer_key file)) file) p

  lrange-drained :
      (file : String) (p : Process R Store)
      → server.lrange (drained file p).redis (buffer_key file) ≡ []
  unfolding drained
  lrange-drained file p =
      law.lrange-srem (server.del p.redis (buffer_key file)) file (buffer_key file)
      ∙ law.lrange-del p.redis (buffer_key file) (buffer_key file)
      ∙ rw (eq_refl (buffer_key file))

  -- The process while it holds the lock of the file.
  holding : String → Process R Store → Process R Store
  holding file p = granted server.locks (lock_key file) 5000 (flush_task server merge file) p

  lrange-holding :
      (file : String) (p : Process R Store) (j : String)
      → server.lrange (holding file p).redis j ≡ server.lrange p.redis j
  unfolding holding
  lrange-holding file p j = law.lrange-set_nx p.redis (lock_key file) j 5000

  task_run :
      (file : String) (p : Process R Store)
      → p.state.exec_succeeds ≡ true
      → flush_task server merge file p
        ≡ persist server merge file (server.lrange p.redis (buffer_key file)) (drained file p)
  unfolding flush_task drained
  task_run file p ok = simp ok

  persist_refused :
      (file : String) (xs : List (List ℕ)) (p : Process R Store)
      → p.state.insert_succeeds ≡ false
      → persist server merge file xs p ≡ (returned 0, p)
  unfolding persist
  persist_refused file [] p no_row = refl
  persist_refused file (x ∷ xs) p no_row = simp no_row

  abbrev pub row : String → List Bytes → UpdateRow
  row file us = record { file_id = file; update = merged_payload merge us }

  persist_inserted :
      (file : String) (xs : List (List ℕ)) (u : Bytes) (us : List Bytes) (p : Process R Store)
      → xs ≡ map to_hex (u ∷ us)
      → AllUpdates (u ∷ us)
      → p.state.insert_succeeds ≡ true
      → ((persist server merge file xs p).0 ≡ returned (length (u ∷ us)))
        × ((persist server merge file xs p).1.state.file_updates
            ≡ p.state.file_updates ++ row file (u ∷ us) ∷ [])
        × ((persist server merge file xs p).1.redis ≡ p.redis)
  unfolding persist
  persist_inserted file xs u us p e bytes ok =
      rw (e, persist)
        (rw ok (
          ap (λ n. returned n) (length-to_hex (u ∷ us)),
          ap (λ vs. p.state.file_updates ++ row file vs ∷ []) (map-from_hex-to_hex (u ∷ us) bytes),
          refl,
        ))

  -- A connection that is ready, and on which the lock of the file is free.
  pub record CanFlush (file : String) (p : Process R Store) : Type 0 where
    pub ready : server.is_ready p.redis ≡ true
    pub usable : server.locks.usable p.redis ≡ true
    pub free : (server.locks.set_nx p.redis (lock_key file) 5000).0 ≡ returned true
    pub pipeline : p.state.exec_succeeds ≡ true

  flush_run :
      (file : String) (p : Process R Store) (n : ℕ)
      → CanFlush file p
      → (flush_task server merge file (holding file p)).0 ≡ returned n
      → flush_file_buffer server merge file p ≡ (
        n,
        record (flush_task server merge file (holding file p)).1 {
          redis =
              server.locks.unlock
                (flush_task server merge file (holding file p)).1.redis
                (lock_key file);
        },
      )
  unfolding flush_file_buffer holding
  flush_run file p n can e =
      let run =
        granted_returns server.locks (lock_key file) 5000 (flush_task server merge file) p n
          can.usable can.free e in
      rw can.ready (rw run)

  pub flush_writes :
      (file : String) (u : Bytes) (us : List Bytes) (p : Process R Store)
      → CanFlush file p
      → p.state.insert_succeeds ≡ true
      → server.lrange p.redis (buffer_key file) ≡ map to_hex (u ∷ us)
      → AllUpdates (u ∷ us)
      → ((flush_file_buffer server merge file p).0 ≡ length (u ∷ us))
        × ((flush_file_buffer server merge file p).1.state.file_updates
            ≡ p.state.file_updates ++ row file (u ∷ us) ∷ [])
        × (server.lrange (flush_file_buffer server merge file p).1.redis (buffer_key file) ≡ [])
  flush_writes file u us p can ok held bytes =
      let q : Process R Store = holding file p in
      let read : server.lrange q.redis (buffer_key file) ≡ map to_hex (u ∷ us) =
        lrange-holding file p (buffer_key file) ∙ held in
      let (n, rows, redis) =
        persist_inserted file (server.lrange q.redis (buffer_key file)) u us (drained file q) read
          bytes (unfold holding drained in ok) in
      let task = task_run file q (unfold holding in can.pipeline) in
      let run = flush_run file p (length (u ∷ us)) can (rw task n) in
      (
        rw run,
        rw run (rw task (rows ∙ unfold holding drained in refl)),
        rw run (
            rw task (
              law.lrange-unlock
                (persist server merge file (server.lrange q.redis (buffer_key file))
                  (drained file q)).1.redis
                (lock_key file) (buffer_key file)
              ∙ ap (λ r. server.lrange r (buffer_key file)) redis
              ∙ lrange-drained file q)),
      )

  -- Where the INSERT fails instead, the flush reports 0, writes no row, and leaves the buffer empty all
  -- the same: the updates that were buffered are in neither place.
  pub flush_loses :
      (file : String) (p : Process R Store)
      → CanFlush file p
      → p.state.insert_succeeds ≡ false
      → ((flush_file_buffer server merge file p).0 ≡ 0)
        × ((flush_file_buffer server merge file p).1.state.file_updates ≡ p.state.file_updates)
        × (server.lrange (flush_file_buffer server merge file p).1.redis (buffer_key file) ≡ [])
  flush_loses file p can no_row =
      let q : Process R Store = holding file p in
      let task =
        task_run file q (unfold holding in can.pipeline)
        ∙ persist_refused file (server.lrange q.redis (buffer_key file)) (drained file q)
            (unfold holding drained in no_row) in
      let run = flush_run file p 0 can (rw task refl) in
      (
        rw run,
        rw run (rw task (unfold holding drained in refl)),
        rw run (
            rw task (
              law.lrange-unlock (drained file q).redis (lock_key file) (buffer_key file)
              ∙ lrange-drained file q)),
      )
