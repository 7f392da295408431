-- ===== src/WriteBehind/Examples.antt =====
-- Flushes over a Redis made of a function from keys to lists, the dirty files and the keys held.
use nexus_ide.Common.{
  ℕ, String, ◌≡◌, refl, Bool, true, false, Option, none, some, List, [], ◌∷◌, ◌++◌, map, arith,
  str_eq, sym, ap, ◌∙◌, append-nil, append_assoc, if◌then◌else◌,
}
use nexus_ide.Lock.{Process, returned, has_lock, delete_lock}
use nexus_ide.WriteBehind.{
  Bytes, to_hex, BufferServer, UpdateRow, Store, buffer_key, lock_key, flush_file_buffer, concat,
}
use nexus_ide.WriteBehind.Flush.{IsBufferServer, CanFlush, flush_loses}
use nexus_ide.WriteBehind.Merging.{apply_all, MergesUpdates, flush_persists}

record Redis : Type 0 where
  lists : String → List (List ℕ)
  dirty : List String
  held : List String

abbrev redis_server : BufferServer Redis
redis_server = record {
  is_ready = λ r. true;
  lrange = λ r k. r.lists k;
  rpush = λ r k xs. record r { lists = λ j. if str_eq k j then r.lists j ++ xs else r.lists j };
  expire = λ r k t. r;
  del = λ r k. record r { lists = λ j. if str_eq k j then [] else r.lists j };
  sadd = λ r f. record r { dirty = f ∷ r.dirty };
  srem = λ r f. record r { dirty = delete_lock f r.dirty };
  smembers = λ r. r.dirty;
  locks = record {
    usable = λ r. true;
    set_nx = λ r k t.
        if has_lock k r.held
        then (returned false, r)
        else (returned true, record r { held = k ∷ r.held });
    unlock = λ r k. record r { held = delete_lock k r.held };
  };
}

redis_server-IsBufferServer : IsBufferServer redis_server
redis_server-IsBufferServer = record {
  lrange-rpush = λ r k j xs. refl;
  lrange-del = λ r k j. refl;
  lrange-expire = λ r k j t. refl;
  lrange-sadd = λ r f j. refl;
  lrange-srem = λ r f j. refl;
  lrange-set_nx = λ r k j t. ground arith;
  lrange-unlock = λ r k j. refl;
}

-- A merge that throws, so that payloads are put one behind the other.
abbrev no_merge : List Bytes → Option Bytes
no_merge us = none

abbrev start : Process Redis Store
start = record {
  redis = record { lists = λ k. []; dirty = []; held = [] };
  in_memory_locks = [];
  state = record {
    file_updates = [];
    cached_states = "a" ∷ "b" ∷ [];
    exec_succeeds = true;
    insert_succeeds = true;
  };
}

abbrev updates : List Bytes
updates = (1 ∷ 255 ∷ []) ∷ (16 ∷ []) ∷ []

-- After two updates of the file a and one of b.
abbrev buffered : Bool → Process Redis Store
buffered ok = record start {
  redis = record {
    lists = λ k.
        if str_eq "crdt:buffer:a" k
        then map to_hex updates
        else if str_eq "crdt:buffer:b" k
        then map to_hex ((2 ∷ []) ∷ [])
        else [];
    dirty = "b" ∷ "a" ∷ [];
    held = [];
  };
  state = record (start.state) { insert_succeeds = ok };
}

buffered-CanFlush :
    (ok : Bool) → CanFlush redis_server no_merge redis_server-IsBufferServer "a" (buffered ok)
unfolding has_lock
buffered-CanFlush ok = record { ready = refl; usable = refl; free = refl; pipeline = refl }

-- A document that is the bytes of its updates, and a merge that puts them one behind the other.
abbrev apply : Bytes → Bytes → Bytes
apply u d = d ++ u

abbrev joining : List Bytes → Option Bytes
joining us = some (concat us)

joining-MergesUpdates : MergesUpdates apply joining
joining-MergesUpdates us m d e =
    let same : concat us ≡ m = cc in ap (λ x. d ++ x) (sym same) ∙ applied us d
  where
    applied : (us : List Bytes) (d : Bytes) → d ++ concat us ≡ apply_all apply us d
    applied [] d = append-nil d
    applied (u ∷ us) d = sym (append_assoc d u (concat us)) ∙ applied us (d ++ u)

joining-CanFlush : CanFlush redis_server joining redis_server-IsBufferServer "a" (buffered true)
unfolding has_lock
joining-CanFlush = record { ready = refl; usable = refl; free = refl; pipeline = refl }

-- A single update is written as it is.
flushed_one :
    (flush_file_buffer redis_server no_merge "b" (buffered true)).1.state.file_updates
    ≡ record { file_id = "b"; update = 2 ∷ [] } ∷ []
unfolding flush_file_buffer to_hex buffer_key lock_key
flushed_one = refl

flush_persists_example :
    ((flush_file_buffer redis_server joining "a" (buffered true)).0 ≡ 2)
    × ((new : UpdateRow) × ((flush_file_buffer redis_server joining "a"
            (buffered true)).1.state.file_updates
          ≡ new ∷ [])
        × (new.file_id ≡ "a")
        × ((d : Bytes) → apply new.update d ≡ apply_all apply updates d))
    × (redis_server.lrange
          (flush_file_buffer redis_server joining "a" (buffered true)).1.redis
          (buffer_key "a")
        ≡ [])
unfolding buffer_key
flush_persists_example =
    flush_persists apply redis_server joining redis_server-IsBufferServer "a" (1 ∷ 255 ∷ [])
      ((16 ∷ []) ∷ []) (1 ∷ 255 ∷ 16 ∷ []) (buffered true) joining-CanFlush refl refl
      ((omega arith, (omega arith, tt)), ((omega arith, tt), tt)) joining-MergesUpdates refl

flush_loses_example :
    ((flush_file_buffer redis_server no_merge "a" (buffered false)).0 ≡ 0)
    × ((flush_file_buffer redis_server no_merge "a" (buffered false)).1.state.file_updates ≡ [])
    × (redis_server.lrange
          (flush_file_buffer redis_server no_merge "a" (buffered false)).1.redis
          (buffer_key "a")
        ≡ [])
flush_loses_example =
    flush_loses redis_server no_merge redis_server-IsBufferServer "a" (buffered false)
      (buffered-CanFlush false) refl
