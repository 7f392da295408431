-- ===== src/WriteBehind.antt =====
-- backend/src/services/crdtWriteBehind.service.ts: updates of documents, buffered in Redis lists and
-- flushed to the table file_updates. The interval timer, which flushes the
-- files of ten buffers at a time, is not modelled. Redis and Yjs are parameters. Whether the next pipeline and the
-- next INSERT succeed is part of the store, so that both ends of a flush are covered.
pub mod Hex
pub mod Flush
pub mod Merging
mod Examples
use Prim.Native.String.{◌++◌ as str_append}
use nexus_ide.Common.{
  ℕ, zero, suc, ◌+◌, ◌-◌, ◌*◌, ◌/◌, ◌%◌, ◌≡◌, String, Bool, true, false, ◌&&◌, ◌||◌, not, Option,
  none, some, List, [], ◌∷◌, ◌++◌, map, leb, ltb, ◌==◌, str_eq, if◌then◌else◌, length, take, drop,
  filter,
}
use nexus_ide.Lock.{Result, returned, threw, LockServer, Process, Task, with_distributed_lock}

-- Bytes, and the text of code units that Redis holds.
abbrev pub Bytes : Type 0
Bytes = List ℕ

-- `Buffer.from(update).toString('hex')`
unfoldable pub hex_digit : ℕ → ℕ
hex_digit n = if ltb n 10 then 48 + n else 87 + n

unfoldable pub to_hex : Bytes → List ℕ
unfolding hex_digit
to_hex [] = []
to_hex (b ∷ bs) = hex_digit (b / 16) ∷ hex_digit (b % 16) ∷ to_hex bs

-- `Buffer.from(hex, 'hex')` stops at the first pair that is no byte.
unfoldable pub digit_value : ℕ → Option ℕ
digit_value c =
    if leb 48 c && leb c 57
    then some (c - 48)
    else if leb 97 c && leb c 102
    then some (c - 87)
    else if leb 65 c && leb c 70
    then some (c - 55)
    else none

byte_of : Option ℕ → Option ℕ → Option ℕ
byte_of (some a) (some b) = some (a * 16 + b)
byte_of _ _ = none

cons_byte : Option ℕ → Bytes → Bytes
cons_byte none bs = []
cons_byte (some b) bs = b ∷ bs

unfoldable pub from_hex : List ℕ → Bytes
unfolding digit_value byte_of cons_byte
from_hex [] = []
from_hex (c ∷ []) = []
from_hex (c ∷ d ∷ cs) = cons_byte (byte_of (digit_value c) (digit_value d)) (from_hex cs)

-- The commands of Redis that the buffer uses.
pub record BufferServer (R : Type 0) : Type 0 where
  pub is_ready : R → Bool
  pub lrange : R → String → List (List ℕ)
  pub rpush : R → String → List (List ℕ) → R
  pub expire : R → String → ℕ → R
  pub del : R → String → R
  pub sadd : R → String → R
  pub srem : R → String → R
  pub smembers : R → List String
  pub locks : LockServer R

-- `Y.mergeUpdates`, which may throw.
abbrev pub Merge : Type 0
Merge = List Bytes → Option Bytes

pub record UpdateRow : Type 0 where
  pub file_id : String
  pub update : Bytes

pub record Store : Type 0 where
  pub file_updates : List UpdateRow
  pub cached_states : List String
  pub exec_succeeds : Bool
  pub insert_succeeds : Bool

abbrev pub concat : List Bytes → Bytes
concat [] = []
concat (b ∷ bs) = b ++ concat bs

unfoldable pub merged_payload : Merge → List Bytes → Bytes
merged_payload merge (u ∷ []) = u
merged_payload merge us = elim (merge us) [ none ↦ concat us | some u ↦ u ]

unfoldable pub buffer_key : String → String
buffer_key file = str_append "crdt:buffer:" file

unfoldable pub lock_key : String → String
lock_key file = str_append "lock:crdt:flush:" file

module _ {R : Type 0} (server : BufferServer R) (merge : Merge) where
  abbrev pub on_redis : (R → R) → Process R Store → Process R Store
  on_redis f p = record p { redis = f p.redis }

  -- `bufferCrdtUpdatesBatch`; `bufferCrdtUpdate` is the batch of one. A failed pipeline is logged.
  unfoldable pub buffer_crdt_updates_batch : String → List Bytes → Process R Store → Process R Store
  unfolding to_hex
  buffer_crdt_updates_batch file [] p = p
  buffer_crdt_updates_batch file (u ∷ us) p =
      if not (server.is_ready p.redis)
      then p
      else if not p.state.exec_succeeds
      then p
      else on_redis
          (λ r.
            server.expire
              (server.sadd (server.rpush r (buffer_key file) (map to_hex (u ∷ us))) file)
              (buffer_key file) 3600)
          p

  unfoldable pub buffer_crdt_update : String → Bytes → Process R Store → Process R Store
  unfolding buffer_crdt_updates_batch
  buffer_crdt_update file u p = buffer_crdt_updates_batch file (u ∷ []) p

  unfoldable pub get_pending_buffer_size : String → Process R Store → ℕ
  get_pending_buffer_size file p =
      if not (server.is_ready p.redis) then 0 else length (server.lrange p.redis (buffer_key file))

  -- INSERT, then the cached state of the file is dropped. A failed INSERT is logged and counts 0.
  persist : String → List (List ℕ) → Process R Store → Result ℕ × Process R Store
  unfolding merged_payload from_hex
  persist file [] p = (returned 0, p)
  persist file (h ∷ hs) p = if not p.state.insert_succeeds then (returned 0, p) else (
    returned (length (h ∷ hs)),
    record p {
      state = record (p.state) {
        file_updates =
            p.state.file_updates
            ++ record { file_id = file; update = merged_payload merge (map from_hex (h ∷ hs)) }
              ∷ [];
        cached_states = filter (λ f. not (str_eq f file)) p.state.cached_states;
      };
    },
  )

  -- The pipeline LRANGE, DEL, SREM, and what was read.
  pub flush_task : String → Task R Store ℕ
  unfolding persist
  flush_task file p =
      if not p.state.exec_succeeds
      then (returned 0, p)
      else persist file (server.lrange p.redis (buffer_key file))
          (on_redis (λ r. server.srem (server.del r (buffer_key file)) file) p)

  abbrev pub count_of : Result (Option ℕ) × Process R Store → ℕ × Process R Store
  count_of (returned (some n), p) = (n, p)
  count_of (returned none, p) = (0, p)
  count_of (threw, p) = (0, p)

  unfoldable pub flush_file_buffer : String → Process R Store → ℕ × Process R Store
  unfolding flush_task with_distributed_lock
  flush_file_buffer file p =
      if not (server.is_ready p.redis)
      then (0, p)
      else count_of (with_distributed_lock server.locks (lock_key file) 5000 (flush_task file) p)
