-- ===== src/Compactor.antt =====
-- backend/src/services/crdtCompactor.service.ts, compactFileCrdtDeltas, with the merge that the worker
-- pool does for it (backend/src/workers/casWorker.ts, executeMergeYjsUpdates, and its fallback in
-- backend/src/services/workerPool.service.ts). Yjs is a parameter. `between` is what other sessions do
-- to the tables after the updates were selected and before the transaction.
pub mod Preservation
pub mod Losses
mod Examples
use nexus_ide.Common.Dict
use nexus_ide.Common.Dict.{Dict}
use nexus_ide.Common.{
  ℕ, String, Bool, true, false, not, Option, none, some, List, [], ◌∷◌, map, ltb, ◌==◌, str_eq,
  if◌then◌else◌, length, filter,
}

abbrev pub Bytes : Type 0
Bytes = List ℕ

-- The calls of Yjs: a new document, an update applied, text inserted at 0, the whole state encoded,
-- and the text 'monaco'.
pub record Yjs (D : Type 0) : Type 0 where
  pub new_doc : D
  pub apply_update : D → Bytes → D
  pub insert_text : D → String → D
  pub encode_state : D → Bytes
  pub text : D → String

pub record FileRow : Type 0 where
  pub yjs_state : Option Bytes
  pub content : Option String

pub record UpdateRow : Type 0 where
  pub file_id : String
  pub update : Bytes

-- `file_updates` stands in the order of `seq`.
pub record Tables : Type 0 where
  pub files : Dict FileRow
  pub file_updates : List UpdateRow

pub record CompactionResult : Type 0 where
  pub updates_compacted : ℕ
  pub compacted_size_bytes : ℕ

-- A rejected promise is `none`.
abbrev pub Outcome : Type 0
Outcome = Tables × Option CompactionResult

abbrev pub of_file : String → UpdateRow → Bool
of_file file r = str_eq r.file_id file

unfoldable pub select_updates : String → Tables → List UpdateRow
select_updates file db = filter (of_file file) db.file_updates

abbrev pub is_empty : Bytes → Bool
is_empty [] = true
is_empty (b ∷ bs) = false

-- The updates that have bytes.
unfoldable pub updates_list : List UpdateRow → List Bytes
updates_list rows = filter (λ u. not (is_empty u)) (map (λ r. r.update) rows)

size_of : Option Bytes → ℕ
size_of none = 0
size_of (some s) = length s

module _ {D : Type 0} (yjs : Yjs D) where
  open yjs use {new_doc, apply_update, insert_text, encode_state, text}

  unfoldable pub apply_all : D → List Bytes → D
  apply_all d [] = d
  apply_all d (u ∷ us) = apply_all (apply_update d u) us

  -- An empty content is no content to the test.
  from_content : Option String → D
  from_content none = new_doc
  from_content (some s) = if str_eq s "" then new_doc else insert_text new_doc s

  -- The document that a row stands for, before its updates.
  base_of : Option Bytes → Option String → D
  unfolding from_content
  base_of none content = from_content content
  base_of (some s) content = apply_update new_doc s

  unfoldable pub base_doc : FileRow → D
  unfolding base_of
  base_doc row = base_of row.yjs_state row.content

  pub record Merged : Type 0 where
    pub compacted_buffer : Bytes
    pub text_content : String

  unfoldable pub merge_inline : FileRow → List Bytes → Merged
  unfolding base_doc apply_all
  merge_inline row us =
      let d = apply_all (base_doc row) us in
      record { compacted_buffer = encode_state d; text_content = text d }

  -- The worker's start: an empty base state is skipped, and the content is not among its inputs.
  worker_base : Option Bytes → D
  worker_base none = new_doc
  worker_base (some []) = new_doc
  worker_base (some (b ∷ bs)) = apply_update new_doc (b ∷ bs)

  unfoldable pub execute_merge_yjs_updates : List Bytes → Option Bytes → Bytes
  unfolding worker_base apply_all
  execute_merge_yjs_updates us base =
      encode_state (apply_all (worker_base base) (filter (λ u. not (is_empty u)) us))

  -- `mergeYjsUpdatesOffloaded`: a task that is rejected, or answers no state, is merged here instead.
  unfoldable pub merge_yjs_updates_offloaded :
      Option (Option Bytes) → List Bytes → Option Bytes → Bytes
  unfolding worker_base apply_all
  merge_yjs_updates_offloaded (some (some merged)) us base = merged
  merge_yjs_updates_offloaded (some none) us base =
      encode_state (apply_all (worker_base base) (filter (λ u. not (is_empty u)) us))
  merge_yjs_updates_offloaded none us base =
      encode_state (apply_all (worker_base base) (filter (λ u. not (is_empty u)) us))

  -- The branch for many updates, with the merge that the worker, or the fallback, computes.
  unfoldable pub merge_offloaded : FileRow → List Bytes → Merged
  unfolding execute_merge_yjs_updates
  merge_offloaded row us =
      let merged = execute_merge_yjs_updates us row.yjs_state in
      record { compacted_buffer = merged; text_content = text (apply_update new_doc merged) }

  -- More than five updates go to the worker pool; inline where that throws.
  unfoldable pub merge_updates : Bool → FileRow → List Bytes → Merged
  unfolding merge_inline merge_offloaded
  merge_updates offload_throws row us =
      if ltb 5 (length us)
      then if offload_throws then merge_inline row us else merge_offloaded row us
      else merge_inline row us

  -- BEGIN, UPDATE, DELETE, COMMIT; a failure rolls back and is thrown.
  set_row : String → FileRow → Option FileRow → Dict FileRow → Dict FileRow
  unfolding Dict.put
  set_row file row none files = files
  set_row file row (some old) files = Dict.put file row files

  unfoldable pub commit : Bool → String → Merged → ℕ → Tables → Outcome
  unfolding set_row Dict.get
  commit true file m n db = (db, none)
  commit false file m n db = (
    record db {
      files =
          set_row file
            (record { yjs_state = some m.compacted_buffer; content = some m.text_content })
            (Dict.get file db.files) db.files;
      file_updates = filter (λ r. not (of_file file r)) db.file_updates;
    },
    some (record { updates_compacted = n; compacted_size_bytes = length m.compacted_buffer }),
  )

  compact_rows :
      Bool → Bool → (Tables → Tables) → String → FileRow → List UpdateRow → Tables → Outcome
  unfolding merge_updates commit updates_list size_of
  compact_rows offload_throws tx_fails between file row [] db =
      (db, some (record { updates_compacted = 0; compacted_size_bytes = size_of row.yjs_state }))
  compact_rows offload_throws tx_fails between file row (u ∷ us) db =
      commit tx_fails file (merge_updates offload_throws row (updates_list (u ∷ us)))
        (length (u ∷ us)) (between db)

  compact_row : Bool → Bool → (Tables → Tables) → String → Option FileRow → Tables → Outcome
  unfolding compact_rows select_updates
  compact_row offload_throws tx_fails between file none db =
      (db, some (record { updates_compacted = 0; compacted_size_bytes = 0 }))
  compact_row offload_throws tx_fails between file (some row) db =
      compact_rows offload_throws tx_fails between file row (select_updates file db) db

  unfoldable pub compact_file_crdt_deltas :
      Bool → Bool → (Tables → Tables) → String → Tables → Outcome
  unfolding compact_row Dict.get
  compact_file_crdt_deltas offload_throws tx_fails between file db =
      compact_row offload_throws tx_fails between file (Dict.get file db.files) db
