-- ===== src/Compactor/Losses.antt =====
-- Where compaction drops what a file held.
use nexus_ide.Common.Dict
use nexus_ide.Common.Dict.{Dict, get-put}
use nexus_ide.Common.{
  ◌<◌, String, ◌≡◌, refl, ap, Bool, true, false, not, Option, none, some, List, [], ◌∷◌, ◌++◌, map,
  arith, ltb, eq_refl, length, filter,
}
use nexus_ide.Compactor.{
  Bytes, Yjs, FileRow, UpdateRow, Tables, of_file, select_updates, updates_list, apply_all, Merged,
  merge_updates, merge_offloaded, execute_merge_yjs_updates, worker_base, set_row, commit,
  compact_rows, compact_row, compact_file_crdt_deltas,
}
use nexus_ide.Compactor.Preservation.{updates_again}

-- A session appends an update.
abbrev pub append : UpdateRow → Tables → Tables
append r db = record db { file_updates = db.file_updates ++ r ∷ [] }

others-append :
    (file : String) (bytes : Bytes) (rows : List UpdateRow)
    → filter (λ r. not (of_file file r)) (rows ++ record { file_id = file; update = bytes } ∷ [])
      ≡ filter (λ r. not (of_file file r)) rows
others-append file bytes [] = rw (eq_refl file)
others-append file bytes (r ∷ rows) = ground (arith, others-append file bytes rows)

module _ {D : Type 0} (yjs : Yjs D) where
  offloaded :
      (row : FileRow) (us : List UpdateRow)
      → row.yjs_state ≡ none
      → 5 < length (updates_list us)
      → merge_updates yjs false row (updates_list us) ≡ (
          let merged = yjs.encode_state (apply_all yjs yjs.new_doc (updates_list us)) in
          record {
            compacted_buffer = merged;
            text_content = yjs.text (yjs.apply_update yjs.new_doc merged);
          })
  unfolding merge_updates merge_offloaded execute_merge_yjs_updates worker_base updates_list
  offloaded row us e many =
      let test : ltb 5 (length (updates_list us)) ≡ true = ground arith in
      rw test (rw e (ap again (updates_again (map (λ r. r.update) us))))
    where
      again : List Bytes → Merged yjs
      again vs =
          let merged = yjs.encode_state (apply_all yjs yjs.new_doc vs) in
          record {
            compacted_buffer = merged;
            text_content = yjs.text (yjs.apply_update yjs.new_doc merged);
          }

  -- A file that has a content and no state yet, with more than five updates that go to the worker:
  -- the row gets the merge of the updates on an empty document, whatever the content was.
  pub content_dropped :
      (file : String) (content : Option String) (u : UpdateRow) (us : List UpdateRow) (db : Tables)
      → Dict.get file db.files ≡ some (record { yjs_state = none; content = content })
      → select_updates file db ≡ u ∷ us
      → 5 < length (updates_list (u ∷ us))
      → Dict.get file (compact_file_crdt_deltas yjs false false (λ x. x) file db).0.files ≡ (
          let merged = yjs.encode_state (apply_all yjs yjs.new_doc (updates_list (u ∷ us))) in
          some (record {
            yjs_state = some merged;
            content = some (yjs.text (yjs.apply_update yjs.new_doc merged));
          }))
  unfolding compact_file_crdt_deltas compact_row compact_rows commit set_row
  content_dropped file content u us db g e many = rw g (
      rw e (
        rw g (
          rw (get-put file file) (
            rw (eq_refl file) (
              ap
                (λ (m : Merged yjs).
                  some
                    (record { yjs_state = some m.compacted_buffer; content = some m.text_content }))
                (offloaded (record { yjs_state = none; content = content }) (u ∷ us) refl many))))))

  -- An update that a session appends between the SELECT and the DELETE is deleted and not merged: the
  -- outcome is that of a compaction in which it was never made.
  pub late_update_dropped :
      (throws : Bool) (file : String) (row : FileRow) (u : UpdateRow) (us : List UpdateRow)
      (bytes : Bytes) (db : Tables)
      → Dict.get file db.files ≡ some row
      → select_updates file db ≡ u ∷ us
      → compact_file_crdt_deltas yjs throws false
          (append (record { file_id = file; update = bytes }))
          file
          db
        ≡ compact_file_crdt_deltas yjs throws false (λ x. x) file db
  unfolding compact_file_crdt_deltas compact_row compact_rows commit
  late_update_dropped throws file row u us bytes db g e =
      rw g (rw e (rw (others-append file bytes db.file_updates) refl))
