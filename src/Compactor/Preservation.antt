-- ===== src/Compactor/Preservation.antt =====
-- Compaction keeps the document that a file's row and its updates stand for.
use nexus_ide.Common.Dict
use nexus_ide.Common.Dict.{Dict, get-put}
use nexus_ide.Common.{
  ℕ, ◌≤◌, String, ◌≡◌, refl, sym, ap, subst, ◌∙◌, Bool, true, false, not, ◌⊎◌, inl, inr, Option,
  none, some, List, [], ◌∷◌, map, arith, str_eq, eq_iff, length, filter, Bool-cases,
}
use nexus_ide.Compactor.{
  merge_yjs_updates_offloaded, Bytes, Yjs, FileRow, UpdateRow, Tables, of_file, select_updates,
  updates_list, is_empty, apply_all, base_doc, merge_inline, worker_base, execute_merge_yjs_updates,
  merge_offloaded, merge_updates, set_row, commit, compact_rows, compact_row,
  compact_file_crdt_deltas,
}

abbrev pub nothing : Tables → Tables
nothing db = db

none_left :
    (file : String) (rows : List UpdateRow)
    → filter (of_file file) (filter (λ r. not (of_file file r)) rows) ≡ []
none_left file [] = refl
none_left file (r ∷ rows) = elim (Bool-cases (of_file file r)) [
  | inl mine ↦ rw mine (none_left file rows)
  | inr other ↦ rw other (rw other (none_left file rows))
]

only_mine :
    (file other : String) (rows : List UpdateRow)
    → str_eq file other ≡ false
    → filter (of_file other) (filter (λ r. not (of_file file r)) rows) ≡ filter (of_file other) rows
only_mine file other [] d = refl
only_mine file other (r ∷ rows) d = ground (
  arith,
  only_mine file other rows d,
  eq_iff r.file_id file,
  eq_iff r.file_id other,
  eq_iff file other,
)

-- A second look at updates that have bytes drops nothing.
pub updates_again :
    (us : List Bytes)
    → filter (λ u. not (is_empty u)) (filter (λ u. not (is_empty u)) us)
      ≡ filter (λ u. not (is_empty u)) us
updates_again [] = refl
updates_again ([] ∷ us) = updates_again us
updates_again ((b ∷ bs) ∷ us) = ap (λ t. (b ∷ bs) ∷ t) (updates_again us)

module _ {D : Type 0} (yjs : Yjs D) where
  -- The document of a file: its row, with the updates on record applied in order.
  pub document_of : FileRow → List UpdateRow → D
  unfolding base_doc apply_all updates_list
  document_of row rows = apply_all yjs (base_doc yjs row) (updates_list rows)

  -- The worker is given what it needs: few enough updates to stay inline, or a base state with bytes.
  abbrev pub HasBase : Option Bytes → Type 0
  HasBase none = ⊥
  HasBase (some []) = ⊥
  HasBase (some (b ∷ bs)) = Unit

  -- Where a worker that answers has done its work, the merge is the worker's, also if it failed.
  merge-offload :
      (answer : Option (Option Bytes)) (us : List Bytes) (base : Option Bytes)
      → ((merged : Bytes)
          → answer ≡ some (some merged)
          → merged ≡ execute_merge_yjs_updates yjs us base)
      → merge_yjs_updates_offloaded yjs answer us base ≡ execute_merge_yjs_updates yjs us base
  unfolding merge_yjs_updates_offloaded execute_merge_yjs_updates
  merge-offload none us base honest = refl
  merge-offload (some none) us base honest = refl
  merge-offload (some (some merged)) us base honest = honest merged refl

  -- The updates that the worker is handed have bytes already.
  worker_doc :
      (row : FileRow) (s : Option Bytes) (rows : List UpdateRow)
      → row.yjs_state ≡ s
      → HasBase s
      → execute_merge_yjs_updates yjs (updates_list rows) row.yjs_state
        ≡ yjs.encode_state (document_of row rows)
  unfolding execute_merge_yjs_updates worker_base document_of base_doc updates_list
  worker_doc row none rows e h = elim h [ ]
  worker_doc row (some []) rows e h = elim h [ ]
  worker_doc row (some (b ∷ bs)) rows e u = rw e (
      ap (λ us. yjs.encode_state (apply_all yjs (yjs.apply_update yjs.new_doc (b ∷ bs)) us))
        (updates_again (map (λ r. r.update) rows)))

  merged_document :
      (throws : Bool) (row : FileRow) (s : Option Bytes) (rows : List UpdateRow)
      → row.yjs_state ≡ s
      → (length (updates_list rows) ≤ 5) ⊎ HasBase s
      → (merge_updates yjs throws row (updates_list rows)).compacted_buffer
        ≡ yjs.encode_state (document_of row rows)
  unfolding merge_updates merge_inline merge_offloaded document_of
  merged_document throws row s rows e (inl few) = ground arith
  merged_document throws row s rows e (inr has) = ground (arith, worker_doc row s rows e has)

  -- The document of a file as the tables have it.
  doc_of_row : List UpdateRow → Option FileRow → Option D
  unfolding document_of
  doc_of_row rows none = none
  doc_of_row rows (some row) = some (document_of row rows)

  unfoldable pub file_document : String → Tables → Option D
  unfolding doc_of_row select_updates Dict.get
  file_document file db = doc_of_row (select_updates file db) (Dict.get file db.files)

  pub known_document :
      (file : String) (row : FileRow) (db : Tables)
      → Dict.get file db.files ≡ some row
      → file_document file db ≡ some (document_of row (select_updates file db))
  unfolding file_document doc_of_row
  known_document file row db g = rw g

  module _ (law : (d : D) → yjs.apply_update yjs.new_doc (yjs.encode_state d) ≡ d) where
    new_row_bytes : Bool → String → FileRow → Tables → Bytes
    new_row_bytes throws file row db =
        (merge_updates yjs throws row (updates_list (select_updates file db))).compacted_buffer

    new_row : Bool → String → FileRow → Tables → FileRow
    unfolding new_row_bytes
    new_row throws file row db = record {
      yjs_state = some (new_row_bytes throws file row db);
      content =
          some (merge_updates yjs throws row (updates_list (select_updates file db))).text_content;
    }

    commit_keeps :
        (throws tx_fails : Bool) (file other : String) (row : FileRow) (db : Tables) (n : ℕ)
        → Dict.get file db.files ≡ some row
        → (length (updates_list (select_updates file db)) ≤ 5) ⊎ HasBase row.yjs_state
        → file_document other
            (commit yjs tx_fails file
              (merge_updates yjs throws row (updates_list (select_updates file db)))
              n
              db).0
          ≡ file_document other db
    unfolding new_row new_row_bytes commit file_document doc_of_row document_of base_doc set_row
        select_updates apply_all updates_list
    commit_keeps throws true file other row db n g how = refl
    commit_keeps throws false file other row db n g how = rw g (
        rw (get-put file other (new_row throws file row db) db.files)
          (elim (Bool-cases (str_eq file other)) [
            | inl mine ↦ rw mine (
                subst
                  (λ o.
                    some (
                      apply_all yjs
                        (yjs.apply_update yjs.new_doc (new_row_bytes throws file row db))
                        (updates_list (
                          filter (of_file o) (filter (λ r. not (of_file file r)) db.file_updates))))
                    ≡ file_document o db)
                  ((eq_iff file other).0 mine)
                  (rw (none_left file db.file_updates) (
                    ap (λ d. some d)
                      (ap (λ b. yjs.apply_update yjs.new_doc b)
                          (merged_document throws row row.yjs_state (select_updates file db) refl
                            how)
                        ∙ law (document_of row (select_updates file db)))
                    ∙ sym (known_document file row db g))))
            | inr else_where ↦
                rw else_where (rw (only_mine file other db.file_updates else_where) refl)
          ]))

    -- When nothing else writes meanwhile and the worker gets what it needs, that is at most five updates
    -- or a base state with bytes, compaction leaves the document of every file as it was: of the file
    -- itself, of the others, whether the worker throws and whether the transaction fails.
    pub compaction_preserves :
        (throws tx_fails : Bool) (file other : String) (db : Tables)
        → ((row : FileRow)
            → Dict.get file db.files ≡ some row
            → (length (updates_list (select_updates file db)) ≤ 5) ⊎ HasBase row.yjs_state)
        → file_document other (compact_file_crdt_deltas yjs throws tx_fails nothing file db).0
          ≡ file_document other db
    unfolding compact_file_crdt_deltas compact_row compact_rows
    compaction_preserves throws tx_fails file other db how = go (Dict.get file db.files) refl
      where
        rows_case :
            (row : FileRow) (rows : List UpdateRow)
            → Dict.get file db.files ≡ some row
            → select_updates file db ≡ rows
            → file_document other (compact_rows yjs throws tx_fails nothing file row rows db).0
              ≡ file_document other db
        rows_case row [] g e = refl
        rows_case row (u ∷ us) g e =
            subst
              (λ rs.
                file_document other
                  (commit yjs tx_fails file (merge_updates yjs throws row (updates_list rs))
                    (length rs) db).0
                ≡ file_document other db)
              e
              (commit_keeps throws tx_fails file other row db (length (select_updates file db)) g
                (how row g))

        go :
            (o : Option FileRow)
            → Dict.get file db.files ≡ o
            → file_document other (compact_row yjs throws tx_fails nothing file o db).0
              ≡ file_document other db
        go none g = refl
        go (some row) g = rows_case row (select_updates file db) g refl
