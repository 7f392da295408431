-- ===== src/Compactor/Examples.antt =====
-- A compaction over a document that is the list of the bytes applied to it.
use nexus_ide.Common.Dict
use nexus_ide.Common.{ℕ, ◌≡◌, refl, true, false, none, some, List, [], ◌∷◌, ◌++◌, inl, arith}
use nexus_ide.Compactor.{
  Yjs, UpdateRow, Tables, compact_file_crdt_deltas, select_updates, updates_list, apply_all,
}
use nexus_ide.Compactor.Preservation.{nothing, file_document, compaction_preserves}
use nexus_ide.Compactor.Losses.{append, content_dropped, late_update_dropped}

abbrev log_yjs : Yjs (List ℕ)
log_yjs = record {
  new_doc = [];
  apply_update = λ d u. d ++ u;
  insert_text = λ d s. 0 ∷ d;
  encode_state = λ d. d;
  text = λ d. "text";
}

abbrev update_of : ℕ → UpdateRow
update_of n = record { file_id = "a.ts"; update = n ∷ n ∷ [] }

abbrev other_update : UpdateRow
other_update = record { file_id = "b.ts"; update = 9 ∷ [] }

abbrev draft : Tables
draft = record {
  files =
      ("a.ts", record { yjs_state = none; content = some "let x" })
      ∷ ("b.ts", record { yjs_state = some (8 ∷ []); content = none })
      ∷ [];
  file_updates = update_of 1 ∷ other_update ∷ update_of 2 ∷ [];
}

abbrev busy : Tables
busy = record draft {
  file_updates =
      update_of 1
      ∷ other_update
      ∷ update_of 2
      ∷ update_of 3
      ∷ update_of 4
      ∷ update_of 5
      ∷ update_of 6
      ∷ [];
}

draft_document : file_document log_yjs "a.ts" draft ≡ some (0 ∷ 1 ∷ 1 ∷ 2 ∷ 2 ∷ [])
unfolding file_document
draft_document = refl

draft_compacted :
    (compact_file_crdt_deltas log_yjs false false nothing "a.ts" draft).1
    ≡ some (record { updates_compacted = 2; compacted_size_bytes = 5 })
unfolding compact_file_crdt_deltas
draft_compacted = refl

compaction_preserves_example :
    file_document log_yjs "b.ts"
      (compact_file_crdt_deltas log_yjs true false nothing "a.ts" draft).0
    ≡ file_document log_yjs "b.ts" draft
unfolding select_updates updates_list
compaction_preserves_example =
    compaction_preserves log_yjs (λ d. refl) true false "a.ts" "b.ts" draft
      (λ row g. inl (omega arith))

content_dropped_example :
    Dict.get "a.ts" (compact_file_crdt_deltas log_yjs false false (λ x. x) "a.ts" busy).0.files
    ≡ some (record {
      yjs_state = some (1 ∷ 1 ∷ 2 ∷ 2 ∷ 3 ∷ 3 ∷ 4 ∷ 4 ∷ 5 ∷ 5 ∷ 6 ∷ 6 ∷ []);
      content = some "text";
    })
unfolding Dict.get select_updates updates_list apply_all
content_dropped_example =
    content_dropped log_yjs "a.ts" (some "let x") (update_of 1)
      (update_of 2 ∷ update_of 3 ∷ update_of 4 ∷ update_of 5 ∷ update_of 6 ∷ []) busy refl refl
      (omega arith)

late_update_dropped_example :
    compact_file_crdt_deltas log_yjs true false
      (append (record { file_id = "a.ts"; update = 7 ∷ [] }))
      "a.ts"
      draft
    ≡ compact_file_crdt_deltas log_yjs true false (λ x. x) "a.ts" draft
unfolding Dict.get select_updates
late_update_dropped_example =
    late_update_dropped log_yjs true "a.ts" (record { yjs_state = none; content = some "let x" })
      (update_of 1) (update_of 2 ∷ []) (7 ∷ []) draft refl refl
