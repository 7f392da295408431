-- ===== src/CasCollector/Examples.antt =====
-- A collection over two trees and three blobs.
use nexus_ide.Common.{◌≡◌, refl, ◌&&◌, true, false, none, some, [], ◌∷◌}
use nexus_ide.CasCollector.{Tables, is_root, is_referenced, purge_trees, run_garbage_collection}
use nexus_ide.CasCollector.Safety.{has_tree, has_blob, nothing, collected, late_reference_dangles}

abbrev store : Tables
store = record {
  root_tree_hashes = some "t1" ∷ none ∷ [];
  git_trees =
      record { hash = "t1"; entry_hashes = "b1" ∷ [] }
      ∷ record { hash = "t2"; entry_hashes = "b2" ∷ [] }
      ∷ [];
  git_blobs =
      record { hash = "b1"; size_bytes = 10 }
      ∷ record { hash = "b2"; size_bytes = 20 }
      ∷ record { hash = "b3"; size_bytes = 30 }
      ∷ [];
}

-- A snapshot that another session stores, made of a blob that it found in the table.
abbrev new_snapshot : Tables → Tables
new_snapshot db = record db {
  git_trees = record { hash = "t3"; entry_hashes = "b2" ∷ [] } ∷ db.git_trees;
}

store_stats :
    (run_garbage_collection false false nothing store).1
    ≡ record { blobs_purged = 2; trees_purged = 1; reclaimed_bytes = 50 }
unfolding run_garbage_collection
store_stats = refl

collected_example :
    (has_tree "b2" (run_garbage_collection false false nothing store).0
      ≡ (has_tree "b2" store && is_root store "b2"))
    × (has_blob "b2" (run_garbage_collection false false nothing store).0 ≡ (
        has_blob "b2" store
        && is_referenced (run_garbage_collection false false nothing store).0 "b2"))
collected_example = collected store "b2"

late_reference_dangles_example :
    (is_referenced (run_garbage_collection false false new_snapshot store).0 "b2" ≡ true)
    × (has_blob "b2" (run_garbage_collection false false new_snapshot store).0 ≡ false)
unfolding has_blob is_referenced purge_trees
late_reference_dangles_example = late_reference_dangles store new_snapshot "b2" refl refl refl
