-- ===== src/Restore/Examples.antt =====
-- A workspace with "src/a.ts" and "b.ts", and a snapshot of "src/a.ts" and "src/lib/c.ts".
use nexus_ide.Common.Dict
use nexus_ide.Common.Dict.{Dict}
use nexus_ide.Common.{
  ℕ, String, ◌≡◌, refl, subst, ◌⊎◌, none, some, List, [], ◌∷◌, arith, str_eq, Bool-cases, inl, inr,
}
use nexus_ide.Snapshots.{SnapshotFile}
use nexus_ide.Restore.{FileRow, file, directory, Tables, split, dir_path, file_name, restore_files}
use nexus_ide.Restore.Rows.{row_at, last_for, Holds, HasLive}
use nexus_ide.Restore.Places.{AllPlaced}
use nexus_ide.Restore.Contents.{restore_keeps, restore_complete}

abbrev source_dir : FileRow
source_dir = record {
  id = 1;
  workspace_id = "w";
  parent_id = none;
  name = "src";
  type = directory;
  language = none;
  content = "";
  yjs_text = "";
}

abbrev first_file : FileRow
first_file = record {
  id = 2;
  workspace_id = "w";
  parent_id = some 1;
  name = "a.ts";
  type = file;
  language = some "ts";
  content = "new";
  yjs_text = "newer";
}

abbrev other_file : FileRow
other_file = record {
  id = 3;
  workspace_id = "w";
  parent_id = none;
  name = "b.ts";
  type = file;
  language = some "ts";
  content = "b";
  yjs_text = "b";
}

abbrev tables : Tables
tables = record {
  rows = source_dir ∷ first_file ∷ other_file ∷ [];
  updates = 2 ∷ 3 ∷ 2 ∷ [];
  next_id = 4;
}

abbrev snapshot : List SnapshotFile
snapshot =
    record { path = "src/a.ts"; content = "old"; language = some "ts"; size_bytes = some 3 }
    ∷ record { path = "src/lib/c.ts"; content = "c"; language = none; size_bytes = some 1 }
    ∷ []

abbrev live : Dict ℕ
live = ("src/a.ts", 2) ∷ ("b.ts", 3) ∷ []

path_split :
    (split "src/lib" ≡ "src" ∷ "lib" ∷ [])
    × (dir_path "src/lib/c.ts" ≡ "src/lib")
    × (file_name "src/lib/c.ts" ≡ "c.ts")
unfolding split dir_path file_name
path_split = (refl, refl, refl)

restored : restore_files "w" live snapshot tables ≡ (
  record {
    rows =
        source_dir
        ∷ record first_file { content = "old"; yjs_text = "old" }
        ∷ other_file
        ∷ record source_dir { id = 4; parent_id = some 1; name = "lib" }
        ∷ record {
          id = 5;
          workspace_id = "w";
          parent_id = some 4;
          name = "c.ts";
          type = file;
          language = some "javascript";
          content = "c";
          yjs_text = "c";
        }
        ∷ [];
    updates = 3 ∷ [];
    next_id = 6;
  },
  (2, "old") ∷ (5, "c") ∷ [],
)
unfolding restore_files
restored = refl

live_ids : (path : String) (id : ℕ) → Dict.get path live ≡ some id → (2 ≡ id) ⊎ (3 ≡ id)
unfolding Dict.get
live_ids path id g = elim (Bool-cases (str_eq "src/a.ts" path)) [
  | inl first ↦ inl (ground (arith, first, g))
  | inr more ↦ elim (Bool-cases (str_eq "b.ts" path)) [
    | inl second ↦ inr (ground (arith, more, second, g))
    | inr other ↦ cc (rw other at (rw more at g))
  ]
]

live-HasLive : HasLive live tables.rows
unfolding row_at
live-HasLive path id g = elim (live_ids path id g) [
  | inl a ↦ subst (λ i. (r : FileRow) × (row_at i tables.rows ≡ some r)) a (first_file, refl)
  | inr b ↦ subst (λ i. (r : FileRow) × (row_at i tables.rows ≡ some r)) b (other_file, refl)
]

untouched : row_at 3 tables.rows ≡ some other_file
unfolding row_at
untouched = refl

not_listed : last_for 3 (restore_files "w" live snapshot tables).1 ≡ none
unfolding restore_files
not_listed = refl

restore_keeps_example : row_at 3 (restore_files "w" live snapshot tables).0.rows ≡ some other_file
restore_keeps_example = restore_keeps "w" live snapshot tables 3 other_file untouched not_listed

restore_complete_example :
    AllPlaced "w" live snapshot
      (restore_files "w" live snapshot tables).1
      (restore_files "w" live snapshot tables).0.rows
    × ((i : ℕ) (c : String)
        → last_for i (restore_files "w" live snapshot tables).1 ≡ some c
        → Holds i c (restore_files "w" live snapshot tables).0.rows)
restore_complete_example = restore_complete "w" live snapshot tables (omega arith) live-HasLive
