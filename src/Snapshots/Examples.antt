-- ===== src/Snapshots/Examples.antt =====
-- A second checkpoint of a workspace, on a platform whose hash is the text itself.
use mathlib.Core.List.{Perm}
use Prim.Native.Nat.{Ordering}
use nexus_ide.Common.Dict
use nexus_ide.Common.Dict.{Dict}
use nexus_ide.Common.{
  ℕ, String, ◌≡◌, refl, Option, none, some, List, [], ◌∷◌, map, arith, ltb, str_eq, if◌then◌else◌,
  eq_iff, Bool-cases, inl, inr, take,
}
use nexus_ide.Merkle.{
  blob, TreeEntry, Platform, MerkleDag, build_merkle_tree, execute_build_merkle_tree, canonical,
  root_entries,
}
use nexus_ide.Snapshots.{
  LiveFile, SnapshotFile, Commit, Store, source_of, create_checkpoint, get_snapshot_files,
  get_snapshot_files_with_diff, find_commit,
}
use nexus_ide.Snapshots.Stored.{PrintsApart, IsSound, snapshot_of}
use nexus_ide.Snapshots.RoundTrip.{of_workspace, get-create_checkpoint, create_checkpoint-capped}

abbrev by_rank : ℕ → ℕ → Ordering
by_rank m n = if ltb m n then Ordering.lt else if ltb n m then Ordering.gt else Ordering.eq

abbrev rank : String → ℕ
rank s = if str_eq s "a.ts" then 0 else 1

abbrev last_path : String → List TreeEntry → String
last_path p [] = p
last_path p (e ∷ es) = last_path e.path es

abbrev platform : Platform
platform = record {
  sha256 = λ s. s;
  byte_length = λ s. 1;
  stringify = last_path "";
  locale_compare = λ s t. by_rank (rank s) (rank t);
}

abbrev old_entry : TreeEntry
old_entry = record {
  name = "a.ts";
  entry_type = blob;
  hash = "x";
  path = "a.ts";
  language = none;
  size_bytes = 1;
}

abbrev commit : String → ℕ → Commit
commit ws id = record { id = id; workspace_id = ws; root_tree_hash = "a.ts"; label = "first" }

abbrev store : Store
store = record {
  blobs = ("x", record { hash = "x"; content = "x"; size_bytes = 1 }) ∷ [];
  trees = ("a.ts", old_entry ∷ []) ∷ [];
  commits = commit "w" 1 ∷ commit "v" 0 ∷ [];
  next_id = 2;
}

-- The state of the first file is ahead of its column.
abbrev live : List LiveFile
live =
    record { path = "b.ts"; content = some "old"; language = some ""; yjs_text = some "new" }
    ∷ record { path = "a.ts"; content = some "x"; language = some "ts"; yjs_text = some "" }
    ∷ []

abbrev file : String → String → Option String → SnapshotFile
file path content language = record {
  path = path;
  content = content;
  language = language;
  size_bytes = some 1;
}

second_read :
    get_snapshot_files platform [] 2 (create_checkpoint platform "w" "second" live none store).0
    ≡ file "a.ts" "x" (some "ts") ∷ file "b.ts" "new" none ∷ []
unfolding get_snapshot_files create_checkpoint build_merkle_tree
second_read = refl

first_kept :
    get_snapshot_files platform [] 1 (create_checkpoint platform "w" "second" live none store).0
    ≡ file "a.ts" "x" none ∷ []
unfolding get_snapshot_files create_checkpoint build_merkle_tree
first_kept = refl

compared :
    get_snapshot_files_with_diff (file "a.ts" "y" none ∷ file "c.ts" "z" none ∷ []) live
    ≡ record {
      path = "a.ts";
      language = none;
      snapshot_content = some "y";
      live_content = some "x";
    }
      ∷ record { path = "c.ts"; language = none; snapshot_content = some "z"; live_content = none }
      ∷ record {
        path = "b.ts";
        language = some "";
        snapshot_content = none;
        live_content = some "old";
      }
      ∷ []
unfolding get_snapshot_files_with_diff
compared = refl

store-IsSound : IsSound platform store
store-IsSound = record { blobs = (refl, tt); trees = (refl, tt) }

store-PrintsApart :
    PrintsApart platform
      (canonical platform (root_entries platform (map source_of live)))
      store.trees
unfolding canonical root_entries source_of Dict.get
store-PrintsApart k es g e = elim (Bool-cases (str_eq "a.ts" k)) [
  | inl same ↦ absurd (differs (ground (arith, same, g, e)))
  | inr other ↦ cc (rw other at g)
]
  where
    differs : ◌≡◌ {A = String} "a.ts" "b.ts" → ⊥
    differs p = cc ((eq_iff "a.ts" "b.ts").1 p)

no_worker :
    (dag : MerkleDag)
    → ◌≡◌ {A = Option (Option MerkleDag)} none (some (some dag))
    → dag ≡ execute_build_merkle_tree platform (map source_of live)
no_worker dag e = cc

get-create_checkpoint_example :
    Perm
      (get_snapshot_files platform []
        (create_checkpoint platform "w" "second" live none store).1.id
        (create_checkpoint platform "w" "second" live none store).0)
      (map (snapshot_of platform) (map source_of live))
get-create_checkpoint_example =
    get-create_checkpoint platform (λ s t e. e) "w" "second" live none store [] store-IsSound
      store-PrintsApart no_worker

create_checkpoint-capped_example :
    (of_workspace "w" (create_checkpoint platform "w" "second" live none store).0.commits
      ≡ take 10 (
          (create_checkpoint platform "w" "second" live none store).1
          ∷ of_workspace "w" store.commits))
    × (find_commit
          (create_checkpoint platform "w" "second" live none store).1.id
          (create_checkpoint platform "w" "second" live none store).0.commits
        ≡ some (create_checkpoint platform "w" "second" live none store).1)
    × (of_workspace "v" (create_checkpoint platform "w" "second" live none store).0.commits
        ≡ of_workspace "v" store.commits)
    × IsSound platform (create_checkpoint platform "w" "second" live none store).0
create_checkpoint-capped_example =
    create_checkpoint-capped platform "w" "second" "v" live none store store-IsSound no_worker refl
