-- ===== src/Snapshots.antt =====
-- backend/src/repositories/snapshot.repository.ts, and the comparison of
-- backend/src/services/workspaceSnapshot.service.ts: checkpoints of a workspace. The three tables of
-- the database are the store; a query that fails, and so ROLLBACK, is not modelled. Yjs comes in as the
-- text of a stored state.
pub mod Stored
pub mod RoundTrip
mod Examples
use Prim.Native.Nat.{Ordering}
use nexus_ide.Common.Dict
use nexus_ide.Common.Dict.{Dict}
use nexus_ide.Common.{
  ℕ, zero, suc, ◌+◌, String, Bool, true, false, ◌||◌, not, Option, none, some, List, [], ◌∷◌, ◌++◌,
  map, ◌==◌, str_eq, if◌then◌else◌,
}
use nexus_ide.Merkle.{
  Platform, SourceFile, TreeEntry, TreeRecord, BlobRecord, MerkleDag, build_merkle_tree, add_blob,
  content_of,
}

-- A row of the query over the live files; `yjs_state` is the text of the state: none where there is no
-- state, where it is empty, or where it cannot be applied.
pub record LiveFile : Type 0 where
  pub path : String
  pub content : Option String
  pub language : Option String
  pub yjs_text : Option String

pub record SnapshotFile : Type 0 where
  pub path : String
  pub content : String
  pub language : Option String
  pub size_bytes : Option ℕ

pub record Commit : Type 0 where
  pub id : ℕ
  pub workspace_id : String
  pub root_tree_hash : String
  pub label : String

-- Commits are listed from the newest on (`ORDER BY created_at DESC`).
pub record Store : Type 0 where
  pub blobs : Dict BlobRecord
  pub trees : Dict (List TreeEntry)
  pub commits : List Commit
  pub next_id : ℕ

-- `s || null`
unfoldable pub or_null : Option String → Option String
or_null none = none
or_null (some s) = if str_eq s "" then none else some s

unfoldable pub or_else : Option String → String → String
or_else none d = d
or_else (some s) d = if str_eq s "" then d else s

-- The text of the state goes before the column, unless it is empty.
unfoldable pub source_of : LiveFile → SourceFile
unfolding or_null or_else
source_of f = record {
  path = f.path;
  content = some (or_else f.yjs_text (or_else f.content ""));
  language = or_null f.language;
}

unfoldable pub insert_trees : List TreeRecord → Dict (List TreeEntry) → Dict (List TreeEntry)
unfolding Dict.has Dict.put
insert_trees [] ts = ts
insert_trees (t ∷ rest) ts =
    insert_trees rest (if Dict.has t.hash ts then ts else Dict.put t.hash t.entries ts)

-- The commits of a workspace beyond the `n` newest are deleted.
unfoldable pub keep_newest : String → ℕ → List Commit → List Commit
keep_newest ws n [] = []
keep_newest ws zero (c ∷ cs) =
    let rest = keep_newest ws zero cs in if str_eq c.workspace_id ws then rest else c ∷ rest
keep_newest ws (suc n) (c ∷ cs) =
    c ∷ keep_newest ws (if str_eq c.workspace_id ws then n else suc n) cs

abbrev pub max_snapshots : ℕ
max_snapshots = 10

unfoldable pub find_commit : ℕ → List Commit → Option Commit
find_commit id [] = none
find_commit id (c ∷ cs) = if c.id == id then some c else find_commit id cs

module _ (platform : Platform) where
  open platform use {locale_compare}

  unfoldable pub insert_blobs : List BlobRecord → Dict BlobRecord → Dict BlobRecord
  unfolding add_blob
  insert_blobs [] bs = bs
  insert_blobs (b ∷ rest) bs = insert_blobs rest (add_blob platform bs b)

  -- The rows of a checkpoint, with the tree that the worker pool answered, if it did.
  unfoldable pub create_checkpoint :
      String → String → List LiveFile → Option (Option MerkleDag) → Store → Store × Commit
  unfolding insert_blobs insert_trees keep_newest source_of
  create_checkpoint ws label live answer s =
      let dag = build_merkle_tree platform (map source_of live) answer in
      let commit : Commit = record {
        id = s.next_id;
        workspace_id = ws;
        root_tree_hash = dag.root_tree_hash;
        label = label;
      } in
      (
        record {
          blobs = insert_blobs dag.blobs_to_insert s.blobs;
          trees = insert_trees dag.trees_to_insert s.trees;
          commits = keep_newest ws max_snapshots (commit ∷ s.commits);
          next_id = s.next_id + 1;
        },
        commit,
      )

  -- `entries.map(…)`, with the contents that `git_blobs` has.
  blob_content : Option BlobRecord → String
  blob_content none = ""
  blob_content (some b) = b.content

  unfoldable pub file_of : Dict BlobRecord → TreeEntry → SnapshotFile
  unfolding blob_content or_null Dict.get
  file_of blobs e = record {
    path = e.path;
    content = blob_content (Dict.get e.hash blobs);
    language = or_null e.language;
    size_bytes = some e.size_bytes;
  }

  pub insert_file : SnapshotFile → List SnapshotFile → List SnapshotFile
  insert_file f [] = f ∷ []
  insert_file f (g ∷ gs) =
      let rest = insert_file f gs in
      elim (locale_compare f.path g.path) [
        | Ordering.lt ↦ f ∷ g ∷ gs
        | Ordering.eq ↦ g ∷ rest
        | Ordering.gt ↦ g ∷ rest
      ]

  unfoldable pub sort_files : List SnapshotFile → List SnapshotFile → List SnapshotFile
  unfolding insert_file
  sort_files done [] = done
  sort_files done (f ∷ fs) = sort_files (insert_file f done) fs

  files_of_tree : List SnapshotFile → Dict BlobRecord → Option (List TreeEntry) → List SnapshotFile
  unfolding file_of sort_files
  files_of_tree legacy blobs none = legacy
  files_of_tree legacy blobs (some entries) = sort_files [] (map (file_of blobs) entries)

  files_of_commit : List SnapshotFile → Store → Option Commit → List SnapshotFile
  unfolding files_of_tree Dict.get
  files_of_commit legacy s none = legacy
  files_of_commit legacy s (some c) =
      files_of_tree legacy s.blobs (Dict.get c.root_tree_hash s.trees)

  -- `legacy` is what the table of the old snapshots has.
  unfoldable pub get_snapshot_files : List SnapshotFile → ℕ → Store → List SnapshotFile
  unfolding files_of_commit find_commit
  get_snapshot_files legacy id s = files_of_commit legacy s (find_commit id s.commits)

-- `new Map(…)`: the last file of a path stays.
pub record SnapshotFileDiff : Type 0 where
  pub path : String
  pub language : Option String
  pub snapshot_content : Option String
  pub live_content : Option String

live_map : Dict String → List LiveFile → Dict String
unfolding Dict.put
live_map m [] = m
live_map m (f ∷ fs) = live_map (Dict.put f.path (content_of f.content) m) fs

has_path : String → List SnapshotFile → Bool
has_path p [] = false
has_path p (f ∷ fs) = str_eq f.path p || has_path p fs

snapshot_rows : Dict String → List SnapshotFile → List SnapshotFileDiff
unfolding Dict.get
snapshot_rows live [] = []
snapshot_rows live (f ∷ fs) =
    record {
      path = f.path;
      language = f.language;
      snapshot_content = some f.content;
      live_content = Dict.get f.path live;
    }
    ∷ snapshot_rows live fs

live_rows : List SnapshotFile → List LiveFile → List SnapshotFileDiff
unfolding has_path
live_rows snap [] = []
live_rows snap (f ∷ fs) =
    let rest = live_rows snap fs in
    if not (has_path f.path snap)
    then record {
      path = f.path;
      language = f.language;
      snapshot_content = none;
      live_content = some (content_of f.content);
    }
      ∷ rest
    else rest

-- `getSnapshotFilesWithDiff`, for the files of a snapshot that was found.
unfoldable pub get_snapshot_files_with_diff :
    List SnapshotFile → List LiveFile → List SnapshotFileDiff
unfolding snapshot_rows live_rows live_map
get_snapshot_files_with_diff snap live =
    snapshot_rows (live_map [] live) snap ++ live_rows snap live
