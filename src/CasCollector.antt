-- ===== src/CasCollector.antt =====
-- backend/src/services/casGarbageCollector.service.ts: the collector of unreferenced trees and blobs.
-- The tables are lists of rows and the two SELECTs and DELETEs read and change them as SQL says.
-- `between` is what other sessions do to the tables after the blobs were selected; that a query is
-- rejected is an argument too.
pub mod Safety
mod Examples
use nexus_ide.Common.{
  ℕ, ◌+◌, String, Bool, true, false, ◌||◌, not, Option, none, some, List, [], ◌∷◌, map, filter,
  length, str_eq, if◌then◌else◌,
}

pub record TreeRow : Type 0 where
  pub hash : String
  -- `elem->>'hash'` of each element of `entries`.
  pub entry_hashes : List String

pub record BlobRow : Type 0 where
  pub hash : String
  pub size_bytes : ℕ

pub record Tables : Type 0 where
  pub root_tree_hashes : List (Option String)
  pub git_trees : List TreeRow
  pub git_blobs : List BlobRow

pub record CasGcStats : Type 0 where
  pub blobs_purged : ℕ
  pub trees_purged : ℕ
  pub reclaimed_bytes : ℕ

unfoldable pub elem : String → List String → Bool
elem s [] = false
elem s (t ∷ ts) = str_eq t s || elem s ts

-- `SELECT root_tree_hash … WHERE root_tree_hash IS NOT NULL`
roots : List (Option String) → List String
roots [] = []
roots (none ∷ rs) = roots rs
roots (some h ∷ rs) = h ∷ roots rs

unfoldable pub is_root : Tables → String → Bool
unfolding elem roots
is_root db h = elem h (roots db.root_tree_hashes)

-- `EXISTS (SELECT 1 FROM git_trees t, jsonb_array_elements(t.entries) …)`
in_trees : String → List TreeRow → Bool
unfolding elem
in_trees h [] = false
in_trees h (t ∷ ts) = elem h t.entry_hashes || in_trees h ts

unfoldable pub is_referenced : Tables → String → Bool
unfolding in_trees
is_referenced db h = in_trees h db.git_trees

tree_hashes : List TreeRow → List String
tree_hashes = map λ t. t.hash

blob_hashes : List BlobRow → List String
blob_hashes = map λ b. b.hash

unreferenced_trees : Tables → List TreeRow
unfolding is_root
unreferenced_trees db = filter (λ t. not (is_root db t.hash)) db.git_trees

unreferenced_blobs : Tables → List BlobRow
unfolding is_referenced
unreferenced_blobs db = filter (λ b. not (is_referenced db b.hash)) db.git_blobs

-- `DELETE … WHERE hash = ANY($1)`, and its row count.
delete_trees : List String → Tables → Tables
unfolding elem
delete_trees hs db = record db { git_trees = filter (λ t. not (elem t.hash hs)) db.git_trees }

delete_blobs : List String → Tables → Tables
unfolding elem
delete_blobs hs db = record db { git_blobs = filter (λ b. not (elem b.hash hs)) db.git_blobs }

trees_deleted : List String → Tables → ℕ
unfolding elem
trees_deleted hs db = length (filter (λ t. elem t.hash hs) db.git_trees)

blobs_deleted : List String → Tables → ℕ
unfolding elem
blobs_deleted hs db = length (filter (λ b. elem b.hash hs) db.git_blobs)

sum_sizes : List BlobRow → ℕ
sum_sizes [] = 0
sum_sizes (b ∷ bs) = b.size_bytes + sum_sizes bs

-- The first `try` block: the tables after it and the number of trees purged.
unfoldable pub purge_trees : Bool → Tables → Tables × ℕ
unfolding unreferenced_trees tree_hashes delete_trees trees_deleted
purge_trees rejected db =
    let hashes = tree_hashes (unreferenced_trees db) in
    if rejected then (db, 0) else (delete_trees hashes db, trees_deleted hashes db)

-- The second: blobs are selected in `db` and deleted from `between db`.
unfoldable pub purge_blobs : Bool → (Tables → Tables) → Tables → Tables × ℕ × ℕ
unfolding unreferenced_blobs blob_hashes delete_blobs blobs_deleted sum_sizes
purge_blobs rejected between db =
    let rows = unreferenced_blobs db in
    let hashes = blob_hashes rows in
    if rejected
    then (between db, 0, 0)
    else (delete_blobs hashes (between db), blobs_deleted hashes (between db), sum_sizes rows)

unfoldable pub run_garbage_collection :
    Bool → Bool → (Tables → Tables) → Tables → Tables × CasGcStats
unfolding purge_trees purge_blobs
run_garbage_collection trees_rejected blobs_rejected between db =
    let (db1, trees) = purge_trees trees_rejected db in
    let (db2, blobs, bytes) = purge_blobs blobs_rejected between db1 in
    (db2, record { blobs_purged = blobs; trees_purged = trees; reclaimed_bytes = bytes })
