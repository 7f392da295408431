-- ===== src/Merkle.antt =====
-- backend/src/services/cas.service.ts and backend/src/workers/casWorker.ts: snapshots as a tree of
-- hashes. SHA-256, JSON.stringify, Buffer.byteLength and localeCompare are not code of the
-- repository and come in as `Platform`; `sort` is a stable sort by the comparison that it is given.
pub mod Dedup
pub mod Order
pub mod Diff
pub mod Rows
mod Examples
use Prim.Native.Nat.{Ordering}
use Prim.Native.Char.{code}
use nexus_ide.Common.Dict
use nexus_ide.Common.Dict.{Dict}
use nexus_ide.Common.{
  ℕ, ◌+◌, String, Bool, true, false, ◌||◌, not, Option, none, some, List, [], ◌∷◌, ◌++◌, leb, ◌==◌,
  str_eq, if◌then◌else◌, length,
}

pub data EntryType : Type 0 where
  blob tree : EntryType

pub record TreeEntry : Type 0 where
  pub name : String
  pub entry_type : EntryType
  pub hash : String
  pub path : String
  pub language : Option String
  pub size_bytes : ℕ

pub record BlobRecord : Type 0 where
  pub hash : String
  pub content : String
  pub size_bytes : ℕ

pub record TreeRecord : Type 0 where
  pub hash : String
  pub entries : List TreeEntry

pub record MerkleDag : Type 0 where
  pub root_tree_hash : String
  pub blobs_to_insert : List BlobRecord
  pub trees_to_insert : List TreeRecord

pub record TreeDiff : Type 0 where
  pub added : List TreeEntry
  pub modified : List TreeEntry
  pub deleted : List TreeEntry

-- A file as it is handed in; the content may be missing.
pub record SourceFile : Type 0 where
  pub path : String
  pub content : Option String
  pub language : Option String

pub record Platform : Type 0 where
  pub sha256 : String → String
  pub byte_length : String → ℕ
  pub stringify : List TreeEntry → String
  pub locale_compare : String → String → Ordering

abbrev pub content_of : Option String → String
content_of none = ""
content_of (some s) = s

-- `path.split('/').pop() || path`
has_slash : String → Bool
has_slash String.[] = false
has_slash (String.◌∷◌ c s) = (code c == 47) || has_slash s

last_segment : String → String
unfolding has_slash
last_segment String.[] = ""
last_segment (String.◌∷◌ c s) =
    let rest = last_segment s in
    if has_slash s then rest else if code c == 47 then s else String.◌∷◌ c s

unfoldable pub name_of : String → String
unfolding last_segment
name_of path = if str_eq (last_segment path) "" then path else last_segment path

module _ (platform : Platform) where
  open platform use {sha256, byte_length, stringify, locale_compare}

  -- `a.name.localeCompare(b.name) || a.path.localeCompare(b.path)`
  unfoldable pub compare_entries : TreeEntry → TreeEntry → Ordering
  compare_entries a b = elim (locale_compare a.name b.name) [
    | Ordering.eq ↦ locale_compare a.path b.path
    | Ordering.lt ↦ Ordering.lt
    | Ordering.gt ↦ Ordering.gt
  ]

  -- An entry goes behind those that are not after it.
  pub insert_entry : TreeEntry → List TreeEntry → List TreeEntry
  unfolding compare_entries
  insert_entry e [] = e ∷ []
  insert_entry e (x ∷ xs) = elim (compare_entries e x) [
    | Ordering.lt ↦ e ∷ x ∷ xs
    | Ordering.eq ↦ x ∷ insert_entry e xs
    | Ordering.gt ↦ x ∷ insert_entry e xs
  ]

  sort_onto : List TreeEntry → List TreeEntry → List TreeEntry
  unfolding insert_entry
  sort_onto done [] = done
  sort_onto done (e ∷ es) = sort_onto (insert_entry e done) es

  unfoldable pub canonical : List TreeEntry → List TreeEntry
  unfolding sort_onto
  canonical es = sort_onto [] es

  unfoldable pub hash_tree_entries : List TreeEntry → TreeRecord
  unfolding canonical
  hash_tree_entries es = record { hash = sha256 (stringify (canonical es)); entries = canonical es }

  unfoldable pub blob_of : SourceFile → BlobRecord
  blob_of f =
      let content = content_of f.content in
      record { hash = sha256 content; content = content; size_bytes = byte_length content }

  unfoldable pub entry_of : SourceFile → TreeEntry
  unfolding name_of
  entry_of f =
      let content = content_of f.content in
      record {
        name = name_of f.path;
        entry_type = blob;
        hash = sha256 content;
        path = f.path;
        language = f.language;
        size_bytes = byte_length content;
      }

  -- `if (!blobsMap.has(hash)) blobsMap.set(hash, …)`
  unfoldable pub add_blob : Dict BlobRecord → BlobRecord → Dict BlobRecord
  unfolding Dict.has Dict.put
  add_blob blobs b = if Dict.has b.hash blobs then blobs else Dict.put b.hash b blobs

  unfoldable pub collect_blobs : Dict BlobRecord → List SourceFile → Dict BlobRecord
  unfolding add_blob blob_of
  collect_blobs blobs [] = blobs
  collect_blobs blobs (f ∷ fs) = collect_blobs (add_blob blobs (blob_of f)) fs

  unfoldable pub root_entries : List SourceFile → List TreeEntry
  unfolding entry_of
  root_entries [] = []
  root_entries (f ∷ fs) = entry_of f ∷ root_entries fs

  unfoldable pub build_merkle_tree_inline : List SourceFile → MerkleDag
  unfolding collect_blobs root_entries hash_tree_entries
  build_merkle_tree_inline files =
      let root = hash_tree_entries (root_entries files) in
      record {
        root_tree_hash = root.hash;
        blobs_to_insert = Dict.values (collect_blobs [] files);
        trees_to_insert = root ∷ [];
      }

  -- What the worker thread computes.
  unfoldable pub execute_build_merkle_tree : List SourceFile → MerkleDag
  unfolding build_merkle_tree_inline
  execute_build_merkle_tree files = build_merkle_tree_inline files

  -- `buildMerkleTreeOffloaded`: the answer is `none` where the task was rejected, and may lack a tree.
  unfoldable pub build_merkle_tree_offloaded :
      List SourceFile → Option (Option MerkleDag) → MerkleDag
  unfolding build_merkle_tree_inline
  build_merkle_tree_offloaded files (some (some dag)) = dag
  build_merkle_tree_offloaded files (some none) = build_merkle_tree_inline files
  build_merkle_tree_offloaded files none = build_merkle_tree_inline files

  -- At most three files inline; the others by the worker pool.
  unfoldable pub build_merkle_tree : List SourceFile → Option (Option MerkleDag) → MerkleDag
  unfolding build_merkle_tree_inline build_merkle_tree_offloaded
  build_merkle_tree files answer =
      if leb (length files) 3
      then build_merkle_tree_inline files
      else build_merkle_tree_offloaded files answer

-- `new Map(tree.map(e => [e.path, e]))`: the last entry of a path stays.
map_onto : Dict TreeEntry → List TreeEntry → Dict TreeEntry
unfolding Dict.put
map_onto m [] = m
map_onto m (e ∷ es) = map_onto (Dict.put e.path e m) es

unfoldable pub path_map : List TreeEntry → Dict TreeEntry
unfolding map_onto
path_map es = map_onto [] es

-- The loops over the second map and over the first.
pub changed_in : Option TreeEntry → TreeEntry → Bool
changed_in none b = false
changed_in (some a) b = not (str_eq a.hash b.hash)

pub absent : Option TreeEntry → Bool
absent none = true
absent (some a) = false

added_loop : Dict TreeEntry → Dict TreeEntry → List TreeEntry
unfolding absent Dict.get
added_loop a [] = []
added_loop a ((p, e) ∷ rest) =
    let later = added_loop a rest in if absent (Dict.get p a) then e ∷ later else later

modified_loop : Dict TreeEntry → Dict TreeEntry → List TreeEntry
unfolding changed_in Dict.get
modified_loop a [] = []
modified_loop a ((p, e) ∷ rest) =
    let later = modified_loop a rest in if changed_in (Dict.get p a) e then e ∷ later else later

deleted_loop : Dict TreeEntry → Dict TreeEntry → List TreeEntry
unfolding Dict.has
deleted_loop b [] = []
deleted_loop b ((p, e) ∷ rest) =
    let later = deleted_loop b rest in if Dict.has p b then later else e ∷ later

unfoldable pub diff_trees : List TreeEntry → List TreeEntry → TreeDiff
unfolding path_map added_loop modified_loop deleted_loop
diff_trees a b = record {
  added = added_loop (path_map a) (path_map b);
  modified = modified_loop (path_map a) (path_map b);
  deleted = deleted_loop (path_map b) (path_map a);
}
