-- ===== src/Snapshots/Stored.antt =====
-- What the inserts of a checkpoint leave in the tables.
use Prim.Native.Nat.{Ordering}
use mathlib.Core.List.Perm
use mathlib.Core.List.{Perm, perm_middle}
use nexus_ide.Common.Dict
use nexus_ide.Common.Dict.{Dict, get-put}
use nexus_ide.Common.{
  String, ◌≡◌, refl, sym, ap, subst, ◌∙◌, true, Option, none, some, List, [], ◌∷◌, ◌++◌, map, arith,
  Bool-cases, inl, inr, eq_iff, eq_refl,
}
use nexus_ide.Merkle.{
  Platform, SourceFile, TreeEntry, TreeRecord, BlobRecord, content_of, entry_of, add_blob,
}
use nexus_ide.Merkle.Dedup.{
  IsAddressed, get-IsAddressed, put-IsAddressed, get-add_blob_old, has-add_blob, found_blob,
}
use nexus_ide.Merkle.Rows.{AreHashed, HasHash, HasRows}
use nexus_ide.Snapshots.{
  SnapshotFile, Store, insert_trees, insert_blobs, file_of, blob_content, insert_file, sort_files,
  or_null,
}

module _ (platform : Platform) where
  open platform use {sha256, stringify, byte_length, locale_compare}

  -- A stored tree that prints as another is that tree.
  abbrev pub PrintsApart : List TreeEntry → Dict (List TreeEntry) → Type 0
  PrintsApart new m =
      (k : String) (es : List TreeEntry)
      → Dict.get k m ≡ some es
      → stringify es ≡ stringify new
      → es ≡ new

  abbrev pub TreesAddressed : Dict (List TreeEntry) → Type 0
  TreesAddressed [] = Unit
  TreesAddressed ((k, es) ∷ m) = (k ≡ sha256 (stringify es)) × TreesAddressed m

  -- Rows stand under the hash of what they hold, and ids are new.
  pub record IsSound (s : Store) : Type 0 where
    pub blobs : IsAddressed platform s.blobs
    pub trees : TreesAddressed s.trees

  add_blob-IsAddressed :
      (m : Dict BlobRecord) (b : BlobRecord)
      → b.hash ≡ sha256 b.content
      → IsAddressed platform m
      → IsAddressed platform (add_blob platform m b)
  unfolding add_blob
  add_blob-IsAddressed m b e v = elim (Bool-cases (Dict.has b.hash m)) [
    | inl old ↦ rw (old, add_blob) v
    | inr new ↦ rw (new, add_blob) (put-IsAddressed platform m b e v)
  ]

  pub insert_blobs-IsAddressed :
      (rows : List BlobRecord) (m : Dict BlobRecord)
      → AreHashed platform rows
      → IsAddressed platform m
      → IsAddressed platform (insert_blobs platform rows m)
  unfolding insert_blobs
  insert_blobs-IsAddressed [] m h v = v
  insert_blobs-IsAddressed (b ∷ rows) m h v =
      insert_blobs-IsAddressed rows (add_blob platform m b) h.1 (add_blob-IsAddressed m b h.0 v)

  -- A row that is there is not written again.
  pub insert_blobs-keeps :
      (rows : List BlobRecord) (m : Dict BlobRecord) (k : String) (b : BlobRecord)
      → Dict.get k m ≡ some b
      → Dict.get k (insert_blobs platform rows m) ≡ some b
  unfolding insert_blobs
  insert_blobs-keeps [] m k b g = g
  insert_blobs-keeps (x ∷ rows) m k b g =
      insert_blobs-keeps rows (add_blob platform m x) k b (get-add_blob_old platform m x b k g)

  insert_blobs-found :
      (rows : List BlobRecord) (m : Dict BlobRecord) (k : String)
      → HasHash platform k rows
      → (b : BlobRecord) × (Dict.get k (insert_blobs platform rows m) ≡ some b)
  unfolding insert_blobs
  insert_blobs-found [] m k h = elim h [ ]
  insert_blobs-found (x ∷ rows) m k (inl e) =
      let found = found_blob platform (add_blob platform m x) x.hash (has-add_blob platform m x) in
      subst
        (λ j.
          (b : BlobRecord) × (Dict.get j (insert_blobs platform rows (add_blob platform m x))
            ≡ some b))
        e (found.0, insert_blobs-keeps rows (add_blob platform m x) x.hash found.0 found.1)
  insert_blobs-found (x ∷ rows) m k (inr h) = insert_blobs-found rows (add_blob platform m x) k h

  get_tree-addressed :
      (k : String) (m : Dict (List TreeEntry)) (es : List TreeEntry)
      → TreesAddressed m
      → Dict.get k m ≡ some es
      → k ≡ sha256 (stringify es)
  unfolding Dict.get
  get_tree-addressed k [] es v g = cc
  get_tree-addressed k ((j, fs) ∷ m) es v g =
      ground (arith, eq_iff j k, get_tree-addressed k m es v.1)

  -- A file as a snapshot shows it.
  abbrev pub snapshot_of : SourceFile → SnapshotFile
  snapshot_of f = record {
    path = f.path;
    content = content_of f.content;
    language = or_null f.language;
    size_bytes = some (byte_length (content_of f.content));
  }

  module _ (free : (s t : String) → sha256 s ≡ sha256 t → s ≡ t) where
    -- Whether its row was there or not, the tree is under its hash.
    pub get-insert_trees :
        (t : TreeRecord) (m : Dict (List TreeEntry))
        → TreesAddressed m
        → PrintsApart t.entries m
        → t.hash ≡ sha256 (stringify t.entries)
        → Dict.get t.hash (insert_trees (t ∷ []) m) ≡ some t.entries
    unfolding insert_trees
    get-insert_trees t m v apart e = elim (Bool-cases (Dict.has t.hash m)) [
      | inr new ↦ rw new (get-put t.hash t.hash t.entries m ∙ rw (eq_refl t.hash) refl)
      | inl old ↦ rw old (stored (Dict.get t.hash m) refl old)
    ]
      where
        stored :
            (o : Option (List TreeEntry))
            → Dict.get t.hash m ≡ o
            → Dict.has t.hash m ≡ true
            → Dict.get t.hash m ≡ some t.entries
        stored none g old = cc (Dict.has-get t.hash m, old, g)
        stored (some es) g old =
            g
            ∙ ap some (
                apart t.hash es g (
                  free (stringify es) (stringify t.entries)
                    (sym (get_tree-addressed t.hash m es v g) ∙ e)))

    file_of-entry_of :
        (rows : List BlobRecord) (m : Dict BlobRecord) (f : SourceFile)
        → HasHash platform (sha256 (content_of f.content)) rows
        → IsAddressed platform (insert_blobs platform rows m)
        → file_of platform (insert_blobs platform rows m) (entry_of platform f) ≡ snapshot_of f
    unfolding file_of entry_of blob_content
    file_of-entry_of rows m f h v =
        let (b, found) = insert_blobs-found rows m (sha256 (content_of f.content)) h in
        let same : b.content ≡ content_of f.content = free b.content (content_of f.content) (
          sym (
            get-IsAddressed platform (insert_blobs platform rows m) (sha256 (content_of f.content))
              b v found)) in
        rw found (
          ap
            (λ (c : String). record {
              path = f.path;
              content = c;
              language = or_null f.language;
              size_bytes = some (byte_length (content_of f.content));
            })
            same)

    pub files-snapshots :
        (fs : List SourceFile) (rows : List BlobRecord) (m : Dict BlobRecord)
        → HasRows platform fs rows
        → IsAddressed platform (insert_blobs platform rows m)
        → map (file_of platform (insert_blobs platform rows m)) (map (entry_of platform) fs)
          ≡ map snapshot_of fs
    files-snapshots [] rows m h v = refl
    files-snapshots (f ∷ fs) rows m h v =
        λ i. file_of-entry_of rows m f h.0 v i ∷ files-snapshots fs rows m h.1 v i

  insert_file-perm :
      (f : SnapshotFile) (gs : List SnapshotFile) → Perm (insert_file platform f gs) (f ∷ gs)
  unfolding insert_file
  insert_file-perm f [] = Perm.refl (f ∷ [])
  insert_file-perm f (g ∷ gs) =
      let later : Perm (g ∷ insert_file platform f gs) (f ∷ g ∷ gs) =
        Perm.trans (Perm.cons g (insert_file-perm f gs)) (Perm.swap f g gs) in
      elim (locale_compare f.path g.path)
        as (λ o.
          Perm
            (elim o [
              | Ordering.lt ↦ f ∷ g ∷ gs
              | Ordering.eq ↦ g ∷ insert_file platform f gs
              | Ordering.gt ↦ g ∷ insert_file platform f gs
            ])
            (f ∷ g ∷ gs)) [
              | Ordering.lt ↦ Perm.refl (f ∷ g ∷ gs)
              | Ordering.eq ↦ later
              | Ordering.gt ↦ later
            ]

  pub sort_files-perm :
      (done fs : List SnapshotFile) → Perm (sort_files platform done fs) (fs ++ done)
  unfolding sort_files
  sort_files-perm done [] = Perm.refl done
  sort_files-perm done (f ∷ fs) =
      Perm.trans (sort_files-perm (insert_file platform f done) fs)
        (Perm.trans (Perm.append_left fs (insert_file-perm f done)) (perm_middle fs done))
