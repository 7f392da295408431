-- ===== src/CasCollector/Safety.antt =====
-- What the collector keeps and what it removes.
use nexus_ide.Common.{
  String, ◌≡◌, refl, sym, ap, ◌∙◌, Bool, true, false, not, List, [], ◌∷◌, map, filter, arith,
  Bool-cases, inl, inr, str_eq, eq_iff, ◌&&◌,
}
use nexus_ide.CasCollector.{
  TreeRow, BlobRow, Tables, elem, is_root, is_referenced, tree_hashes, blob_hashes,
  unreferenced_trees, unreferenced_blobs, purge_trees, purge_blobs, run_garbage_collection,
}

-- Whether a hash has a row.
unfoldable pub has_tree : String → Tables → Bool
unfolding tree_hashes
has_tree h db = elem h (tree_hashes db.git_trees)

unfoldable pub has_blob : String → Tables → Bool
unfolding blob_hashes
has_blob h db = elem h (blob_hashes db.git_blobs)

-- A hash is left over by a filter on hashes exactly if it was there and passes the test.
elem-filter {ℓ} :
    {A : Type ℓ} (key : A → String) (drop_it : String → Bool) (h : String) (xs : List A)
    → elem h (map key (filter (λ x. not (drop_it (key x))) xs))
      ≡ (elem h (map key xs) && not (drop_it h))
unfolding elem
elem-filter key drop_it h [] = refl
elem-filter key drop_it h (x ∷ xs) = elim (Bool-cases (str_eq (key x) h)) [
  | inl same ↦
      ground (arith, same, ap drop_it ((eq_iff (key x) h).0 same), elem-filter key drop_it h xs)
  | inr other ↦ ground (arith, other, elem-filter key drop_it h xs)
]

absorb : (a b : Bool) → (a && not (a && not b)) ≡ (a && b)
absorb a b = ground arith

has_tree-purge :
    (db : Tables) (h : String)
    → has_tree h (purge_trees false db).0 ≡ (has_tree h db && is_root db h)
unfolding has_tree purge_trees
has_tree-purge db h =
    let listed : String → Bool = λ t. elem t (tree_hashes (unreferenced_trees db)) in
    let left : elem h
          (map (λ (t : TreeRow). t.hash) (filter (λ t. not (listed t.hash)) db.git_trees))
        ≡ (elem h (map (λ (t : TreeRow). t.hash) db.git_trees) && not (listed h)) =
      elem-filter (λ (t : TreeRow). t.hash) listed h db.git_trees in
    let found : listed h
        ≡ (elem h (map (λ (t : TreeRow). t.hash) db.git_trees) && not (is_root db h)) =
      elem-filter (λ (t : TreeRow). t.hash) (is_root db) h db.git_trees in
    left
    ∙ ap (λ b. elem h (map (λ (t : TreeRow). t.hash) db.git_trees) && not b) found
    ∙ absorb (elem h (map (λ (t : TreeRow). t.hash) db.git_trees)) (is_root db h)

has_blob-purge :
    (db : Tables) (between : Tables → Tables) (h : String)
    → has_blob h (purge_blobs false between db).0
      ≡ (has_blob h (between db) && not (has_blob h db && not (is_referenced db h)))
unfolding has_blob purge_blobs
has_blob-purge db between h =
    let listed : String → Bool = λ t. elem t (blob_hashes (unreferenced_blobs db)) in
    let left : elem h
          (map (λ (t : BlobRow). t.hash) (filter (λ t. not (listed t.hash)) (between db).git_blobs))
        ≡ (elem h (map (λ (t : BlobRow). t.hash) (between db).git_blobs) && not (listed h)) =
      elem-filter (λ (t : BlobRow). t.hash) listed h (between db).git_blobs in
    let found : listed h
        ≡ (elem h (map (λ (t : BlobRow). t.hash) db.git_blobs) && not (is_referenced db h)) =
      elem-filter (λ (t : BlobRow). t.hash) (is_referenced db) h db.git_blobs in
    left ∙ ap (λ b. elem h (map (λ (t : BlobRow). t.hash) (between db).git_blobs) && not b) found

abbrev pub nothing : Tables → Tables
nothing db = db

-- The two parts of a run, kept shut.
tables_after :
    (tr br : Bool) (between : Tables → Tables) (db : Tables)
    → (run_garbage_collection tr br between db).0 ≡ (purge_blobs br between (purge_trees tr db).0).0
unfolding run_garbage_collection
tables_after tr br between db = refl

is_referenced-purge_blobs :
    (br : Bool) (between : Tables → Tables) (db : Tables) (h : String)
    → is_referenced (purge_blobs br between db).0 h ≡ is_referenced (between db) h
unfolding purge_blobs is_referenced
is_referenced-purge_blobs true between db h = refl
is_referenced-purge_blobs false between db h = refl

has_tree-purge_blobs :
    (br : Bool) (between : Tables → Tables) (db : Tables) (h : String)
    → has_tree h (purge_blobs br between db).0 ≡ has_tree h (between db)
unfolding purge_blobs has_tree
has_tree-purge_blobs true between db h = refl
has_tree-purge_blobs false between db h = refl

has_blob-purge_trees :
    (tr : Bool) (db : Tables) (h : String) → has_blob h (purge_trees tr db).0 ≡ has_blob h db
unfolding purge_trees has_blob
has_blob-purge_trees true db h = refl
has_blob-purge_trees false db h = refl

has_blob-rejected :
    (between : Tables → Tables) (db : Tables) (h : String)
    → has_blob h (purge_blobs true between db).0 ≡ has_blob h (between db)
unfolding purge_blobs has_blob
has_blob-rejected between db h = refl

-- A run without failures, with nothing changed by others meanwhile: a tree is left exactly if it was
-- there and a commit has it for its root, and a blob exactly if it was there and a tree that is left
-- refers to it.
pub collected :
    (db : Tables) (h : String)
    → (has_tree h (run_garbage_collection false false nothing db).0
        ≡ (has_tree h db && is_root db h))
      × (has_blob h (run_garbage_collection false false nothing db).0
          ≡ (has_blob h db && is_referenced (run_garbage_collection false false nothing db).0 h))
collected db h =
    let mid : Tables = (purge_trees false db).0 in
    rw (tables_after false false nothing db) (
      has_tree-purge_blobs false nothing mid h ∙ has_tree-purge db h,
      rw (is_referenced-purge_blobs false nothing mid h) (
          has_blob-purge mid nothing h
          ∙ absorb (has_blob h mid) (is_referenced mid h)
          ∙ ap (λ b. b && is_referenced mid h) (has_blob-purge_trees false db h)),
    )

-- Whichever queries fail, with nothing changed by others meanwhile a blob that a tree left over refers
-- to is kept.
pub referenced_kept :
    (trees_rejected blobs_rejected : Bool) (db : Tables) (h : String)
    → has_blob h db ≡ true
    → is_referenced (run_garbage_collection trees_rejected blobs_rejected nothing db).0 h ≡ true
    → has_blob h (run_garbage_collection trees_rejected blobs_rejected nothing db).0 ≡ true
referenced_kept tr true db h there ref =
    rw (tables_after tr true nothing db)
      (has_blob-rejected nothing (purge_trees tr db).0 h ∙ has_blob-purge_trees tr db h ∙ there)
referenced_kept tr false db h there ref =
    let mid : Tables = (purge_trees tr db).0 in
    let used : is_referenced mid h ≡ true =
      sym (is_referenced-purge_blobs false nothing mid h)
      ∙ (rw (tables_after tr false nothing db) at ref) in
    rw (tables_after tr false nothing db)
      (has_blob-purge mid nothing h ∙ ground (arith, used, has_blob-purge_trees tr db h, there))

-- A blob that is unreferenced when the collector selects, and that another session's tree refers to
-- before it deletes, is deleted all the same: the tree is left with a missing blob.
pub late_reference_dangles :
    (db : Tables) (between : Tables → Tables) (h : String)
    → has_blob h (purge_trees false db).0 ≡ true
    → is_referenced (purge_trees false db).0 h ≡ false
    → is_referenced (between (purge_trees false db).0) h ≡ true
    → (is_referenced (run_garbage_collection false false between db).0 h ≡ true)
      × (has_blob h (run_garbage_collection false false between db).0 ≡ false)
late_reference_dangles db between h there early late =
    let mid : Tables = (purge_trees false db).0 in
    rw (tables_after false false between db) (
      is_referenced-purge_blobs false between mid h ∙ late,
      has_blob-purge mid between h ∙ ground (arith, there, early),
    )
