-- ===== src/Snapshots/RoundTrip.antt =====
-- What is read back of a checkpoint.
use mathlib.Core.List.Perm
use mathlib.Core.List.{Perm}
use nexus_ide.Common.Dict
use nexus_ide.Common.Dict.{Dict}
use nexus_ide.Common.{
  ℕ, zero, suc, String, ◌≡◌, refl, subst, ◌∙◌, false, Option, some, List, [], ◌∷◌, append-nil, take,
  ap, eq_refl, map, arith, Bool-cases, eq_self, inl, inr, str_eq, eq_iff, filter,
}
use nexus_ide.Merkle.{
  Platform, SourceFile, TreeRecord, TreeEntry, MerkleDag, build_merkle_tree_inline,
  execute_build_merkle_tree, hash_tree_entries, canonical, root_entries, collect_blobs,
}
use nexus_ide.Merkle.Dedup.{build-offload}
use nexus_ide.Merkle.Rows.{canonical-perm, collect-HasRows, collect-AreHashed}
use nexus_ide.Snapshots.{
  LiveFile, SnapshotFile, Commit, Store, source_of, insert_blobs, insert_trees, keep_newest,
  max_snapshots, find_commit, file_of, sort_files, files_of_commit, files_of_tree,
  create_checkpoint, get_snapshot_files,
}
use nexus_ide.Snapshots.Stored.{
  PrintsApart, IsSound, TreesAddressed, insert_blobs-IsAddressed, get-insert_trees, snapshot_of,
  files-snapshots, sort_files-perm,
}

abbrev pub of_workspace : String → List Commit → List Commit
of_workspace v = filter (λ c. str_eq c.workspace_id v)

keep_newest-others :
    (ws v : String) (n : ℕ) (cs : List Commit)
    → str_eq ws v ≡ false
    → of_workspace v (keep_newest ws n cs) ≡ of_workspace v cs
unfolding keep_newest
keep_newest-others ws v n [] d = refl
keep_newest-others ws v zero (c ∷ cs) d = ground (
  arith,
  eq_iff c.workspace_id ws,
  eq_iff c.workspace_id v,
  eq_iff ws v,
  keep_newest-others ws v 0 cs d,
)
keep_newest-others ws v (suc n) (c ∷ cs) d =
    ground (arith, keep_newest-others ws v n cs d, keep_newest-others ws v (suc n) cs d)

keep_newest-take :
    (ws : String) (n : ℕ) (cs : List Commit)
    → of_workspace ws (keep_newest ws n cs) ≡ take n (of_workspace ws cs)
unfolding keep_newest
keep_newest-take ws zero [] = refl
keep_newest-take ws (suc n) [] = refl
keep_newest-take ws zero (c ∷ cs) = elim (Bool-cases (str_eq c.workspace_id ws)) [
  | inl own ↦ rw own (keep_newest-take ws 0 cs)
  | inr other ↦ rw other (rw other (keep_newest-take ws 0 cs))
]
keep_newest-take ws (suc n) (c ∷ cs) = elim (Bool-cases (str_eq c.workspace_id ws)) [
  | inl own ↦ rw own (ap (λ l. c ∷ l) (keep_newest-take ws n cs))
  | inr other ↦ rw other (keep_newest-take ws (suc n) cs)
]

newest_first :
    (other : String) (c : Commit) (cs : List Commit)
    → str_eq c.workspace_id other ≡ false
    → (of_workspace c.workspace_id (keep_newest c.workspace_id max_snapshots (c ∷ cs))
        ≡ take 10 (c ∷ of_workspace c.workspace_id cs))
      × (find_commit c.id (keep_newest c.workspace_id max_snapshots (c ∷ cs)) ≡ some c)
      × (of_workspace other (keep_newest c.workspace_id max_snapshots (c ∷ cs))
          ≡ of_workspace other cs)
newest_first other c cs d = (
  keep_newest-take c.workspace_id max_snapshots (c ∷ cs) ∙ rw (eq_refl c.workspace_id) refl,
  unfold keep_newest in unfold find_commit in rw (eq_self c.id) refl,
  keep_newest-others c.workspace_id other max_snapshots (c ∷ cs) d ∙ rw d refl,
)

module _ (platform : Platform)
    (free : (s t : String) → platform.sha256 s ≡ platform.sha256 t → s ≡ t) where
  read_tree :
      (files : List SourceFile) (s : Store) (legacy : List SnapshotFile)
      → IsSound platform s
      → PrintsApart platform (canonical platform (root_entries platform files)) s.trees
      → Perm
          (files_of_tree platform legacy
            (insert_blobs platform (Dict.values (collect_blobs platform [] files)) s.blobs)
            (Dict.get (hash_tree_entries platform (root_entries platform files)).hash (
              insert_trees
                (hash_tree_entries platform (root_entries platform files) ∷ [])
                s.trees)))
          (map (snapshot_of platform) files)
  unfolding files_of_tree hash_tree_entries canonical
  read_tree files s legacy v apart =
      let rows = Dict.values (collect_blobs platform [] files) in
      let tree : TreeRecord = hash_tree_entries platform (root_entries platform files) in
      let tables = insert_blobs platform rows s.blobs in
      let sound =
        insert_blobs-IsAddressed platform rows s.blobs (collect-AreHashed platform files [] tt)
          v.blobs in
      let shown : Perm
          (map (file_of platform tables) (canonical platform (root_entries platform files)))
          (map (snapshot_of platform) files) =
        subst
          (Perm (map (file_of platform tables) (canonical platform (root_entries platform files))))
          (files-snapshots platform free files rows s.blobs (collect-HasRows platform files [] tt)
            sound)
          (Perm.map (file_of platform tables) (canonical-perm platform files)) in
      rw (get-insert_trees platform free tree s.trees v.trees apart refl) (
        Perm.trans
          (subst
            (Perm (
              sort_files platform []
                (map (file_of platform tables) (canonical platform (root_entries platform files)))))
            (append-nil
              (map (file_of platform tables) (canonical platform (root_entries platform files))))
            (sort_files-perm platform []
              (map (file_of platform tables) (canonical platform (root_entries platform files)))))
          shown)

  -- The files that are read back of a new checkpoint are the live files, each once, with the text of
  -- their Yjs state where there is one and of the column where not: whatever other checkpoints share of
  -- the rows, and whether the tree was hashed by a worker. A worker that answers is to answer rightly,
  -- rows to stand under their hashes, and neither contents nor printed trees to collide.
  pub get-create_checkpoint :
      (ws label : String) (live : List LiveFile) (answer : Option (Option MerkleDag)) (s : Store)
      (legacy : List SnapshotFile)
      → IsSound platform s
      → PrintsApart platform
          (canonical platform (root_entries platform (map source_of live)))
          s.trees
      → ((dag : MerkleDag)
          → answer ≡ some (some dag)
          → dag ≡ execute_build_merkle_tree platform (map source_of live))
      → Perm
          (get_snapshot_files platform legacy
            (create_checkpoint platform ws label live answer s).1.id
            (create_checkpoint platform ws label live answer s).0)
          (map (snapshot_of platform) (map source_of live))
  unfolding create_checkpoint get_snapshot_files find_commit keep_newest files_of_commit
  get-create_checkpoint ws label live answer s legacy v apart honest =
      rw (build-offload platform (map source_of live) answer honest) (
        rw (eq_self s.next_id)
          (unfold build_merkle_tree_inline in read_tree (map source_of live) s legacy v apart))

module _ (platform : Platform) where
  put-TreesAddressed :
      (k : String) (es : List TreeEntry) (m : Dict (List TreeEntry))
      → k ≡ platform.sha256 (platform.stringify es)
      → TreesAddressed platform m
      → TreesAddressed platform (Dict.put k es m)
  unfolding Dict.put
  put-TreesAddressed k es [] e v = (e, tt)
  put-TreesAddressed k es ((j, fs) ∷ m) e v = elim (Bool-cases (str_eq j k)) [
    | inl same ↦ rw same ((eq_iff j k).0 same ∙ e, v.1)
    | inr other ↦ rw other (v.0, put-TreesAddressed k es m e v.1)
  ]

  insert_trees-TreesAddressed :
      (t : TreeRecord) (m : Dict (List TreeEntry))
      → t.hash ≡ platform.sha256 (platform.stringify t.entries)
      → TreesAddressed platform m
      → TreesAddressed platform (insert_trees (t ∷ []) m)
  unfolding insert_trees
  insert_trees-TreesAddressed t m e v = elim (Bool-cases (Dict.has t.hash m)) [
    | inl old ↦ rw old v
    | inr new ↦ rw new (put-TreesAddressed t.hash t.entries m e v)
  ]

  -- After a checkpoint the commits of the workspace are the first ten of the new one and, behind it, those
  -- that were there, newest first; the new commit is found by its id; the commits of another workspace are
  -- what they were; and every row still stands under the hash of what it holds.
  pub create_checkpoint-capped :
      (ws label other : String) (live : List LiveFile) (answer : Option (Option MerkleDag))
      (s : Store)
      → IsSound platform s
      → ((dag : MerkleDag)
          → answer ≡ some (some dag)
          → dag ≡ execute_build_merkle_tree platform (map source_of live))
      → str_eq ws other ≡ false
      → (of_workspace ws (create_checkpoint platform ws label live answer s).0.commits
          ≡ take 10
              ((create_checkpoint platform ws label live answer s).1 ∷ of_workspace ws s.commits))
        × (find_commit
              (create_checkpoint platform ws label live answer s).1.id
              (create_checkpoint platform ws label live answer s).0.commits
            ≡ some (create_checkpoint platform ws label live answer s).1)
        × (of_workspace other (create_checkpoint platform ws label live answer s).0.commits
            ≡ of_workspace other s.commits)
        × IsSound platform (create_checkpoint platform ws label live answer s).0
  unfolding create_checkpoint build_merkle_tree_inline hash_tree_entries
  create_checkpoint-capped ws label other live answer s v honest d =
      let files = map source_of live in
      let commit : Commit = record {
        id = s.next_id;
        workspace_id = ws;
        root_tree_hash = (build_merkle_tree_inline platform files).root_tree_hash;
        label = label;
      } in
      let q = newest_first other commit s.commits d in
      rw (build-offload platform files answer honest) (
        q.0,
        q.1,
        q.2,
        record {
          blobs =
              insert_blobs-IsAddressed platform (Dict.values (collect_blobs platform [] files))
                s.blobs (collect-AreHashed platform files [] tt) v.blobs;
          trees =
              insert_trees-TreesAddressed (hash_tree_entries platform (root_entries platform files))
                s.trees refl v.trees;
        },
      )
