-- ===== src/Restore/Places.antt =====
-- Where the files that a restore writes stand in the tree of the workspace.
use nexus_ide.Common.Dict
use nexus_ide.Common.Dict.{Dict}
use nexus_ide.Common.{
  ℕ, String, ◌≡◌, refl, sym, ap, subst, ◌∙◌, append-nil, true, false, Option, none, some, List, [],
  ◌∷◌, ◌++◌, arith, str_eq, Bool-cases, inl, inr, eq_self,
}
use nexus_ide.Snapshots.{SnapshotFile}
use nexus_ide.Restore.Paths.{IsPath, parts-IsPath}
use nexus_ide.Restore.Growth.{
  Grows, Grows-refl, Grows-trans, resolve-append, append-Grows, update-Grows,
}
use nexus_ide.Restore.Directories.{resolve, ensured}
use nexus_ide.Restore.Fresh.{ensure-AllBelow, write-AllBelow}
use nexus_ide.Restore.Rows.{row_at, AllBelow, row_at-fresh}
use nexus_ide.Restore.{
  FileRow, file, Tables, insert_row, split, ensure_directory_exists, dir_path, language_or,
  new_file, write_file, delete_updates, restore_files,
}

-- The directory of a row: none at the top, else where the names of the path lead.
abbrev pub LeadsTo : String → String → Option ℕ → List FileRow → Type 0
LeadsTo ws dir parent rows =
    (str_eq dir "" ≡ true → parent ≡ none)
    × (str_eq dir "" ≡ false → resolve ws (split dir) none rows ≡ some parent)

-- A file of the workspace at the path of the snapshot's file, with its language.
abbrev pub StandsAt : String → SnapshotFile → ℕ → List FileRow → Type 0
StandsAt ws f i rows =
    (r : FileRow) × (row_at i rows ≡ some r)
    × (r.workspace_id ≡ ws)
    × (r.type ≡ file)
    × ((l : String) → f.language ≡ some l → str_eq l "" ≡ false → r.language ≡ some l)
    × ((dir : String) × IsPath dir r.name f.path × LeadsTo ws dir r.parent_id rows)

language_kept :
    (o : Option String) (l : String) → o ≡ some l → str_eq l "" ≡ false → language_or o ≡ some l
unfolding language_or
language_kept none l e full = cc
language_kept (some k) l e full = ground (arith, e, full)

module _ (ws : String) where
  ensure-LeadsTo :
      (dir : String) (t : Tables)
      → ((new : List FileRow) × ((ensure_directory_exists ws dir t).0.rows ≡ t.rows ++ new))
        × LeadsTo ws dir
            (ensure_directory_exists ws dir t).1
            (ensure_directory_exists ws dir t).0.rows
  unfolding ensure_directory_exists
  ensure-LeadsTo dir t = elim (Bool-cases (str_eq dir "")) [
    | inl top ↦ rw top (([], sym (append-nil t.rows)), ((λ h. refl), λ h. cc))
    | inr nested ↦
        let e = ensured ws (split dir) none t in rw nested ((e.0, e.1), ((λ h. cc), λ h. e.5))
  ]

  -- What is written for a path that has no file stands at that path.
  write-StandsAt :
      (f : SnapshotFile) (t : Tables)
      → AllBelow t.next_id t.rows
      → StandsAt ws f (write_file ws f none t).1 (write_file ws f none t).0.rows
  unfolding write_file insert_row
  write-StandsAt f t v =
      let dirs = ensure_directory_exists ws (dir_path f.path) t in
      let row : FileRow = record (new_file ws dirs.1 f) { id = dirs.0.next_id } in
      let (old, leads) = ensure-LeadsTo (dir_path f.path) t in
      (
        row,
        row_at-fresh dirs.0.next_id dirs.0.rows (row ∷ [])
              (ensure-AllBelow ws (dir_path f.path) t v)
            ∙ (unfold row_at in rw (eq_self dirs.0.next_id) refl),
        (unfold new_file in refl),
        (unfold new_file in refl),
        (λ l e full. unfold new_file in language_kept f.language l e full),
        (
          dir_path f.path,
          (unfold new_file in parts-IsPath f.path),
          (
            (λ top. unfold new_file in leads.0 top),
            λ nested.
                unfold new_file in
                resolve-append ws (split (dir_path f.path)) none dirs.1 dirs.0.rows (row ∷ [])
                  (leads.1 nested),
          ),
        ),
      )

  write-Grows :
      (f : SnapshotFile) (o : Option ℕ) (t : Tables) → Grows t.rows (write_file ws f o t).0.rows
  unfolding write_file insert_row
  write-Grows f (some id) t = update-Grows id f.content t.rows
  write-Grows f none t =
      let dirs = ensure_directory_exists ws (dir_path f.path) t in
      let ((new, e), leads) = ensure-LeadsTo (dir_path f.path) t in
      Grows-trans (subst (Grows t.rows) (sym e) (append-Grows t.rows new))
        (append-Grows dirs.0.rows _)

  StandsAt-Grows :
      (f : SnapshotFile) (i : ℕ) {rows rows' : List FileRow}
      → Grows rows rows'
      → StandsAt ws f i rows
      → StandsAt ws f i rows'
  StandsAt-Grows f i g (r, e, own, is_file, language, (dir, path, leads)) =
      let (q, e', (w, t, l, n, p)) = g.stays i r e in
      (
        q,
        e',
        w ∙ own,
        t ∙ is_file,
        (λ m has full. l ∙ language m has full),
        (
          dir,
          subst (λ name. IsPath dir name f.path) (sym n) path,
          (
            (λ top. p ∙ leads.0 top),
            λ nested. g.leads ws (split dir) none _ (leads.1 nested) ∙ ap some (sym p),
          ),
        ),
      )

  -- One restored file: the live file of its path, or a new one at that path.
  abbrev pub IsPlaced : Dict ℕ → SnapshotFile → ℕ → List FileRow → Type 0
  IsPlaced live f i rows =
      ((j : ℕ) → Dict.get f.path live ≡ some j → i ≡ j)
      × (Dict.get f.path live ≡ none → StandsAt ws f i rows)

  abbrev pub AllPlaced : Dict ℕ → List SnapshotFile → List (ℕ × String) → List FileRow → Type 0
  AllPlaced live [] [] rows = Unit
  AllPlaced live (f ∷ fs) ((i, c) ∷ l) rows =
      (c ≡ f.content) × IsPlaced live f i rows × AllPlaced live fs l rows
  AllPlaced live _ _ rows = ⊥

  write-IsPlaced :
      (live : Dict ℕ) (f : SnapshotFile) (o : Option ℕ) (t : Tables) {rows : List FileRow}
      → Dict.get f.path live ≡ o
      → AllBelow t.next_id t.rows
      → Grows (write_file ws f o t).0.rows rows
      → IsPlaced live f (write_file ws f o t).1 rows
  write-IsPlaced live f none t g v grows =
      ((λ j e. cc), λ e. StandsAt-Grows f _ grows (write-StandsAt f t v))
  write-IsPlaced live f (some id) t g v grows = ((λ j e. unfold write_file in cc), λ e. cc)

  restore-Grows :
      (live : Dict ℕ) (fs : List SnapshotFile) (t : Tables)
      → Grows t.rows (restore_files ws live fs t).0.rows
  unfolding restore_files
  restore-Grows live [] t = Grows-refl t.rows
  restore-Grows live (f ∷ fs) t =
      let first = write_file ws f (Dict.get f.path live) t in
      Grows-trans (write-Grows f (Dict.get f.path live) t) (
        restore-Grows live fs (record first.0 { updates = delete_updates first.1 first.0.updates }))

  pub restore-AllPlaced :
      (live : Dict ℕ) (fs : List SnapshotFile) (t : Tables)
      → AllBelow t.next_id t.rows
      → AllPlaced live fs (restore_files ws live fs t).1 (restore_files ws live fs t).0.rows
  unfolding restore_files
  restore-AllPlaced live [] t v = tt
  restore-AllPlaced live (f ∷ fs) t v =
      let first = write_file ws f (Dict.get f.path live) t in
      let now : Tables = record first.0 { updates = delete_updates first.1 first.0.updates } in
      (
        refl,
        write-IsPlaced live f (Dict.get f.path live) t refl v (restore-Grows live fs now),
        restore-AllPlaced live fs now (write-AllBelow ws f (Dict.get f.path live) t v),
      )
