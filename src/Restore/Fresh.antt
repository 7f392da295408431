-- ===== src/Restore/Fresh.antt =====
-- Ids stay below the next one.
use nexus_ide.Common.{ℕ, String, Option, none, some, str_eq, Bool-cases, inl, inr}
use nexus_ide.Snapshots.{SnapshotFile}
use nexus_ide.Restore.Rows.{AllBelow, AllBelow-insert, AllBelow-update, AllBelow-ensure}
use nexus_ide.Restore.{
  Tables, insert_row, split, ensure_directory_exists, dir_path, new_file, write_file,
}

module _ (ws : String) where
  pub ensure-AllBelow :
      (dir : String) (t : Tables)
      → AllBelow t.next_id t.rows
      → AllBelow
          (ensure_directory_exists ws dir t).0.next_id
          (ensure_directory_exists ws dir t).0.rows
  unfolding ensure_directory_exists
  ensure-AllBelow dir t v = elim (Bool-cases (str_eq dir "")) [
    | inl top ↦ rw top v
    | inr nested ↦ rw nested (AllBelow-ensure ws (split dir) none t v)
  ]

  pub write-AllBelow :
      (f : SnapshotFile) (o : Option ℕ) (t : Tables)
      → AllBelow t.next_id t.rows
      → AllBelow (write_file ws f o t).0.next_id (write_file ws f o t).0.rows
  unfolding write_file insert_row
  write-AllBelow f (some id) t v = AllBelow-update t.next_id id f.content t.rows v
  write-AllBelow f none t v =
      let dirs = ensure_directory_exists ws (dir_path f.path) t in
      AllBelow-insert dirs.0.next_id dirs.0.rows (new_file ws dirs.1 f)
        (ensure-AllBelow (dir_path f.path) t v)
