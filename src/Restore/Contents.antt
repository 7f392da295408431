-- ===== src/Restore/Contents.antt =====
-- What the files hold after a restore.
use nexus_ide.Common.Dict
use nexus_ide.Common.Dict.{Dict}
use nexus_ide.Common.{
  ℕ, String, ◌≡◌, refl, sym, ap, ◌∙◌, false, Option, none, some, List, [], ◌∷◌, arith, str_eq, ◌==◌,
  Bool-cases, eq_self, inl, inr,
}
use nexus_ide.Snapshots.{SnapshotFile}
use nexus_ide.Restore.Directories.{ensured}
use nexus_ide.Restore.Fresh.{ensure-AllBelow, write-AllBelow}
use nexus_ide.Restore.Places.{AllPlaced, restore-AllPlaced}
use nexus_ide.Restore.{
  FileRow, Tables, insert_row, split, ensure_directory_exists, dir_path, delete_updates, new_file,
  write_file, restore_files,
}
use nexus_ide.Restore.Rows.{
  row_at, AllBelow, last_for, Holds, HasLive, row_at-append, row_at-fresh, row_at-update, row_at-id,
  last_none, last_some,
}

module _ (ws : String) where
  ensure_keeps :
      (dir : String) (t : Tables) (i : ℕ) (r : FileRow)
      → row_at i t.rows ≡ some r
      → row_at i (ensure_directory_exists ws dir t).0.rows ≡ some r
  unfolding ensure_directory_exists
  ensure_keeps dir t i r e = elim (Bool-cases (str_eq dir "")) [
    | inl top ↦ rw top e
    | inr nested ↦
        let dirs = ensured ws (split dir) none t in
        rw nested (ap (row_at i) dirs.1 ∙ row_at-append i t.rows dirs.0 r e)
  ]

  write-Holds :
      (f : SnapshotFile) (o : Option ℕ) (t : Tables)
      → AllBelow t.next_id t.rows
      → ((id : ℕ) → o ≡ some id → (r : FileRow) × (row_at id t.rows ≡ some r))
      → Holds (write_file ws f o t).1 f.content (write_file ws f o t).0.rows
  unfolding write_file insert_row
  write-Holds f (some id) t v live =
      let (r, here) = live id refl in
      (
        record r { content = f.content; yjs_text = f.content },
        row_at-update id id f.content t.rows r here ∙ rw (row_at-id id t.rows r here) refl,
        refl,
        refl,
      )
  write-Holds f none t v live =
      let dirs = ensure_directory_exists ws (dir_path f.path) t in
      let row : FileRow = record (new_file ws dirs.1 f) { id = dirs.0.next_id } in
      (
        row,
        row_at-fresh dirs.0.next_id dirs.0.rows (row ∷ [])
              (ensure-AllBelow ws (dir_path f.path) t v)
            ∙ (unfold row_at in rw (eq_self dirs.0.next_id) refl),
        (unfold new_file in refl),
        (unfold new_file in refl),
      )

  write_keeps :
      (f : SnapshotFile) (o : Option ℕ) (t : Tables) (i : ℕ) (r : FileRow)
      → row_at i t.rows ≡ some r
      → ((write_file ws f o t).1 == i) ≡ false
      → row_at i (write_file ws f o t).0.rows ≡ some r
  unfolding write_file insert_row
  write_keeps f (some id) t i r e other =
      row_at-update i id f.content t.rows r e
      ∙ rw (let miss : (r.id == id) ≡ false = ground (arith, other, row_at-id i t.rows r e) in miss)
          refl
  write_keeps f none t i r e other =
      let dirs = ensure_directory_exists ws (dir_path f.path) t in
      row_at-append i dirs.0.rows _ r (ensure_keeps (dir_path f.path) t i r e)

  write-HasLive :
      (f : SnapshotFile) (o : Option ℕ) (live : Dict ℕ) (t : Tables)
      → HasLive live t.rows
      → ((id : ℕ) → o ≡ some id → (r : FileRow) × (row_at id t.rows ≡ some r))
      → AllBelow t.next_id t.rows
      → HasLive live (write_file ws f o t).0.rows
  write-HasLive f o live t has found v path id g =
      let (r, here) = has path id g in
      elim (Bool-cases ((write_file ws f o t).1 == id)) [
        | inr other ↦ (r, write_keeps f o t id r here other)
        | inl mine ↦
            let held = write-Holds f o t v found in
            let same : (write_file ws f o t).1 ≡ id = ground (arith, mine) in
            (held.0, ap (λ k. row_at k (write_file ws f o t).0.rows) (sym same) ∙ held.1)
      ]

  module _ (live : Dict ℕ) where
    -- A file that is in no path of the snapshot keeps its row: a restore takes no file away.
    pub restore_keeps :
        (fs : List SnapshotFile) (t : Tables) (i : ℕ) (r : FileRow)
        → row_at i t.rows ≡ some r
        → last_for i (restore_files ws live fs t).1 ≡ none
        → row_at i (restore_files ws live fs t).0.rows ≡ some r
    unfolding restore_files
    restore_keeps [] t i r e absent = e
    restore_keeps (f ∷ fs) t i r e absent =
        let first = write_file ws f (Dict.get f.path live) t in
        let now : Tables = record first.0 { updates = delete_updates first.1 first.0.updates } in
        let none_left = last_none i first.1 f.content (restore_files ws live fs now).1 absent in
        restore_keeps fs now i r (write_keeps f (Dict.get f.path live) t i r e none_left.1)
          none_left.0

    restore-Holds :
        (fs : List SnapshotFile) (t : Tables) (i : ℕ) {c : String}
        → AllBelow t.next_id t.rows
        → HasLive live t.rows
        → last_for i (restore_files ws live fs t).1 ≡ some c
        → Holds i c (restore_files ws live fs t).0.rows
    unfolding restore_files
    restore-Holds [] t i v has e = cc
    restore-Holds (f ∷ fs) t i {c} v has e =
        let first = write_file ws f (Dict.get f.path live) t in
        let now : Tables = record first.0 { updates = delete_updates first.1 first.0.updates } in
        let found = has f.path in
        let below = write-AllBelow ws f (Dict.get f.path live) t v in
        let held = write-Holds f (Dict.get f.path live) t v found in
        elim (last_some i first.1 f.content (restore_files ws live fs now).1 e) [
          | inl later ↦
              restore-Holds fs now i below
                (write-HasLive f (Dict.get f.path live) live t has found v) later
          | inr (none_later, mine, same) ↦
              let here : first.1 ≡ i = ground (arith, mine) in
              (
                held.0,
                restore_keeps fs now i held.0 (ap (λ k. row_at k first.0.rows) (sym here) ∙ held.1)
                    none_later,
                held.2 ∙ same,
                held.3 ∙ same,
              )
        ]

    -- Of a table with fresh ids below the next one, and a row for every live path: the list of what was
    -- restored has, for each file of the snapshot in order, its content and an id. That is the id of the
    -- live file of its path, or, where there is none, that of a file of the workspace that stands at that
    -- path at the end: its name is what follows the last slash, its directories lead there by their names,
    -- and its language is the one of the snapshot, if that has one. Each file in the list holds at the
    -- end the content that was listed last for it, in the column and in the Yjs state.
    pub restore_complete :
        (fs : List SnapshotFile) (t : Tables)
        → AllBelow t.next_id t.rows
        → HasLive live t.rows
        → AllPlaced ws live fs (restore_files ws live fs t).1 (restore_files ws live fs t).0.rows
          × ((i : ℕ) (c : String)
              → last_for i (restore_files ws live fs t).1 ≡ some c
              → Holds i c (restore_files ws live fs t).0.rows)
    restore_complete fs t v has =
        (restore-AllPlaced ws live fs t v, λ i c e. restore-Holds fs t i v has e)
