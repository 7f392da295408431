-- ===== src/Restore/Directories.antt =====
-- The directories of a restored file.
use nexus_ide.Common.{
  ℕ, ◌≤◌, String, ◌≡◌, refl, sym, ap, ◌∙◌, true, false, ◌&&◌, Option, none, some, List, [], ◌∷◌,
  ◌++◌, append_assoc, append-nil, arith, str_eq, eq_refl, Bool-cases, inl, inr,
}
use nexus_ide.Restore.{
  FileRow, Tables, is_directory, same_parent, find_directory, insert_row, new_directory,
  found_or_inserted, ensure_parts, split, ensure_directory_exists,
}

-- What a chain of names leads to, without writing: none where a directory is missing.
unfoldable pub resolve : String → List String → Option ℕ → List FileRow → Option (Option ℕ)
unfolding find_directory
resolve ws [] parent rows = some parent
resolve ws (name ∷ names) parent rows = elim (find_directory ws name parent rows) [
  | none ↦ none
  | some id ↦ resolve ws names (some id) rows
]

abbrev pub AreDirectories : List FileRow → Type 0
AreDirectories [] = Unit
AreDirectories (r ∷ rs) = (is_directory r.type ≡ true) × AreDirectories rs

pub find_directory-append :
    (ws name : String) (parent : Option ℕ) (rows new : List FileRow) (id : ℕ)
    → find_directory ws name parent rows ≡ some id
    → find_directory ws name parent (rows ++ new) ≡ some id
unfolding find_directory
find_directory-append ws name parent [] new id e = cc
find_directory-append ws name parent (r ∷ rs) new id e =
    ground (arith, e, find_directory-append ws name parent rs new id)

same_parent_refl : (p : Option ℕ) → same_parent p p ≡ true
same_parent_refl none = refl
same_parent_refl (some p) = ground arith

find_directory-new :
    (ws name : String) (parent : Option ℕ) (rows : List FileRow) (id : ℕ)
    → find_directory ws name parent rows ≡ none
    → find_directory ws name parent (rows ++ record (new_directory ws parent name) { id = id } ∷ [])
      ≡ some id
unfolding find_directory
find_directory-new ws name parent [] id e =
    rw (eq_refl ws, eq_refl name, same_parent_refl parent) refl
find_directory-new ws name parent (r ∷ rs) id e =
    elim (Bool-cases (
      str_eq r.workspace_id ws
      && (str_eq r.name name && (same_parent r.parent_id parent && is_directory r.type)))) [
        | inl hit ↦ cc (rw hit at e)
        | inr miss ↦ rw miss (find_directory-new ws name parent rs id (rw miss at e))
      ]

-- The result is the rows that were there and new directories, and the chain leads to the answer in them.
abbrev pub IsEnsured : String → List String → Option ℕ → Tables → Tables × Option ℕ → Type 0
IsEnsured ws names parent t r =
    (new : List FileRow) × (r.0.rows ≡ t.rows ++ new)
    × AreDirectories new
    × (r.0.updates ≡ t.updates)
    × (t.next_id ≤ r.0.next_id)
    × (resolve ws names parent r.0.rows ≡ some r.1)

resolve-cons :
    (ws name : String) (names : List String) (parent : Option ℕ) (id : ℕ) (rows : List FileRow)
    {r : Option (Option ℕ)}
    → find_directory ws name parent rows ≡ some id
    → resolve ws names (some id) rows ≡ r
    → resolve ws (name ∷ names) parent rows ≡ r
unfolding resolve
resolve-cons ws name names parent id rows f e = rw (f, resolve) e

module _ (ws : String) where
  after_found :
      (name : String) (names : List String) (parent : Option ℕ) (id : ℕ) (t : Tables)
      (r : Tables × Option ℕ)
      → find_directory ws name parent t.rows ≡ some id
      → IsEnsured ws names (some id) t r
      → IsEnsured ws (name ∷ names) parent t r
  after_found name names parent id t r f (new, rows, dirs, updates, ids, leads) = (
    new,
    rows,
    dirs,
    updates,
    ids,
    resolve-cons ws name names parent id r.0.rows
        (ap (find_directory ws name parent) rows
          ∙ find_directory-append ws name parent t.rows new id f)
        leads,
  )

  after_inserted :
      (name : String) (names : List String) (parent : Option ℕ) (t : Tables) (r : Tables × Option ℕ)
      → find_directory ws name parent t.rows ≡ none
      → IsEnsured ws names (some t.next_id) (insert_row (new_directory ws parent name) t) r
      → IsEnsured ws (name ∷ names) parent t r
  unfolding insert_row
  after_inserted name names parent t r f (new, rows, dirs, updates, ids, leads) =
      let row : FileRow = record (new_directory ws parent name) { id = t.next_id } in
      (
        row ∷ new,
        rows ∙ append_assoc t.rows (row ∷ []) new,
        (refl, dirs),
        updates,
        omega arith,
        resolve-cons ws name names parent t.next_id r.0.rows
            (ap (find_directory ws name parent) rows
              ∙ find_directory-append ws name parent (t.rows ++ row ∷ []) new t.next_id
                  (find_directory-new ws name parent t.rows t.next_id f))
            leads,
      )

  pub ensured :
      (names : List String) (parent : Option ℕ) (t : Tables)
      → IsEnsured ws names parent t (ensure_parts ws names parent t)
  unfolding ensure_parts resolve
  ensured [] parent t = ([], sym (append-nil t.rows), tt, refl, omega arith, refl)
  ensured (name ∷ names) parent t =
      go (find_directory ws name parent t.rows) refl (λ id. ensured names (some id) t)
        (ensured names (some t.next_id) (insert_row (new_directory ws parent name) t))
    where
      go :
          (o : Option ℕ)
          → find_directory ws name parent t.rows ≡ o
          → ((id : ℕ) → IsEnsured ws names (some id) t (ensure_parts ws names (some id) t))
          → IsEnsured ws names
              (some t.next_id)
              (insert_row (new_directory ws parent name) t)
              (ensure_parts ws names (some t.next_id) (insert_row (new_directory ws parent name) t))
          → IsEnsured ws (name ∷ names) parent t (
              ensure_parts ws names
                (some (found_or_inserted ws parent name o t).1)
                (found_or_inserted ws parent name o t).0)
      go none e old new = after_inserted name names parent t _ e new
      go (some id) e old new = after_found name names parent id t _ e (old id)

  -- Where the chain is there, nothing is written.
  ensure-resolved :
      (names : List String) (parent : Option ℕ) (t : Tables) {p : Option ℕ}
      → resolve ws names parent t.rows ≡ some p
      → ensure_parts ws names parent t ≡ (t, p)
  unfolding ensure_parts resolve found_or_inserted
  ensure-resolved [] parent t {p} e = let same : parent ≡ p = cc in ap (λ q. (t, q)) same
  ensure-resolved (name ∷ names) parent t {p} e =
      go (find_directory ws name parent t.rows) (λ id. ensure-resolved names (some id) t) e
    where
      go :
          (o : Option ℕ)
          → ((id : ℕ)
              → resolve ws names (some id) t.rows ≡ some p
              → ensure_parts ws names (some id) t ≡ (t, p))
          → elim o [ none ↦ none | some id ↦ resolve ws names (some id) t.rows ] ≡ some p
          → ensure_parts ws names
              (some (found_or_inserted ws parent name o t).1)
              (found_or_inserted ws parent name o t).0
            ≡ (t, p)
      go none rec h = cc
      go (some id) rec h = rec id h

-- `ensureDirectoryExists` adds directories only, behind the rows that were there, and leaves the updates.
-- Afterwards the names of the path lead to its answer, and a second call has the same answer and writes
-- nothing.
pub ensure_twice :
    (ws dir : String) (t : Tables)
    → str_eq dir "" ≡ false
    → IsEnsured ws (split dir) none t (ensure_directory_exists ws dir t)
      × (ensure_directory_exists ws dir (ensure_directory_exists ws dir t).0
          ≡ ensure_directory_exists ws dir t)
unfolding ensure_directory_exists
ensure_twice ws dir t full = rw full (
  ensured ws (split dir) none t,
  ensure-resolved ws (split dir) none (ensure_parts ws (split dir) none t).0
      (ensured ws (split dir) none t).5,
)
