-- ===== src/Restore/Growth.antt =====
-- What a restore leaves of the rows and the directories that were there.
use nexus_ide.Common.{
  ℕ, String, ◌≡◌, refl, ◌∙◌, Option, none, some, List, [], ◌∷◌, ◌++◌, ◌==◌, Bool-cases, inl, inr,
}
use nexus_ide.Restore.Directories.{resolve, find_directory-append}
use nexus_ide.Restore.Rows.{row_at, row_at-append, row_at-update}
use nexus_ide.Restore.{FileRow, find_directory, update_row}

-- Rows stay where they are, and paths of directories lead where they did.
abbrev pub IsSamePlace : FileRow → FileRow → Type 0
IsSamePlace r q =
    (q.workspace_id ≡ r.workspace_id)
    × (q.type ≡ r.type)
    × (q.language ≡ r.language)
    × (q.name ≡ r.name)
    × (q.parent_id ≡ r.parent_id)

pub record Grows (rows rows' : List FileRow) : Type 0 where
  pub stays :
      (i : ℕ) (r : FileRow)
      → row_at i rows ≡ some r
      → (q : FileRow) × (row_at i rows' ≡ some q) × IsSamePlace r q
  pub leads :
      (ws : String) (names : List String) (parent p : Option ℕ)
      → resolve ws names parent rows ≡ some p
      → resolve ws names parent rows' ≡ some p

pub Grows-refl : (rows : List FileRow) → Grows rows rows
Grows-refl rows = record {
  stays = λ i r e. (r, e, (refl, refl, refl, refl, refl));
  leads = λ ws names parent p e. e;
}

pub Grows-trans : {a b c : List FileRow} → Grows a b → Grows b c → Grows a c
Grows-trans g h = record {
  stays = λ i r e.
      let (q, eq, (w, t, l, n, p)) = g.stays i r e in
      let (q', eq', (w', t', l', n', p')) = h.stays i q eq in
      (q', eq', (w' ∙ w, t' ∙ t, l' ∙ l, n' ∙ n, p' ∙ p));
  leads = λ ws names parent p e. h.leads ws names parent p (g.leads ws names parent p e);
}

pub resolve-append :
    (ws : String) (names : List String) (parent p : Option ℕ) (rows new : List FileRow)
    → resolve ws names parent rows ≡ some p
    → resolve ws names parent (rows ++ new) ≡ some p
unfolding resolve
resolve-append ws [] parent p rows new e = e
resolve-append ws (name ∷ names) parent p rows new e =
    go (find_directory ws name parent rows) refl
      (λ id. resolve-append ws names (some id) p rows new) e
  where
    go :
        (o : Option ℕ)
        → find_directory ws name parent rows ≡ o
        → ((id : ℕ)
            → resolve ws names (some id) rows ≡ some p
            → resolve ws names (some id) (rows ++ new) ≡ some p)
        → elim o [ none ↦ none | some id ↦ resolve ws names (some id) rows ] ≡ some p
        → elim (find_directory ws name parent (rows ++ new)) [
          | none ↦ none
          | some id ↦ resolve ws names (some id) (rows ++ new)
        ]
          ≡ some p
    go none f rec h = cc
    go (some id) f rec h = rw (find_directory-append ws name parent rows new id f) (rec id h)

pub append-Grows : (rows new : List FileRow) → Grows rows (rows ++ new)
append-Grows rows new = record {
  stays = λ i r e. (r, row_at-append i rows new r e, (refl, refl, refl, refl, refl));
  leads = λ ws names parent p e. resolve-append ws names parent p rows new e;
}

find_directory-update :
    (ws name : String) (parent : Option ℕ) (id : ℕ) (c : String) (rows : List FileRow)
    → find_directory ws name parent (update_row id c rows) ≡ find_directory ws name parent rows
unfolding find_directory update_row
find_directory-update ws name parent id c [] = refl
find_directory-update ws name parent id c (r ∷ rows) = elim (Bool-cases (r.id == id)) [
  | inl hit ↦ rw hit (rw (find_directory-update ws name parent id c rows) refl)
  | inr miss ↦ rw miss (rw (find_directory-update ws name parent id c rows) refl)
]

resolve-update :
    (ws : String) (names : List String) (parent : Option ℕ) (id : ℕ) (c : String)
    (rows : List FileRow)
    → resolve ws names parent (update_row id c rows) ≡ resolve ws names parent rows
unfolding resolve
resolve-update ws [] parent id c rows = refl
resolve-update ws (name ∷ names) parent id c rows =
    rw (find_directory-update ws name parent id c rows, resolve)
      (go (find_directory ws name parent rows) λ i. resolve-update ws names (some i) id c rows)
  where
    go :
        (o : Option ℕ)
        → ((i : ℕ)
            → resolve ws names (some i) (update_row id c rows) ≡ resolve ws names (some i) rows)
        → elim o [ none ↦ none | some i ↦ resolve ws names (some i) (update_row id c rows) ]
          ≡ elim o [ none ↦ none | some i ↦ resolve ws names (some i) rows ]
    go none rec = refl
    go (some i) rec = rec i

pub update-Grows : (id : ℕ) (c : String) (rows : List FileRow) → Grows rows (update_row id c rows)
update-Grows id c rows = record {
  stays = λ i r e. elim (Bool-cases (r.id == id)) [
    | inl hit ↦ (
      record r { content = c; yjs_text = c },
      row_at-update i id c rows r e ∙ rw hit refl,
      (refl, refl, refl, refl, refl),
    )
    | inr miss ↦ (r, row_at-update i id c rows r e ∙ rw miss refl, (refl, refl, refl, refl, refl))
  ];
  leads = λ ws names parent p e. resolve-update ws names parent id c rows ∙ e;
}
