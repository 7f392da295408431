-- ===== src/Restore/Rows.antt =====
-- The rows of files, and what one of the operations does to them.
use nexus_ide.Common.Dict
use nexus_ide.Common.Dict.{Dict}
use nexus_ide.Common.{
  ℕ, ◌+◌, ◌<◌, String, ◌≡◌, refl, subst, true, false, Option, none, some, List, [], ◌∷◌, ◌++◌,
  arith, ◌==◌, Bool-cases, inl, inr, ◌⊎◌, if◌then◌else◌,
}
use nexus_ide.Restore.{
  FileRow, Tables, find_directory, insert_row, new_directory, found_or_inserted, ensure_parts,
  update_row,
}

unfoldable pub row_at : ℕ → List FileRow → Option FileRow
row_at i [] = none
row_at i (r ∷ rs) = if r.id == i then some r else row_at i rs

abbrev pub AllBelow : ℕ → List FileRow → Type 0
AllBelow n [] = Unit
AllBelow n (r ∷ rs) = (r.id < n) × AllBelow n rs

-- The content that was restored last for an id.
abbrev pub last_for : ℕ → List (ℕ × String) → Option String
last_for i [] = none
last_for i ((id, c) ∷ rest) = elim (last_for i rest) [
  | some d ↦ some d
  | none ↦ if id == i then some c else none
]

abbrev pub Holds : ℕ → String → List FileRow → Type 0
Holds i c rows = (r : FileRow) × (row_at i rows ≡ some r) × (r.content ≡ c) × (r.yjs_text ≡ c)

-- Every id of the map of live paths has a row.
abbrev pub HasLive : Dict ℕ → List FileRow → Type 0
HasLive live rows =
    (path : String) (id : ℕ)
    → Dict.get path live ≡ some id
    → (r : FileRow) × (row_at id rows ≡ some r)

pub row_at-append :
    (i : ℕ) (rows new : List FileRow) (r : FileRow)
    → row_at i rows ≡ some r
    → row_at i (rows ++ new) ≡ some r
unfolding row_at
row_at-append i [] new r e = cc
row_at-append i (x ∷ rows) new r e = ground (arith, e, row_at-append i rows new r)

pub row_at-fresh :
    (n : ℕ) (rows new : List FileRow) → AllBelow n rows → row_at n (rows ++ new) ≡ row_at n new
unfolding row_at
row_at-fresh n [] new v = refl
row_at-fresh n (x ∷ rows) new v = ground (arith, v.0, row_at-fresh n rows new v.1)

pub AllBelow-insert :
    (n : ℕ) (rows : List FileRow) (r : FileRow)
    → AllBelow n rows
    → AllBelow (n + 1) (rows ++ record r { id = n } ∷ [])
AllBelow-insert n [] r v = (omega arith, tt)
AllBelow-insert n (x ∷ rows) r v = (omega (arith, v.0), AllBelow-insert n rows r v.1)

pub AllBelow-update :
    (n id : ℕ) (c : String) (rows : List FileRow)
    → AllBelow n rows
    → AllBelow n (update_row id c rows)
unfolding update_row
AllBelow-update n id c [] v = tt
AllBelow-update n id c (x ∷ rows) v = elim (Bool-cases (x.id == id)) [
  | inl hit ↦ rw hit (v.0, AllBelow-update n id c rows v.1)
  | inr miss ↦ rw miss (v.0, AllBelow-update n id c rows v.1)
]

pub row_at-update :
    (i id : ℕ) (c : String) (rows : List FileRow) (r : FileRow)
    → row_at i rows ≡ some r
    → row_at i (update_row id c rows)
      ≡ some (if r.id == id then record r { content = c; yjs_text = c } else r)
unfolding update_row row_at
row_at-update i id c [] r e = cc
row_at-update i id c (x ∷ rows) r e = elim (Bool-cases (x.id == i)) [
  | inl here ↦
      let same : x ≡ r = ground (arith, here, e) in
      subst
        (λ q.
          row_at i (update_row id c (x ∷ rows))
          ≡ some (if q.id == id then record q { content = c; yjs_text = c } else q))
        same
        (elim (Bool-cases (x.id == id)) [
          | inl hit ↦ rw hit (rw here refl)
          | inr miss ↦ rw miss (rw here refl)
        ])
  | inr later ↦
      let rest = row_at-update i id c rows r (rw later at e) in
      elim (Bool-cases (x.id == id)) [
        | inl hit ↦ rw hit (rw later rest)
        | inr miss ↦ rw miss (rw later rest)
      ]
]

pub AllBelow-ensure :
    (ws : String) (names : List String) (parent : Option ℕ) (t : Tables)
    → AllBelow t.next_id t.rows
    → AllBelow (ensure_parts ws names parent t).0.next_id (ensure_parts ws names parent t).0.rows
unfolding ensure_parts found_or_inserted insert_row
AllBelow-ensure ws [] parent t v = v
AllBelow-ensure ws (name ∷ names) parent t v =
    go (find_directory ws name parent t.rows) (λ id. AllBelow-ensure ws names (some id) t v)
      (AllBelow-ensure ws names (some t.next_id) (insert_row (new_directory ws parent name) t)
        (unfold insert_row in AllBelow-insert t.next_id t.rows (new_directory ws parent name) v))
  where
    go :
        (o : Option ℕ)
        → ((id : ℕ)
            → AllBelow
                (ensure_parts ws names (some id) t).0.next_id
                (ensure_parts ws names (some id) t).0.rows)
        → AllBelow
            (ensure_parts ws names
              (some t.next_id)
              (insert_row (new_directory ws parent name) t)).0.next_id
            (ensure_parts ws names
              (some t.next_id)
              (insert_row (new_directory ws parent name) t)).0.rows
        → AllBelow
            (ensure_parts ws names
              (some (found_or_inserted ws parent name o t).1)
              (found_or_inserted ws parent name o t).0).0.next_id
            (ensure_parts ws names
              (some (found_or_inserted ws parent name o t).1)
              (found_or_inserted ws parent name o t).0).0.rows
    go none old new = new
    go (some id) old new = old id

pub row_at-id :
    (i : ℕ) (rows : List FileRow) (r : FileRow) → row_at i rows ≡ some r → (r.id == i) ≡ true
unfolding row_at
row_at-id i [] r e = cc
row_at-id i (x ∷ rows) r e = ground (arith, e, row_at-id i rows r)

abbrev keep_last : Option String → ℕ → ℕ → String → Option String
keep_last o i id c = elim o [ some d ↦ some d | none ↦ if id == i then some c else none ]

keep_last-none :
    (o : Option String) (i id : ℕ) (c : String)
    → keep_last o i id c ≡ none
    → (o ≡ none) × ((id == i) ≡ false)
keep_last-none (some d) i id c e = cc
keep_last-none none i id c e = ground (arith, e)

keep_last-some :
    (o : Option String) (i id : ℕ) (c : String) {d : String}
    → keep_last o i id c ≡ some d
    → (o ≡ some d) ⊎ ((o ≡ none) × ((id == i) ≡ true) × (c ≡ d))
keep_last-some (some d) i id c e = inl e
keep_last-some none i id c e = elim (Bool-cases (id == i)) [
  | inl mine ↦ inr (refl, mine, ground (arith, mine, e))
  | inr other ↦ cc (rw other at e)
]

pub last_none :
    (i id : ℕ) (c : String) (rest : List (ℕ × String))
    → last_for i ((id, c) ∷ rest) ≡ none
    → (last_for i rest ≡ none) × ((id == i) ≡ false)
last_none i id c rest e = keep_last-none (last_for i rest) i id c e

pub last_some :
    (i id : ℕ) (c : String) (rest : List (ℕ × String)) {d : String}
    → last_for i ((id, c) ∷ rest) ≡ some d
    → (last_for i rest ≡ some d) ⊎ ((last_for i rest ≡ none) × ((id == i) ≡ true) × (c ≡ d))
last_some i id c rest e = keep_last-some (last_for i rest) i id c e
