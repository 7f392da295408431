-- ===== src/Timeline/Runs.antt =====
-- The ranges that belong to an author of every code unit.
use nexus_ide.Common.{
  ℕ, zero, suc, ◌+◌, ◌≤◌, ◌<◌, ◌≡◌, ◌≢◌, refl, ap, ◌∙◌, Bool, not, ◌&&◌, Option, none, some, List,
  [], ◌∷◌, ◌++◌, arith, ltb, leb, ◌==◌, Bool-cases, inl, inr, if◌then◌else◌,
}
use nexus_ide.Timeline.{Item, AuthorRange, text_of}

-- Each code unit that is not deleted, with the client that wrote it.
abbrev pub with_client : ℕ → List ℕ → List (ℕ × ℕ)
with_client client [] = []
with_client client (ch ∷ chs) = (ch, client) ∷ with_client client chs

abbrev pub visible : List Item → List (ℕ × ℕ)
visible [] = []
visible (item ∷ items) =
    (if not item.deleted then with_client item.client (text_of item.content) else [])
    ++ visible items

-- Newlines have no author.
abbrev pub author_at : List (ℕ × ℕ) → ℕ → Option ℕ
author_at [] i = none
author_at ((ch, client) ∷ rest) zero = if ch == 10 then none else some client
author_at ((ch, client) ∷ rest) (suc i) = author_at rest i

abbrev pub covers : AuthorRange → ℕ → Bool
covers r i = leb r.start i && ltb i r.end

abbrev pub author_in : List AuthorRange → ℕ → Option ℕ
author_in [] i = none
author_in (r ∷ rs) i = if covers r i then some r.client_id else author_in rs i

-- From an end on, in order and not empty, and two that touch are of different clients.
abbrev pub IsChained : ℕ → List AuthorRange → Type 0
IsChained n [] = Unit
IsChained n (r ∷ []) = (n ≤ r.start) × (r.start < r.end)
IsChained n (r ∷ q ∷ rs) =
    (n ≤ r.start)
    × (r.start < r.end)
    × (r.end ≡ q.start → r.client_id ≢ q.client_id)
    × IsChained r.end (q ∷ rs)

-- A run before others: it takes in the first of them where that goes on for the same client.
unfoldable pub cons_run : ℕ → ℕ → ℕ → List AuthorRange → List AuthorRange
cons_run start end c [] = record { start = start; end = end; client_id = c } ∷ []
cons_run start end c (r ∷ rs) =
    if r.start == end && r.client_id == c
    then record { start = start; end = r.end; client_id = c } ∷ rs
    else record { start = start; end = end; client_id = c } ∷ r ∷ rs

-- The runs, from behind.
unfoldable pub runs : ℕ → List (ℕ × ℕ) → List AuthorRange
unfolding cons_run
runs i [] = []
runs i ((ch, c) ∷ rest) =
    if ch == 10 then runs (i + 1) rest else cons_run i (i + 1) c (runs (i + 1) rest)

IsChained-cons_run :
    (i c : ℕ) (rs : List AuthorRange) → IsChained (i + 1) rs → IsChained i (cons_run i (i + 1) c rs)
unfolding cons_run
IsChained-cons_run i c [] h = ground arith
IsChained-cons_run i c (r ∷ []) h = ground arith
IsChained-cons_run i c (r ∷ q ∷ rs) h = elim (Bool-cases (r.start == i + 1 && r.client_id == c)) [
  | inl joined ↦
      let same : r.client_id ≡ c = ground (arith, joined) in
      rw joined (omega arith, omega arith, (λ e p. h.2 e (same ∙ p)), h.3)
  | inr apart ↦ rw apart (omega arith, omega arith, (λ e p. ground (arith, apart, e, p)), h)
]

weaken : (i : ℕ) (rs : List AuthorRange) → IsChained (i + 1) rs → IsChained i rs
weaken i [] h = tt
weaken i (r ∷ []) h = ground arith
weaken i (r ∷ q ∷ rs) h = (omega arith, h.1, h.2, h.3)

pub runs-IsChained : (i : ℕ) (cs : List (ℕ × ℕ)) → IsChained i (runs i cs)
unfolding runs
runs-IsChained i [] = tt
runs-IsChained i ((ch, c) ∷ rest) = elim (Bool-cases (ch == 10)) [
  | inl newline ↦ rw newline (weaken i (runs (i + 1) rest) (runs-IsChained (i + 1) rest))
  | inr char ↦ rw char (IsChained-cons_run i c (runs (i + 1) rest) (runs-IsChained (i + 1) rest))
]

pub chain_first :
    (n : ℕ) (r : AuthorRange) (rs : List AuthorRange)
    → IsChained n (r ∷ rs)
    → (n ≤ r.start) × (r.start < r.end)
chain_first n r [] h = h
chain_first n r (q ∷ rs) h = (h.0, h.1)

-- Nothing is covered before a chain starts.
author_in-before :
    (n i : ℕ) (rs : List AuthorRange) → IsChained n rs → i < n → author_in rs i ≡ none
author_in-before n i [] h lt = refl
author_in-before n i (r ∷ []) h lt = ground arith
author_in-before n i (r ∷ q ∷ rs) h lt = ground (arith, author_in-before r.end i (q ∷ rs) h.3)

author_in-cons_run :
    (i c : ℕ) (rs : List AuthorRange) (j : ℕ)
    → IsChained (i + 1) rs
    → author_in (cons_run i (i + 1) c rs) j ≡ (if j == i then some c else author_in rs j)
unfolding cons_run
author_in-cons_run i c [] j h = ground arith
author_in-cons_run i c (r ∷ rs) j h = elim (Bool-cases (r.start == i + 1 && r.client_id == c)) [
  | inl joined ↦ rw joined (ground (arith, joined, chain_first (i + 1) r rs h))
  | inr apart ↦ rw apart (ground arith)
]

pub author_in-runs :
    (i : ℕ) (cs : List (ℕ × ℕ)) (j : ℕ) → author_in (runs i cs) (i + j) ≡ author_at cs j
unfolding runs
author_in-runs i [] j = refl
author_in-runs i ((ch, c) ∷ rest) zero = elim (Bool-cases (ch == 10)) [
  | inl newline ↦ rw newline (
      author_in-before (i + 1) (i + 0) (runs (i + 1) rest) (runs-IsChained (i + 1) rest)
        (omega arith))
  | inr char ↦
      rw (char, author_in-cons_run i c (runs (i + 1) rest) (i + 0) (runs-IsChained (i + 1) rest))
        (ground arith)
]
author_in-runs i ((ch, c) ∷ rest) (suc j) =
    let later : author_in (runs (i + 1) rest) (i + suc j) ≡ author_at rest j =
      ap (author_in (runs (i + 1) rest)) (let e : i + suc j ≡ i + 1 + j = omega arith in e)
      ∙ author_in-runs (i + 1) rest j in
    elim (Bool-cases (ch == 10)) [
      | inl newline ↦ rw newline later
      | inr char ↦
          rw
            (
              char,
              author_in-cons_run i c (runs (i + 1) rest) (i + suc j) (runs-IsChained (i + 1) rest),
            )
            (ground (arith, later))
    ]
