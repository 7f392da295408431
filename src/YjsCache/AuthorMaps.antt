-- ===== src/YjsCache/AuthorMaps.antt =====
-- The map of authors through its text.
use nexus_ide.Common.{
  ℕ, ◌+◌, ◌≤◌, ◌<◌, ◌≡◌, refl, sym, ◌∙◌, false, some, [], ◌∷◌, ◌++◌, arith, map, str_eq, append-nil,
  append_assoc,
}
use nexus_ide.SharedDoc.{AuthorInfo, set_author}
use nexus_ide.YjsCache.{Authors, Formats, printed, add_entry, read_entries, or_none}

-- Ascending client ids from a bound on. Of an object JavaScript lists keys below 2^32 - 1 in this order.
abbrev pub AreAscending : ℕ → Authors → Type 0
AreAscending lo [] = Unit
AreAscending lo ((i, a) ∷ m) = (lo ≤ i) × (i < 4294967295) × AreAscending (i + 1) m

abbrev AllUnder : ℕ → Authors → Type 0
AllUnder lo [] = Unit
AllUnder lo ((i, a) ∷ m) = (i < lo) × AllUnder lo m

set_author-last :
    (lo i : ℕ) (a : AuthorInfo) (m : Authors)
    → AllUnder lo m
    → lo ≤ i
    → set_author i a m ≡ m ++ (i, a) ∷ []
unfolding set_author
set_author-last lo i a [] u h = refl
set_author-last lo i a ((j, b) ∷ m) u h = ground (arith, u.0, h, set_author-last lo i a m u.1 h)

AllUnder-last :
    (lo i : ℕ) (a : AuthorInfo) (m : Authors)
    → AllUnder lo m
    → lo ≤ i
    → AllUnder (i + 1) (m ++ (i, a) ∷ [])
AllUnder-last lo i a [] u h = (omega arith, tt)
AllUnder-last lo i a ((j, b) ∷ m) u h = (omega (arith, u.0), AllUnder-last lo i a m u.1 h)

module _ (formats : Formats) where
  open formats use {to_string, number, stringify, parse}

  -- `Number` undoes `String`, and of these entries `JSON.parse` undoes `JSON.stringify`, whose text is not
  -- empty.
  pub record ParsesBack (authors : Authors) : Type 0 where
    pub ascending : AreAscending 0 authors
    pub numbers : (id : ℕ) → number (to_string id) ≡ some id
    pub text : str_eq (printed formats authors) "" ≡ false
    pub entries :
        parse (printed formats authors) ≡ some (map (λ e. (to_string e.0, some e.1)) authors)

  -- The loop puts the entries behind what it has, where their ids are higher.
  read-ascending :
      (lo : ℕ) (authors m : Authors)
      → ((id : ℕ) → number (to_string id) ≡ some id)
      → AllUnder lo m
      → AreAscending lo authors
      → read_entries formats (map (λ e. (to_string e.0, some e.1)) authors) m ≡ m ++ authors
  unfolding read_entries add_entry
  read-ascending lo [] m back u v = sym (append-nil m)
  read-ascending lo ((i, a) ∷ authors) m back u v =
      rw (read_entries, back i)
        (rw (set_author-last lo i a m u v.0) (
          read-ascending (i + 1) authors (m ++ (i, a) ∷ []) back (AllUnder-last lo i a m u v.0) v.2
          ∙ append_assoc m ((i, a) ∷ []) authors))

  pub read_printed :
      (authors : Authors)
      → ParsesBack authors
      → or_none formats (parse (printed formats authors)) ≡ authors
  unfolding or_none
  read_printed authors p = rw p.entries (read-ascending 0 authors [] p.numbers tt p.ascending)
