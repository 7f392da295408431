-- ===== src/Merkle/Diff.antt =====
-- A diff of two trees says of every path what happened to it.
use nexus_ide.Common.Dict
use nexus_ide.Common.Dict.{Dict, get-put}
use nexus_ide.Common.{
  String, ◌≡◌, refl, ap, ◌∙◌, false, Option, none, some, List, [], ◌∷◌, arith, Bool-cases, inl, inr,
  str_eq, eq_iff, if◌then◌else◌,
}
use nexus_ide.Merkle.Dedup.{KeysUnique, KeysUnique-put}
use nexus_ide.Merkle.{
  TreeEntry, map_onto, path_map, changed_in, absent, added_loop, modified_loop, deleted_loop,
  diff_trees,
}

pub find_path : String → List TreeEntry → Option TreeEntry
find_path p [] = none
find_path p (e ∷ es) = if str_eq e.path p then some e else find_path p es

-- The last entry of a path.
unfoldable pub last_of : String → List TreeEntry → Option TreeEntry
last_of p [] = none
last_of p (e ∷ es) = elim (last_of p es) [
  | some x ↦ some x
  | none ↦ if str_eq e.path p then some e else none
]

abbrev ByPath : Dict TreeEntry → Type 0
ByPath [] = Unit
ByPath ((k, e) ∷ m) = (k ≡ e.path) × ByPath m

put-ByPath : (e : TreeEntry) (m : Dict TreeEntry) → ByPath m → ByPath (Dict.put e.path e m)
unfolding Dict.put
put-ByPath e [] h = (refl, tt)
put-ByPath e ((i, w) ∷ m) h = elim (Bool-cases (str_eq i e.path)) [
  | inl same ↦ rw same ((eq_iff i e.path).0 same, h.1)
  | inr other ↦ rw other (h.0, put-ByPath e m h.1)
]

map_onto-Valid :
    (es : List TreeEntry) (m : Dict TreeEntry)
    → ByPath m × KeysUnique m
    → ByPath (map_onto m es) × KeysUnique (map_onto m es)
unfolding map_onto
map_onto-Valid [] m h = h
map_onto-Valid (e ∷ es) m h =
    map_onto-Valid es (Dict.put e.path e m) (put-ByPath e m h.0, KeysUnique-put e.path e m h.1)

get-map_onto :
    (p : String) (es : List TreeEntry) (m : Dict TreeEntry)
    → Dict.get p (map_onto m es) ≡ elim (last_of p es) [ some x ↦ some x | none ↦ Dict.get p m ]
unfolding map_onto last_of
get-map_onto p [] m = refl
get-map_onto p (e ∷ es) m =
    ground (arith, get-map_onto p es (Dict.put e.path e m), get-put e.path p e m)

find-added :
    (p : String) (a b : Dict TreeEntry)
    → ByPath b
    → find_path p (added_loop a b) ≡ (if absent (Dict.get p a) then Dict.get p b else none)
unfolding find_path added_loop Dict.get
find-added p a [] h = ground arith
find-added p a ((i, e) ∷ b) h = elim (Bool-cases (str_eq i p)) [
  | inl same ↦
      let k : i ≡ p = (eq_iff i p).0 same in
      rw same (rw k (ground (arith, find-added p a b h.1, h.0, k, eq_iff e.path p)))
  | inr other ↦ rw other (ground (arith, find-added p a b h.1, h.0, eq_iff i p, eq_iff e.path p))
]

find-deleted :
    (p : String) (b a : Dict TreeEntry)
    → ByPath a
    → find_path p (deleted_loop b a) ≡ (if absent (Dict.get p b) then Dict.get p a else none)
unfolding find_path deleted_loop Dict.get absent
find-deleted p b [] h = ground arith
find-deleted p b ((i, e) ∷ a) h = elim (Bool-cases (str_eq i p)) [
  | inl same ↦
      let k : i ≡ p = (eq_iff i p).0 same in
      rw same
        (rw k (ground (arith, find-deleted p b a h.1, Dict.has-get p b, h.0, k, eq_iff e.path p)))
  | inr other ↦
      rw other
        (ground (arith, find-deleted p b a h.1, Dict.has-get i b, h.0, eq_iff i p, eq_iff e.path p))
]

-- The second entry, if there are two and their hashes differ.
abbrev pub if_changed : Option TreeEntry → Option TreeEntry → Option TreeEntry
if_changed none b = none
if_changed (some a) none = none
if_changed (some a) (some b) = if str_eq a.hash b.hash then none else some b

missing : (p : String) (m : Dict TreeEntry) → Dict.has p m ≡ false → Dict.get p m ≡ none
missing p m h = ground (arith, Dict.has-get p m)

find-modified :
    (p : String) (a b : Dict TreeEntry)
    → ByPath b
    → KeysUnique b
    → find_path p (modified_loop a b) ≡ if_changed (Dict.get p a) (Dict.get p b)
unfolding find_path modified_loop Dict.get changed_in
find-modified p a [] h u = ground arith
find-modified p a ((i, e) ∷ b) h u = elim (Bool-cases (str_eq i p)) [
  | inl same ↦
      let k : i ≡ p = (eq_iff i p).0 same in
      let gone : Dict.get p b ≡ none = rw k at (missing i b u.0) in
      rw same (rw k (ground (arith, find-modified p a b h.1 u.1, gone, h.0, k, eq_iff e.path p)))
  | inr other ↦
      rw other (ground (arith, find-modified p a b h.1 u.1, h.0, eq_iff i p, eq_iff e.path p))
]

get-path_map : (p : String) (es : List TreeEntry) → Dict.get p (path_map es) ≡ last_of p es
unfolding path_map Dict.get
get-path_map p es = get-map_onto p es [] ∙ (ground arith)

-- For every path: it is among the added entries exactly if only the second tree has it, among the
-- deleted ones exactly if only the first has it, and among the modified ones exactly if both have it
-- with different hashes, and there it stands with its entry. Of several entries for a path in one
-- tree the last counts.
pub diff_classifies :
    (xs ys : List TreeEntry) (p : String)
    → (find_path p (diff_trees xs ys).added
        ≡ (if absent (last_of p xs) then last_of p ys else none))
      × (find_path p (diff_trees xs ys).deleted
          ≡ (if absent (last_of p ys) then last_of p xs else none))
      × (find_path p (diff_trees xs ys).modified ≡ if_changed (last_of p xs) (last_of p ys))
unfolding diff_trees
diff_classifies xs ys p =
    let va = map_onto-Valid xs [] (tt, tt) in
    let vb = map_onto-Valid ys [] (tt, tt) in
    let (by_a, a) : ByPath (path_map xs)
        × ((q : String) → Dict.get q (path_map xs) ≡ last_of q xs) =
      (unfold path_map in va.0, λ q. get-path_map q xs) in
    let (by_b, b) : ByPath (path_map ys)
        × ((q : String) → Dict.get q (path_map ys) ≡ last_of q ys) =
      (unfold path_map in vb.0, λ q. get-path_map q ys) in
    (
      find-added p (path_map xs) (path_map ys) by_b ∙ (rw (a p, b p)),
      find-deleted p (path_map ys) (path_map xs) by_a ∙ (rw (a p, b p)),
      find-modified p (path_map xs) (path_map ys) by_b (unfold path_map in vb.1)
          ∙ ap (λ t. if_changed t (Dict.get p (path_map ys))) (a p)
          ∙ ap (if_changed (last_of p xs)) (b p),
    )
