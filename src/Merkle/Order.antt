-- ===== src/Merkle/Order.antt =====
-- The root hash does not depend on the order in which the files are listed.
use Prim.Native.Nat.{Ordering}
use nexus_ide.Common.{String, ◌≡◌, ◌≢◌, refl, ap, ◌∙◌, List, [], ◌∷◌, arith}
use nexus_ide.Merkle.{
  Platform, TreeEntry, compare_entries, insert_entry, sort_onto, canonical, hash_tree_entries,
}

abbrev pub opposite : Ordering → Ordering
opposite Ordering.lt = Ordering.gt
opposite Ordering.eq = Ordering.eq
opposite Ordering.gt = Ordering.lt

-- What is documented of `localeCompare`: a total order of the strings, up to collation.
pub record IsLocaleOrder (platform : Platform) : Type 0 where
  pub flip : (s t : String) → platform.locale_compare t s ≡ opposite (platform.locale_compare s t)
  pub lt_lt :
      (s t u : String)
      → platform.locale_compare s t ≡ Ordering.lt
      → platform.locale_compare t u ≡ Ordering.lt
      → platform.locale_compare s u ≡ Ordering.lt
  pub lt_eq :
      (s t u : String)
      → platform.locale_compare s t ≡ Ordering.lt
      → platform.locale_compare t u ≡ Ordering.eq
      → platform.locale_compare s u ≡ Ordering.lt
  pub eq_lt :
      (s t u : String)
      → platform.locale_compare s t ≡ Ordering.eq
      → platform.locale_compare t u ≡ Ordering.lt
      → platform.locale_compare s u ≡ Ordering.lt
  pub eq_eq :
      (s t u : String)
      → platform.locale_compare s t ≡ Ordering.eq
      → platform.locale_compare t u ≡ Ordering.eq
      → platform.locale_compare s u ≡ Ordering.eq

module _ (platform : Platform) (law : IsLocaleOrder platform) where
  compare_flip :
      (a b : TreeEntry) → compare_entries platform b a ≡ opposite (compare_entries platform a b)
  unfolding compare_entries
  compare_flip a b = ground (arith, law.flip a.name b.name, law.flip a.path b.path)

  compare_lt :
      (a b c : TreeEntry)
      → compare_entries platform a b ≡ Ordering.lt
      → compare_entries platform b c ≡ Ordering.lt
      → compare_entries platform a c ≡ Ordering.lt
  unfolding compare_entries
  compare_lt a b c p q = ground (
    arith,
    law.lt_lt a.name b.name c.name,
    law.lt_eq a.name b.name c.name,
    law.eq_lt a.name b.name c.name,
    law.eq_eq a.name b.name c.name,
    law.lt_lt a.path b.path c.path,
  )

  insert_comm :
      (a b : TreeEntry) (xs : List TreeEntry)
      → compare_entries platform a b ≢ Ordering.eq
      → insert_entry platform a (insert_entry platform b xs)
        ≡ insert_entry platform b (insert_entry platform a xs)
  unfolding insert_entry
  insert_comm a b [] d = ground (arith, compare_flip a b)
  insert_comm a b (x ∷ xs) d =
      ground (arith, compare_flip a b, compare_lt a b x, compare_lt b a x, insert_comm a b xs d)

  -- Lists that differ by swaps of neighbours which do not compare equal.
  pub data Shuffle : List TreeEntry → List TreeEntry → Type 0 where
    same : {xs : List TreeEntry} → Shuffle xs xs
    swap :
        {xs ys : List TreeEntry} (a b : TreeEntry)
        → compare_entries platform a b ≢ Ordering.eq
        → Shuffle xs ys
        → Shuffle (a ∷ b ∷ xs) (b ∷ a ∷ ys)
    keep : {xs ys : List TreeEntry} (a : TreeEntry) → Shuffle xs ys → Shuffle (a ∷ xs) (a ∷ ys)
    trans : {xs ys zs : List TreeEntry} → Shuffle xs ys → Shuffle ys zs → Shuffle xs zs

  sort_onto-Shuffle :
      {xs ys : List TreeEntry}
      → Shuffle xs ys
      → (done : List TreeEntry) → sort_onto platform done xs ≡ sort_onto platform done ys
  unfolding sort_onto
  sort_onto-Shuffle same done = refl
  sort_onto-Shuffle (swap {ys = ys} a b d s) done =
      sort_onto-Shuffle s (insert_entry platform b (insert_entry platform a done))
      ∙ ap (λ t. sort_onto platform t ys)
          (insert_comm b a done (λ e. d (ground (arith, compare_flip a b))))
  sort_onto-Shuffle (keep a s) done = sort_onto-Shuffle s (insert_entry platform a done)
  sort_onto-Shuffle (trans s t) done = sort_onto-Shuffle s done ∙ sort_onto-Shuffle t done

  -- Entry lists that are reorderings of one another, where no two entries that change places compare
  -- equal, have the same canonical entries and the same tree hash.
  pub hash-Shuffle :
      {xs ys : List TreeEntry}
      → Shuffle xs ys
      → hash_tree_entries platform xs ≡ hash_tree_entries platform ys
  unfolding hash_tree_entries canonical
  hash-Shuffle s = rw (sort_onto-Shuffle s [])
