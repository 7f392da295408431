-- ===== src/Merkle/Rows.antt =====
-- What a snapshot hands to the tables: its entries in another order, and a row for each content.
use Prim.Native.Nat.{Ordering}
use mathlib.Core.List.Perm
use mathlib.Core.List.{Perm, perm_middle}
use nexus_ide.Common.Dict
use nexus_ide.Common.Dict.{Dict, get-put}
use nexus_ide.Common.{
  String, ◌≡◌, refl, sym, ap, ◌∙◌, true, false, List, [], ◌∷◌, ◌++◌, map, Bool-cases, inl, inr,
  str_eq, eq_iff, ◌⊎◌, append-nil, subst,
}
use nexus_ide.Merkle.{
  Platform, SourceFile, TreeEntry, BlobRecord, content_of, blob_of, entry_of, add_blob,
  collect_blobs, compare_entries, insert_entry, sort_onto, canonical, root_entries,
}

module _ (platform : Platform) where
  open platform use {sha256}

  insert_entry-perm :
      (e : TreeEntry) (es : List TreeEntry) → Perm (insert_entry platform e es) (e ∷ es)
  unfolding insert_entry
  insert_entry-perm e [] = Perm.refl (e ∷ [])
  insert_entry-perm e (x ∷ xs) =
      let later : Perm (x ∷ insert_entry platform e xs) (e ∷ x ∷ xs) =
        Perm.trans (Perm.cons x (insert_entry-perm e xs)) (Perm.swap e x xs) in
      elim (compare_entries platform e x)
        as (λ o.
          Perm
            (elim o [
              | Ordering.lt ↦ e ∷ x ∷ xs
              | Ordering.eq ↦ x ∷ insert_entry platform e xs
              | Ordering.gt ↦ x ∷ insert_entry platform e xs
            ])
            (e ∷ x ∷ xs)) [
              | Ordering.lt ↦ Perm.refl (e ∷ x ∷ xs)
              | Ordering.eq ↦ later
              | Ordering.gt ↦ later
            ]

  sort_onto-perm : (done es : List TreeEntry) → Perm (sort_onto platform done es) (es ++ done)
  unfolding sort_onto
  sort_onto-perm done [] = Perm.refl done
  sort_onto-perm done (e ∷ es) =
      Perm.trans (sort_onto-perm (insert_entry platform e done) es)
        (Perm.trans (Perm.append_left es (insert_entry-perm e done)) (perm_middle es done))

  root_entries-map : (fs : List SourceFile) → root_entries platform fs ≡ map (entry_of platform) fs
  unfolding root_entries
  root_entries-map [] = refl
  root_entries-map (f ∷ fs) = ap (λ t. entry_of platform f ∷ t) (root_entries-map fs)

  -- The entries of a tree are those of the files, in some order.
  pub canonical-perm :
      (fs : List SourceFile)
      → Perm (canonical platform (root_entries platform fs)) (map (entry_of platform) fs)
  unfolding canonical
  canonical-perm fs =
      subst (Perm (sort_onto platform [] (root_entries platform fs)))
        (append-nil (root_entries platform fs) ∙ root_entries-map fs)
        (sort_onto-perm [] (root_entries platform fs))

  -- Rows whose hash is that of their content.
  abbrev pub AreHashed : List BlobRecord → Type 0
  AreHashed [] = Unit
  AreHashed (b ∷ bs) = (b.hash ≡ sha256 b.content) × AreHashed bs

  abbrev pub HasHash : String → List BlobRecord → Type 0
  HasHash h [] = ⊥
  HasHash h (b ∷ bs) = (b.hash ≡ h) ⊎ HasHash h bs

  abbrev pub IsKeyed : Dict BlobRecord → Type 0
  IsKeyed [] = Unit
  IsKeyed ((k, b) ∷ m) = (k ≡ b.hash) × IsKeyed m

  AreHashed-put :
      (b : BlobRecord) (m : Dict BlobRecord)
      → b.hash ≡ sha256 b.content
      → AreHashed (Dict.values m)
      → AreHashed (Dict.values (Dict.put b.hash b m))
  unfolding Dict.put
  AreHashed-put b [] e h = (e, tt)
  AreHashed-put b ((k, c) ∷ m) e h = elim (Bool-cases (str_eq k b.hash)) [
    | inl same ↦ rw same (e, h.1)
    | inr other ↦ rw other (h.0, AreHashed-put b m e h.1)
  ]

  IsKeyed-put : (b : BlobRecord) (m : Dict BlobRecord) → IsKeyed m → IsKeyed (Dict.put b.hash b m)
  unfolding Dict.put
  IsKeyed-put b [] h = (refl, tt)
  IsKeyed-put b ((k, c) ∷ m) h = elim (Bool-cases (str_eq k b.hash)) [
    | inl same ↦ rw same ((eq_iff k b.hash).0 same, h.1)
    | inr other ↦ rw other (h.0, IsKeyed-put b m h.1)
  ]

  HasHash-keyed :
      (h : String) (m : Dict BlobRecord)
      → IsKeyed m
      → Dict.has h m ≡ true
      → HasHash h (Dict.values m)
  unfolding Dict.has
  HasHash-keyed h [] v e = cc
  HasHash-keyed h ((k, c) ∷ m) v e = elim (Bool-cases (str_eq k h)) [
    | inl same ↦ inl (sym v.0 ∙ (eq_iff k h).0 same)
    | inr other ↦ inr (HasHash-keyed h m v.1 (rw other at e))
  ]

  HasHash-put :
      (h : String) (b : BlobRecord) (m : Dict BlobRecord)
      → Dict.has b.hash m ≡ false
      → (b.hash ≡ h) ⊎ HasHash h (Dict.values m)
      → HasHash h (Dict.values (Dict.put b.hash b m))
  unfolding Dict.put Dict.has
  HasHash-put h b [] n (inl e) = inl e
  HasHash-put h b [] n (inr r) = inr r
  HasHash-put h b ((k, c) ∷ m) n o = elim (Bool-cases (str_eq k b.hash)) [
    | inl same ↦ cc (rw same at n)
    | inr other ↦ rw other (go o (λ q. HasHash-put h b m (rw other at n) q))
  ]
    where
      go :
          (b.hash ≡ h) ⊎ ((c.hash ≡ h) ⊎ HasHash h (Dict.values m))
          → ((b.hash ≡ h) ⊎ HasHash h (Dict.values m)
              → HasHash h (Dict.values (Dict.put b.hash b m)))
          → (c.hash ≡ h) ⊎ HasHash h (Dict.values (Dict.put b.hash b m))
      go (inl e) rec = inr (rec (inl e))
      go (inr (inl e)) rec = inl e
      go (inr (inr r)) rec = inr (rec (inr r))

  HasHash-add :
      (h : String) (b : BlobRecord) (m : Dict BlobRecord)
      → IsKeyed m
      → (b.hash ≡ h) ⊎ HasHash h (Dict.values m)
      → HasHash h (Dict.values (add_blob platform m b))
  unfolding add_blob
  HasHash-add h b m v o = elim (Bool-cases (Dict.has b.hash m)) [
    | inr new ↦ rw (new, add_blob) (HasHash-put h b m new o)
    | inl old ↦ rw (old, add_blob) (go old o)
  ]
    where
      go :
          Dict.has b.hash m ≡ true
          → (b.hash ≡ h) ⊎ HasHash h (Dict.values m)
          → HasHash h (Dict.values m)
      go old (inl e) = subst (λ k. HasHash k (Dict.values m)) e (HasHash-keyed b.hash m v old)
      go old (inr r) = r

  add_blob-IsKeyed :
      (b : BlobRecord) (m : Dict BlobRecord) → IsKeyed m → IsKeyed (add_blob platform m b)
  unfolding add_blob
  add_blob-IsKeyed b m v = elim (Bool-cases (Dict.has b.hash m)) [
    | inl old ↦ rw (old, add_blob) v
    | inr new ↦ rw (new, add_blob) (IsKeyed-put b m v)
  ]

  collect-HasHash :
      (h : String) (fs : List SourceFile) (m : Dict BlobRecord)
      → IsKeyed m
      → HasHash h (Dict.values m)
      → HasHash h (Dict.values (collect_blobs platform m fs))
  unfolding collect_blobs
  collect-HasHash h [] m v r = r
  collect-HasHash h (f ∷ fs) m v r =
      collect-HasHash h fs (add_blob platform m (blob_of platform f))
        (add_blob-IsKeyed (blob_of platform f) m v) (HasHash-add h (blob_of platform f) m v (inr r))

  -- A row for the content of every file.
  abbrev pub HasRows : List SourceFile → List BlobRecord → Type 0
  HasRows [] rows = Unit
  HasRows (f ∷ fs) rows = HasHash (sha256 (content_of f.content)) rows × HasRows fs rows

  pub collect-HasRows :
      (fs : List SourceFile) (m : Dict BlobRecord)
      → IsKeyed m
      → HasRows fs (Dict.values (collect_blobs platform m fs))
  unfolding collect_blobs
  collect-HasRows [] m v = tt
  collect-HasRows (f ∷ fs) m v =
      let now = add_blob-IsKeyed (blob_of platform f) m v in
      (
        collect-HasHash (sha256 (content_of f.content)) fs
            (add_blob platform m (blob_of platform f)) now
            (HasHash-add (sha256 (content_of f.content)) (blob_of platform f) m v
              (inl (unfold blob_of in refl))),
        collect-HasRows fs (add_blob platform m (blob_of platform f)) now,
      )

  pub collect-AreHashed :
      (fs : List SourceFile) (m : Dict BlobRecord)
      → AreHashed (Dict.values m)
      → AreHashed (Dict.values (collect_blobs platform m fs))
  unfolding collect_blobs add_blob
  collect-AreHashed [] m v = v
  collect-AreHashed (f ∷ fs) m v =
      collect-AreHashed fs (add_blob platform m (blob_of platform f))
        (elim (Bool-cases (Dict.has (blob_of platform f).hash m)) [
          | inl old ↦ rw (old, add_blob) v
          | inr new ↦
              rw (new, add_blob) (AreHashed-put (blob_of platform f) m (unfold blob_of in refl) v)
        ])
