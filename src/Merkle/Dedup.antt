-- ===== src/Merkle/Dedup.antt =====
-- The blobs of a snapshot: every file's content is there, and no hash twice.
use nexus_ide.Common.Dict
use nexus_ide.Common.Dict.{Dict, get-put}
use nexus_ide.Common.{
  String, ◌≡◌, refl, sym, ap, ◌∙◌, true, false, Option, none, some, List, [], ◌∷◌, ◌++◌, arith,
  Bool-cases, inl, inr, str_eq, eq_iff,
}
use nexus_ide.Merkle.{
  MerkleDag, build_merkle_tree, build_merkle_tree_offloaded, build_merkle_tree_inline,
  execute_build_merkle_tree, Platform, SourceFile, BlobRecord, content_of, blob_of, add_blob,
  collect_blobs,
}

-- No key stands twice.
abbrev pub KeysUnique {ℓ} : {V : Type ℓ} → Dict V → Type 0
KeysUnique [] = Unit
KeysUnique ((k, v) ∷ m) = (Dict.has k m ≡ false) × KeysUnique m

has-put_other {ℓ} :
    {V : Type ℓ} (j k : String) (v : V) (m : Dict V)
    → Dict.has j m ≡ false
    → str_eq k j ≡ false
    → Dict.has j (Dict.put k v m) ≡ false
unfolding Dict.has Dict.put
has-put_other j k v [] h d = rw d
has-put_other j k v ((i, w) ∷ m) h d =
    ground (arith, has-put_other j k v m, eq_iff i j, eq_iff i k, eq_iff k j)

pub KeysUnique-put {ℓ} :
    {V : Type ℓ} (k : String) (v : V) (m : Dict V) → KeysUnique m → KeysUnique (Dict.put k v m)
unfolding Dict.put Dict.has
KeysUnique-put k v [] u = (refl, tt)
KeysUnique-put k v ((i, w) ∷ m) u = elim (Bool-cases (str_eq i k)) [
  | inl same ↦ rw same u
  | inr other ↦
      rw other (
        has-put_other i k v m u.0 (ground (arith, eq_iff i k, eq_iff k i)),
        KeysUnique-put k v m u.1,
      )
]

module _ (platform : Platform) where
  open platform use {sha256}

  -- Each blob stands under the hash of its content.
  abbrev pub IsAddressed : Dict BlobRecord → Type 0
  IsAddressed [] = Unit
  IsAddressed ((k, b) ∷ m) = (k ≡ sha256 b.content) × IsAddressed m

  pub get-IsAddressed :
      (m : Dict BlobRecord) (k : String) (b : BlobRecord)
      → IsAddressed m
      → Dict.get k m ≡ some b
      → k ≡ sha256 b.content
  unfolding Dict.get
  get-IsAddressed [] k b h g = cc
  get-IsAddressed ((i, w) ∷ m) k b h g = ground (arith, eq_iff i k, get-IsAddressed m k b h.1)

  pub put-IsAddressed :
      (m : Dict BlobRecord) (b : BlobRecord)
      → b.hash ≡ sha256 b.content
      → IsAddressed m
      → IsAddressed (Dict.put b.hash b m)
  unfolding Dict.put
  put-IsAddressed [] b e h = (e, tt)
  put-IsAddressed ((i, w) ∷ m) b e h = elim (Bool-cases (str_eq i b.hash)) [
    | inl same ↦ rw same ((eq_iff i b.hash).0 same ∙ e, h.1)
    | inr other ↦ rw other (h.0, put-IsAddressed m b e h.1)
  ]

  add_blob-IsAddressed :
      (m : Dict BlobRecord) (f : SourceFile)
      → IsAddressed m
      → IsAddressed (add_blob platform m (blob_of platform f))
  unfolding add_blob
  add_blob-IsAddressed m f h = elim (Bool-cases (Dict.has (blob_of platform f).hash m)) [
    | inl old ↦ rw (old, add_blob) h
    | inr new ↦
        rw (new, add_blob) (put-IsAddressed m (blob_of platform f) (unfold blob_of in refl) h)
  ]

  add_blob-KeysUnique :
      (m : Dict BlobRecord) (b : BlobRecord) → KeysUnique m → KeysUnique (add_blob platform m b)
  unfolding add_blob
  add_blob-KeysUnique m b u = elim (Bool-cases (Dict.has b.hash m)) [
    | inl old ↦ rw (old, add_blob) u
    | inr new ↦ rw (new, add_blob) (KeysUnique-put b.hash b m u)
  ]

  -- A blob that is there stays as it is; the new one is there afterwards.
  pub get-add_blob_old :
      (m : Dict BlobRecord) (x b : BlobRecord) (k : String)
      → Dict.get k m ≡ some b
      → Dict.get k (add_blob platform m x) ≡ some b
  unfolding add_blob
  get-add_blob_old m x b k g =
      ground (arith, get-put x.hash k x m, Dict.has-get k m, eq_iff x.hash k)

  pub has-add_blob :
      (m : Dict BlobRecord) (x : BlobRecord) → Dict.has x.hash (add_blob platform m x) ≡ true
  unfolding add_blob
  has-add_blob m x = ground (
    arith,
    get-put x.hash x.hash x m,
    Dict.has-get x.hash (Dict.put x.hash x m),
    eq_iff x.hash x.hash,
  )

  collect-keeps :
      (fs : List SourceFile) (m : Dict BlobRecord) (b : BlobRecord) (k : String)
      → Dict.get k m ≡ some b
      → Dict.get k (collect_blobs platform m fs) ≡ some b
  unfolding collect_blobs
  collect-keeps [] m b k g = g
  collect-keeps (f ∷ fs) m b k g =
      collect-keeps fs (add_blob platform m (blob_of platform f)) b k
        (get-add_blob_old m (blob_of platform f) b k g)

  collect-Valid :
      (fs : List SourceFile) (m : Dict BlobRecord)
      → IsAddressed m × KeysUnique m
      → IsAddressed (collect_blobs platform m fs) × KeysUnique (collect_blobs platform m fs)
  unfolding collect_blobs
  collect-Valid [] m v = v
  collect-Valid (f ∷ fs) m v =
      collect-Valid fs (add_blob platform m (blob_of platform f))
        (add_blob-IsAddressed m f v.0, add_blob-KeysUnique m (blob_of platform f) v.1)

  abbrev pub get_content : Option BlobRecord → Option String
  get_content none = none
  get_content (some b) = some b.content

  collect-append :
      (fs gs : List SourceFile) (m : Dict BlobRecord)
      → collect_blobs platform m (fs ++ gs)
        ≡ collect_blobs platform (collect_blobs platform m fs) gs
  unfolding collect_blobs
  collect-append [] gs m = refl
  collect-append (f ∷ fs) gs m = collect-append fs gs (add_blob platform m (blob_of platform f))

  pub found_blob :
      (m : Dict BlobRecord) (k : String)
      → Dict.has k m ≡ true
      → (b : BlobRecord) × (Dict.get k m ≡ some b)
  found_blob m k h = go (Dict.get k m) refl
    where
      go : (o : Option BlobRecord) → Dict.get k m ≡ o → (b : BlobRecord) × (Dict.get k m ≡ some b)
      go none e = cc (Dict.has-get k m, h, e)
      go (some b) e = (b, e)

  -- Where the hash has no collisions, the content of every file of a snapshot is stored under its
  -- hash, whatever files come before and after it; and no hash has two rows.
  pub contents_stored :
      (before after : List SourceFile) (f : SourceFile)
      → ((s t : String) → sha256 s ≡ sha256 t → s ≡ t)
      → (get_content (
            Dict.get
              (sha256 (content_of f.content))
              (collect_blobs platform [] (before ++ (f ∷ after))))
          ≡ some (content_of f.content))
        × KeysUnique (collect_blobs platform [] (before ++ (f ∷ after)))
  contents_stored before after f inj =
      let earlier : Dict BlobRecord = collect_blobs platform [] before in
      let now : Dict BlobRecord = add_blob platform earlier (blob_of platform f) in
      let key : String = sha256 (content_of f.content) in
      let split = collect-append before (f ∷ after) [] in
      let valid = collect-Valid before [] (tt, tt) in
      let (b, found) =
        found_blob now key (unfold blob_of in has-add_blob earlier (blob_of platform f)) in
      let last : Dict.get key (collect_blobs platform now after) ≡ some b =
        collect-keeps after now b key found in
      let content : b.content ≡ content_of f.content =
        inj b.content (content_of f.content)
          (sym (get-IsAddressed now key b (add_blob-IsAddressed earlier f valid.0) found)) in
      (
        rw split (unfold collect_blobs in ap get_content last ∙ ap some content),
        (collect-Valid (before ++ (f ∷ after)) [] (tt, tt)).1,
      )

  -- Where a worker that answers has done its work, a snapshot's tree is the same whether it is built
  -- inline, by a worker, or inline after a worker failed.
  pub build-offload :
      (files : List SourceFile) (answer : Option (Option MerkleDag))
      → ((dag : MerkleDag)
          → answer ≡ some (some dag)
          → dag ≡ execute_build_merkle_tree platform files)
      → build_merkle_tree platform files answer ≡ build_merkle_tree_inline platform files
  unfolding build_merkle_tree build_merkle_tree_offloaded execute_build_merkle_tree
  build-offload files none honest = ground arith
  build-offload files (some none) honest = ground arith
  build-offload files (some (some dag)) honest = ground (arith, honest dag refl)
