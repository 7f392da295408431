-- ===== src/Containers/Sizes.antt =====
-- How many entries a map has, and how many calls are in flight.
use nexus_ide.Common.Dict
use nexus_ide.Common.Dict.{Dict, get-put, get-delete}
use nexus_ide.Common.{
  ◌+◌, String, ◌≡◌, refl, sym, ap, ◌∙◌, true, none, some, List, [], ◌∷◌, arith, Bool-cases, inl,
  inr, str_eq, eq_iff, suc, length,
}
use nexus_ide.Containers.{remove_key, is_in_flight}
use nexus_ide.Containers.Entries.{same_get}

-- No key stands twice.
abbrev pub IsKeyed {ℓ} : {V : Type ℓ} → Dict V → Type ℓ
IsKeyed [] = Unit
IsKeyed ((j, w) ∷ m) = (Dict.get j m ≡ none) × IsKeyed m

pub put-IsKeyed {ℓ} :
    {V : Type ℓ} (k : String) (v : V) (m : Dict V) → IsKeyed m → IsKeyed (Dict.put k v m)
unfolding Dict.put Dict.get
put-IsKeyed k v [] d = (refl, tt)
put-IsKeyed k v ((j, w) ∷ m) d = elim (Bool-cases (str_eq j k)) [
  | inl same ↦ rw same d
  | inr other ↦
      rw other
        (ground (arith, d.0, other, eq_iff j k, eq_iff k j, get-put k j v m), put-IsKeyed k v m d.1)
]

pub delete-IsKeyed {ℓ} :
    {V : Type ℓ} (k : String) (m : Dict V) → IsKeyed m → IsKeyed (Dict.delete k m)
unfolding Dict.delete
delete-IsKeyed k [] d = tt
delete-IsKeyed k ((j, w) ∷ m) d = elim (Bool-cases (str_eq j k)) [
  | inl same ↦ rw same (delete-IsKeyed k m d.1)
  | inr other ↦ rw other (ground (arith, d.0, get-delete k j m), delete-IsKeyed k m d.1)
]

pub length-put_new {ℓ} :
    {V : Type ℓ} (k : String) (v : V) (m : Dict V)
    → Dict.get k m ≡ none
    → length (Dict.put k v m) ≡ length m + 1
unfolding Dict.put Dict.get
length-put_new k v [] g = refl
length-put_new k v ((j, w) ∷ m) g = elim (Bool-cases (str_eq j k)) [
  | inl same ↦ cc (rw same at g)
  | inr other ↦ rw other (omega (arith, length-put_new k v m (rw other at g)))
]

pub length-put_old {ℓ} :
    {V : Type ℓ} (k : String) (v w : V) (m : Dict V)
    → Dict.get k m ≡ some w
    → length (Dict.put k v m) ≡ length m
unfolding Dict.put Dict.get
length-put_old k v w [] g = cc
length-put_old k v w ((j, u) ∷ m) g = elim (Bool-cases (str_eq j k)) [
  | inl same ↦ rw same refl
  | inr other ↦ rw other (ap suc (length-put_old k v w m (rw other at g)))
]

length-delete_absent {ℓ} :
    {V : Type ℓ} (k : String) (m : Dict V)
    → Dict.get k m ≡ none
    → length (Dict.delete k m) ≡ length m
unfolding Dict.delete Dict.get
length-delete_absent k [] g = refl
length-delete_absent k ((j, w) ∷ m) g = elim (Bool-cases (str_eq j k)) [
  | inl same ↦ cc (rw same at g)
  | inr other ↦ rw other (ap suc (length-delete_absent k m (rw other at g)))
]

pub length-delete {ℓ} :
    {V : Type ℓ} (k : String) (w : V) (m : Dict V)
    → Dict.get k m ≡ some w
    → IsKeyed m
    → length (Dict.delete k m) + 1 ≡ length m
unfolding Dict.delete Dict.get
length-delete k w [] g d = cc
length-delete k w ((j, u) ∷ m) g d = elim (Bool-cases (str_eq j k)) [
  | inl same ↦ rw same (omega (arith, length-delete_absent k m (sym (same_get j k m same) ∙ d.0)))
  | inr other ↦ rw other (omega (arith, length-delete k w m (rw other at g) d.1))
]

pub length-remove_key_in :
    (k : String) (ks : List String)
    → is_in_flight k ks ≡ true
    → length (remove_key k ks) + 1 ≡ length ks
unfolding remove_key is_in_flight
length-remove_key_in k [] h = cc
length-remove_key_in k (j ∷ js) h = ground (arith, length-remove_key_in k js)
