-- ===== src/Restore/Paths.antt =====
-- A path, its directory and its name.
use Prim.Native.Char.{Char, code}
use nexus_ide.Common.{String, ◌≡◌, refl, ap, false, arith, ◌==◌, ◌⊎◌, Bool-cases, inl, inr}
use nexus_ide.Restore.{has_slash, dir_path, file_name}

abbrev pub joined : String → String → String
joined String.[] t = t
joined (String.◌∷◌ c s) t = String.◌∷◌ c (joined s t)

-- A path is a directory and a name without a slash behind it, or a name alone.
abbrev pub IsPath : String → String → String → Type 0
IsPath dir name path =
    (has_slash name ≡ false)
    × (((c : Char) × (code c ≡ 47) × (path ≡ joined dir (String.◌∷◌ c name)))
        ⊎ ((dir ≡ "") × (path ≡ name)))

pub parts-IsPath : (p : String) → IsPath (dir_path p) (file_name p) p
unfolding has_slash dir_path file_name
parts-IsPath String.[] = (refl, inr (refl, refl))
parts-IsPath (String.◌∷◌ c s) =
    let (flat, parts) = parts-IsPath s in
    elim (Bool-cases (has_slash s)) [
      | inl more ↦ rw more (
        flat,
        elim parts [
          | inl (x, slash, e) ↦ inl (x, slash, ap (λ z. String.◌∷◌ c z) e)
          | inr (top, e) ↦ cc (flat, more, ap has_slash e)
        ],
      )
      | inr last ↦ elim (Bool-cases (code c == 47)) [
        | inl slash ↦ rw last (rw slash (last, inl (c, ground (arith, slash), refl)))
        | inr plain ↦ rw last (rw plain (ground (arith, plain, last), inr (refl, refl)))
      ]
    ]
