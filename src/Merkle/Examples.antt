-- ===== src/Merkle/Examples.antt =====
-- Snapshots on a platform whose hash is the text itself.
use Prim.Native.Nat.{Ordering}
use nexus_ide.Common.{
  ℕ, String, ◌≡◌, refl, none, some, List, [], ◌∷◌, arith, ltb, str_eq, if◌then◌else◌,
}
use nexus_ide.Merkle.{blob, TreeEntry, SourceFile, Platform, name_of, diff_trees, absent}
use nexus_ide.Merkle.Order.{IsLocaleOrder}
use nexus_ide.Merkle.Diff.{find_path, last_of, diff_classifies}

-- Where a name stands in the order of the platform.
rank : String → ℕ
rank s = if str_eq s "a.ts" then 0 else if str_eq s "b.ts" then 1 else 2

abbrev compare_numbers : ℕ → ℕ → Ordering
compare_numbers m n = if ltb m n then Ordering.lt else if ltb n m then Ordering.gt else Ordering.eq

abbrev text_platform : Platform
text_platform = record {
  sha256 = λ s. s;
  byte_length = λ s. 3;
  stringify = λ es. "[]";
  locale_compare = λ s t. compare_numbers (rank s) (rank t);
}

text_platform-IsLocaleOrder : IsLocaleOrder text_platform
text_platform-IsLocaleOrder = record {
  flip = λ s t. ground arith;
  lt_lt = λ s t u p q. ground arith;
  lt_eq = λ s t u p q. ground arith;
  eq_lt = λ s t u p q. ground arith;
  eq_eq = λ s t u p q. ground arith;
}

abbrev file : String → String → SourceFile
file path text = record { path = path; content = some text; language = none }

abbrev entry : String → String → TreeEntry
entry path text = record {
  name = path;
  entry_type = blob;
  hash = text;
  path = path;
  language = none;
  size_bytes = 3;
}

name_of_path : name_of "src/app/b.ts" ≡ "b.ts"
unfolding name_of
name_of_path = refl

abbrev older : List TreeEntry
older = entry "a.ts" "1" ∷ entry "b.ts" "2" ∷ []

abbrev newer : List TreeEntry
newer = entry "b.ts" "3" ∷ entry "c.ts" "4" ∷ []

diff_sample : diff_trees older newer ≡ record {
  added = entry "c.ts" "4" ∷ [];
  modified = entry "b.ts" "3" ∷ [];
  deleted = entry "a.ts" "1" ∷ [];
}
unfolding diff_trees
diff_sample = refl

diff_classifies_example :
    (find_path "b.ts" (diff_trees older newer).added ≡ none)
    × (find_path "b.ts" (diff_trees older newer).deleted ≡ none)
    × (find_path "b.ts" (diff_trees older newer).modified ≡ some (entry "b.ts" "3"))
unfolding last_of absent
diff_classifies_example = diff_classifies older newer "b.ts"
