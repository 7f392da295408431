-- ===== src/YjsCache/Examples.antt =====
-- States that begin with 1 load; a map of authors prints as the name of the first.
use nexus_ide.Common.{
  ℕ, zero, suc, String, Option, arith, ◌≡◌, refl, Bool, true, false, none, some, List, [], ◌∷◌,
  ◌==◌, str_eq, if◌then◌else◌,
}
use nexus_ide.YjsCache.{
  Authors, YjsCache, offline, answers, fails, Formats, printed, delete_yjs_state_from_cache,
  set_yjs_state_to_cache, get_yjs_state_from_cache, clear_yjs_cache,
}
use nexus_ide.SharedDoc.{AuthorInfo}
use nexus_ide.YjsCache.AuthorMaps.{ParsesBack}
use nexus_ide.YjsCache.Loads.{IsUsable, get-set_yjs_state}
use nexus_ide.YjsCache.Outage.{outage_forgotten}

abbrev ann_info : AuthorInfo
ann_info = record { user_id = "u"; username = "ann"; color = "red" }

abbrev bob_info : AuthorInfo
bob_info = record { user_id = "v"; username = "bob"; color = "blue" }

abbrev ann : Authors
ann = (7, ann_info) ∷ []

abbrev both : Authors
both = (7, ann_info) ∷ (9, bob_info) ∷ []

abbrev begins_with_one : List ℕ → Bool
begins_with_one [] = false
begins_with_one (b ∷ bs) = b == 1

-- Numbers as so many letters.
abbrev unary : ℕ → String
unary zero = ""
unary (suc n) = String.◌∷◌ "i" (unary n)

abbrev counted : String → Option ℕ
counted String.[] = some 0
counted (String.◌∷◌ c s) = elim (counted s) [ none ↦ none | some n ↦ some (suc n) ]

counted-unary : (n : ℕ) → counted (unary n) ≡ some n
counted-unary zero = refl
counted-unary (suc n) = rw (counted-unary n) refl

abbrev names : List (String × AuthorInfo) → String
names [] = "."
names ((key, a) ∷ es) = a.username

-- Also an entry whose value is no object.
abbrev parsed : String → Option (List (String × Option AuthorInfo))
parsed s =
    if str_eq s "ann"
    then some (("iiiiiii", some ann_info) ∷ ("iiiiiiiii", some bob_info) ∷ [])
    else if str_eq s "a"
    then some (("iiiiiii", some ann_info) ∷ ("i", none) ∷ [])
    else none

abbrev formats : Formats
formats = record {
  to_string = unary;
  number = counted;
  stringify = names;
  parse = parsed;
  loads = begins_with_one;
}

abbrev cache : YjsCache
cache = record {
  memory = [];
  states = ("f", 1 ∷ 5 ∷ []) ∷ ("g", 2 ∷ []) ∷ [];
  authors = ("f", "a") ∷ ("g", "?") ∷ [];
}

stored :
    (get_yjs_state_from_cache formats "f" answers cache).1
    ≡ some (record { yjs_state = some (1 ∷ 5 ∷ []); author_map = ann })
unfolding get_yjs_state_from_cache
stored = refl

-- A state that does not load is removed.
purged :
    get_yjs_state_from_cache formats "g" answers cache
    ≡ (record { memory = []; states = ("f", 1 ∷ 5 ∷ []) ∷ []; authors = ("f", "a") ∷ [] }, none)
unfolding get_yjs_state_from_cache
purged = refl

cleared : (clear_yjs_cache answers cache).1 ≡ 4
unfolding clear_yjs_cache
cleared = refl

usable : IsUsable formats (1 ∷ 5 ∷ [])
usable = (λ e. cc, refl)

both-ParsesBack : ParsesBack formats both
unfolding printed
both-ParsesBack = record {
  ascending = (omega arith, omega arith, (omega arith, omega arith, tt));
  numbers = counted-unary;
  text = refl;
  entries = refl;
}

get-set_yjs_state_example :
    (get_yjs_state_from_cache formats "h"
      (fails true false)
      (set_yjs_state_to_cache formats "h" (1 ∷ 5 ∷ []) both answers cache).0).1
    ≡ some (record { yjs_state = some (1 ∷ 5 ∷ []); author_map = both })
get-set_yjs_state_example =
    get-set_yjs_state formats "h" (1 ∷ 5 ∷ []) both (fails true false) cache refl usable
      both-ParsesBack

outage_forgotten_example :
    ((get_yjs_state_from_cache formats "f" answers
        (delete_yjs_state_from_cache "f" offline cache).0).1
      ≡ (get_yjs_state_from_cache formats "f" answers cache).1)
    × ((get_yjs_state_from_cache formats "f" answers
          (set_yjs_state_to_cache formats "f" (1 ∷ []) [] offline cache).0).1
        ≡ (get_yjs_state_from_cache formats "f" answers cache).1)
outage_forgotten_example = outage_forgotten formats "f" "f" (1 ∷ []) [] cache
