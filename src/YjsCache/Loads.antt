-- ===== src/YjsCache/Loads.antt =====
-- What comes out of the cache.
use nexus_ide.Common.Dict
use nexus_ide.Common.Dict.{Dict, get-put, get-delete}
use nexus_ide.Common.{
  ℕ, String, ◌≡◌, ◌≢◌, refl, ap, subst, ◌∙◌, Bool, true, false, ◌||◌, not, Option, none, some, List,
  [], ◌∷◌, arith, str_eq, eq_refl, Bool-cases, inl, inr,
}
use nexus_ide.YjsCache.AuthorMaps.{ParsesBack, read_printed}
use nexus_ide.YjsCache.{
  printed, Authors, YjsCache, Redis, offline, answers, fails, Formats, set_yjs_state,
  set_yjs_state_to_cache, parsed_authors, is_missing, is_empty, checked, found, from_memory,
  unchecked, by_status, get_yjs_state_from_cache,
}

module _ (formats : Formats) where
  open formats use {loads}

  abbrev pub IsUsable : List ℕ → Type 0
  IsUsable state = (state ≢ []) × (loads state ≡ true)

  not_empty : (state : List ℕ) → state ≢ [] → is_empty formats state ≡ false
  unfolding is_empty
  not_empty [] h = absurd (h refl)
  not_empty (b ∷ bs) h = refl

  found_usable :
      (id : String) (redis : Redis) (state : List ℕ) (authors : Authors) (c : YjsCache)
      → IsUsable state
      → ParsesBack formats authors
      → found formats id redis (some state) (some (printed formats authors)) c
        ≡ (c, some (record { yjs_state = some state; author_map = authors }))
  unfolding found checked is_missing parsed_authors
  found_usable id redis state authors c u p =
      rw (not_empty state u.0, u.1, p.text, read_printed formats authors p) refl

  put_self :
      {V : Type 0} (id : String) (v : V) (m : Dict V) → Dict.get id (Dict.put id v m) ≡ some v
  put_self id v m = get-put id id v m ∙ rw (eq_refl id) refl

  abbrev written : String → List ℕ → Authors → YjsCache → YjsCache
  written id state authors c = record {
    memory = Dict.put id (state, printed formats authors) c.memory;
    states = Dict.put id state c.states;
    authors = Dict.put id (printed formats authors) c.authors;
  }

  unchecked_usable :
      (state : List ℕ) (authors : Authors)
      → ParsesBack formats authors
      → unchecked formats (some (state, printed formats authors))
        ≡ some (record { yjs_state = some state; author_map = authors })
  unfolding unchecked parsed_authors
  unchecked_usable state authors p = rw (p.text, read_printed formats authors p) refl

  -- A state that is not empty and loads, written while Redis answered with authors in ascending order of
  -- their client ids and a text that JSON reads back, is read back with these authors, whether Redis then
  -- answers, is down or fails.
  pub get-set_yjs_state :
      (id : String) (state : List ℕ) (authors : Authors) (redis : Redis) (c : YjsCache)
      → str_eq id "" ≡ false
      → IsUsable state
      → ParsesBack formats authors
      → (get_yjs_state_from_cache formats id redis
          (set_yjs_state_to_cache formats id state authors answers c).0).1
        ≡ some (record { yjs_state = some state; author_map = authors })
  unfolding get_yjs_state_from_cache set_yjs_state_to_cache set_yjs_state by_status from_memory
      unchecked
  get-set_yjs_state id state authors offline c named u p = rw named (
      ap (λ e. (from_memory formats id offline e (written id state authors c)).1)
        (put_self id (state, printed formats authors) c.memory)
      ∙ ap (λ r. r.1) (found_usable id offline state authors (written id state authors c) u p))
  get-set_yjs_state id state authors answers c named u p = rw named (
      ap
        (λ e.
          (found formats id answers e (Dict.get id (written id state authors c).authors)
            (written id state authors c)).1)
        (put_self id state c.states)
      ∙ ap (λ e. (found formats id answers (some state) e (written id state authors c)).1)
          (put_self id (printed formats authors) c.authors)
      ∙ ap (λ r. r.1) (found_usable id answers state authors (written id state authors c) u p))
  get-set_yjs_state id state authors (fails a b) c named u p = rw named (
      ap (unchecked formats) (put_self id (state, printed formats authors) c.memory)
      ∙ unchecked_usable state authors p)

  full : (state : List ℕ) → is_empty formats state ≡ false → state ≢ []
  unfolding is_empty
  full [] h e = cc
  full (b ∷ bs) h e = cc

  checked_loads :
      (id : String) (redis : Redis) (o : Option (List ℕ)) (authors : Authors) (c : YjsCache)
      {state : List ℕ} {known : Authors}
      → (checked formats id redis o authors c).1
        ≡ some (record { yjs_state = some state; author_map = known })
      → IsUsable state
  unfolding checked
  checked_loads id redis none authors c e = absurd (ground (arith, e))
  checked_loads id redis (some stored) authors c {state} e =
      elim (Bool-cases (is_empty formats stored || not (loads stored))) [
        | inl bad ↦ cc (rw bad at e)
        | inr good ↦
            let same : stored ≡ state = ground (arith, good, e) in
            subst IsUsable same (full stored (ground (arith, good)), ground (arith, good))
      ]

  found_loads :
      (id : String) (redis : Redis) (o : Option (List ℕ)) (json : Option String) (c : YjsCache)
      {state : List ℕ} {known : Authors}
      → (found formats id redis o json c).1
        ≡ some (record { yjs_state = some state; author_map = known })
      → IsUsable state
  unfolding found
  found_loads id redis o json c e = elim (Bool-cases (is_missing formats o json)) [
    | inl missing ↦ cc (rw missing at e)
    | inr there ↦ checked_loads id redis o (parsed_authors formats json) c (rw there at e)
  ]

  memory_loads :
      (id : String) (redis : Redis) (o : Option (List ℕ × String)) (c : YjsCache) {state : List ℕ}
      {known : Authors}
      → (from_memory formats id redis o c).1
        ≡ some (record { yjs_state = some state; author_map = known })
      → IsUsable state
  unfolding from_memory
  memory_loads id redis none c e = cc
  memory_loads id redis (some (stored, json)) c e =
      found_loads id redis (some stored) (some json) c e

  -- A state that is read while Redis answers or is down is not empty and loads.
  pub read_state_loads :
      (id : String) (redis : Redis) (c : YjsCache) {state : List ℕ} {known : Authors}
      → ((a b : Bool) → redis ≢ fails a b)
      → (get_yjs_state_from_cache formats id redis c).1
        ≡ some (record { yjs_state = some state; author_map = known })
      → IsUsable state
  unfolding get_yjs_state_from_cache by_status
  read_state_loads id redis c safe e = elim (Bool-cases (str_eq id "")) [
    | inl unnamed ↦ cc (rw unnamed at e)
    | inr named ↦ go redis safe (rw named at e)
  ]
    where
      go :
          (redis : Redis)
          → ((a b : Bool) → redis ≢ fails a b)
          → {state : List ℕ} {known : Authors}
          → (by_status formats id redis c).1
            ≡ some (record { yjs_state = some state; author_map = known })
          → IsUsable state
      go offline safe e = memory_loads id offline (Dict.get id c.memory) c e
      go answers safe e = found_loads id answers (Dict.get id c.states) (Dict.get id c.authors) c e
      go (fails a b) safe e = absurd (safe a b refl)
