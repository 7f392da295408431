-- ===== src/YjsCache/Outage.antt =====
-- What an outage of Redis leaves behind.
use nexus_ide.Common.Dict
use nexus_ide.Common.Dict.{Dict, get-put, get-delete}
use nexus_ide.Common.{
  ℕ, String, ◌≡◌, refl, Option, none, some, List, str_eq, Bool-cases, inl, inr, not, ◌||◌,
}
use nexus_ide.YjsCache.{
  Authors, YjsCache, offline, answers, Formats, printed, delete_yjs_state,
  delete_yjs_state_from_cache, set_yjs_state, set_yjs_state_to_cache, checked, found, is_empty,
  is_missing, parsed_authors, by_status, get_yjs_state_from_cache,
}

module _ (formats : Formats) where
  checked_same :
      (id : String) (o : Option (List ℕ)) (authors : Authors) (c d : YjsCache)
      → (checked formats id answers o authors c).1 ≡ (checked formats id answers o authors d).1
  unfolding checked
  checked_same id none authors c d = refl
  checked_same id (some state) authors c d =
      elim (Bool-cases (is_empty formats state || not (formats.loads state))) [
        | inl bad ↦ rw bad refl
        | inr good ↦ rw good refl
      ]

  found_same :
      (id : String) (o : Option (List ℕ)) (json : Option String) (c d : YjsCache)
      → (found formats id answers o json c).1 ≡ (found formats id answers o json d).1
  unfolding found
  found_same id o json c d = elim (Bool-cases (is_missing formats o json)) [
    | inl missing ↦ rw missing refl
    | inr there ↦ rw there (checked_same id o (parsed_authors formats json) c d)
  ]

  -- Reads while Redis answers depend on what Redis has, not on the map of the process.
  read_same :
      (id : String) (memory : Dict (List ℕ × String)) (c : YjsCache)
      → (get_yjs_state_from_cache formats id answers (record c { memory = memory })).1
        ≡ (get_yjs_state_from_cache formats id answers c).1
  unfolding get_yjs_state_from_cache by_status
  read_same id memory c = elim (Bool-cases (str_eq id "")) [
    | inl unnamed ↦ rw unnamed refl
    | inr named ↦ rw named (
        found_same id (Dict.get id c.states) (Dict.get id c.authors) (record c { memory = memory })
          c)
  ]

  -- What is written to the cache, or deleted from it, while Redis is down does not reach Redis: once Redis
  -- answers again, a read gives what Redis had before, as long as Redis keeps it. So a state that a save has
  -- made stale is read again after the save.
  pub outage_forgotten :
      (id key : String) (state : List ℕ) (authors : Authors) (c : YjsCache)
      → ((get_yjs_state_from_cache formats key answers
            (delete_yjs_state_from_cache id offline c).0).1
          ≡ (get_yjs_state_from_cache formats key answers c).1)
        × ((get_yjs_state_from_cache formats key answers
              (set_yjs_state_to_cache formats id state authors offline c).0).1
            ≡ (get_yjs_state_from_cache formats key answers c).1)
  unfolding delete_yjs_state_from_cache delete_yjs_state set_yjs_state_to_cache set_yjs_state
  outage_forgotten id key state authors c = elim (Bool-cases (str_eq id "")) [
    | inl unnamed ↦ rw unnamed (refl, refl)
    | inr named ↦ rw named (
      read_same key (Dict.delete id c.memory) c,
      read_same key (Dict.put id (state, printed formats authors) c.memory) c,
    )
  ]
