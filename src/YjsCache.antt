-- ===== src/YjsCache.antt =====
-- backend/src/utils/yjsCache.ts: the states of documents in Redis, with a fallback in memory. Whether
-- Redis is ready, answers or fails is an argument of each call; JSON and Yjs are parameters. Times to
-- live are not modelled.
pub mod AuthorMaps
pub mod Loads
pub mod Outage
mod Examples
use nexus_ide.Common.Dict
use nexus_ide.Common.Dict.{Dict}
use nexus_ide.Common.{
  ℕ, ◌+◌, String, Bool, true, false, ◌&&◌, ◌||◌, not, Option, none, some, List, [], ◌∷◌, str_eq,
  if◌then◌else◌, length, map,
}
use nexus_ide.SharedDoc.{AuthorInfo, set_author}

abbrev pub Authors : Type 0
Authors = List (ℕ × AuthorInfo)

pub record Cached : Type 0 where
  pub yjs_state : Option (List ℕ)
  pub author_map : Authors

-- The map of this process, and the keys `yjs:state:*` and `yjs:author:*` of Redis, without their prefix.
pub record YjsCache : Type 0 where
  pub memory : Dict (List ℕ × String)
  pub states : Dict (List ℕ)
  pub authors : Dict String

-- A client that is not ready, one whose commands are done, and one that fails after it has done the
-- first, the second, both or neither of two commands.
pub data Redis : Type 0 where
  offline answers : Redis
  fails : Bool → Bool → Redis

-- `String` and `Number` on client ids, none for NaN; `JSON.stringify` of an object with the given entries,
-- and `Object.entries` of what `JSON.parse` makes of a text, with none for a value that is no object;
-- and whether `Y.applyUpdate` takes a state.
pub record Formats : Type 0 where
  pub to_string : ℕ → String
  pub number : String → Option ℕ
  pub stringify : List (String × AuthorInfo) → String
  pub parse : String → Option (List (String × Option AuthorInfo))
  pub loads : List ℕ → Bool

abbrev if_done : {A : Type 0} → Bool → A → A → A
if_done true a b = a
if_done false a b = b

unfoldable pub delete_yjs_state : String → Redis → YjsCache → YjsCache
unfolding Dict.delete
delete_yjs_state id offline c = record c { memory = Dict.delete id c.memory }
delete_yjs_state id answers c = record {
  memory = Dict.delete id c.memory;
  states = Dict.delete id c.states;
  authors = Dict.delete id c.authors;
}
delete_yjs_state id (fails a b) c = record {
  memory = Dict.delete id c.memory;
  states = if_done a (Dict.delete id c.states) c.states;
  authors = if_done b (Dict.delete id c.authors) c.authors;
}

-- `deleteYjsStateFromCache`, with its answer.
unfoldable pub delete_yjs_state_from_cache : String → Redis → YjsCache → YjsCache × Bool
unfolding delete_yjs_state
delete_yjs_state_from_cache id redis c =
    if str_eq id "" then (c, false) else (delete_yjs_state id redis c, true)

unfoldable pub clear_yjs_cache : Redis → YjsCache → YjsCache × ℕ
clear_yjs_cache offline c = (record c { memory = [] }, 0)
clear_yjs_cache answers c =
    (record { memory = []; states = []; authors = [] }, length c.states + length c.authors)
clear_yjs_cache (fails a b) c = (
  record {
    memory = [];
    states = if_done (a && b) [] c.states;
    authors = if_done (a && b) [] c.authors;
  },
  0,
)

module _ (formats : Formats) where
  open formats use {to_string, number, stringify, parse, loads}

  -- `JSON.stringify(Object.fromEntries(…))`
  unfoldable pub printed : Authors → String
  printed authors = stringify (map (λ e. (to_string e.0, e.1)) authors)

  add_entry : Option ℕ → Option AuthorInfo → Authors → Authors
  unfolding set_author
  add_entry (some id) (some info) m = set_author id info m
  add_entry _ _ m = m

  -- The loop over the entries.
  unfoldable pub read_entries : List (String × Option AuthorInfo) → Authors → Authors
  unfolding add_entry
  read_entries [] m = m
  read_entries ((key, info) ∷ es) m = read_entries es (add_entry (number key) info m)

  set_yjs_state : String → List ℕ → String → Redis → YjsCache → YjsCache
  unfolding Dict.put
  set_yjs_state id state json offline c = record c { memory = Dict.put id (state, json) c.memory }
  set_yjs_state id state json answers c = record {
    memory = Dict.put id (state, json) c.memory;
    states = Dict.put id state c.states;
    authors = Dict.put id json c.authors;
  }
  set_yjs_state id state json (fails a b) c = record {
    memory = Dict.put id (state, json) c.memory;
    states = if_done a (Dict.put id state c.states) c.states;
    authors = if_done b (Dict.put id json c.authors) c.authors;
  }

  unfoldable pub set_yjs_state_to_cache :
      String → List ℕ → Authors → Redis → YjsCache → YjsCache × Bool
  unfolding set_yjs_state printed
  set_yjs_state_to_cache id state authors redis c =
      if str_eq id "" then (c, false) else (set_yjs_state id state (printed authors) redis c, true)

  pub or_none : Option (List (String × Option AuthorInfo)) → Authors
  unfolding read_entries
  or_none none = []
  or_none (some entries) = read_entries entries []

  parsed_authors : Option String → Authors
  unfolding or_none
  parsed_authors none = []
  parsed_authors (some json) = if str_eq json "" then [] else or_none (parse json)

  is_missing : Option (List ℕ) → Option String → Bool
  is_missing (some state) json = false
  is_missing none none = true
  is_missing none (some json) = str_eq json ""

  is_empty : List ℕ → Bool
  is_empty [] = true
  is_empty (b ∷ bs) = false

  -- A state that is empty or does not load is deleted everywhere.
  checked : String → Redis → Option (List ℕ) → Authors → YjsCache → YjsCache × Option Cached
  unfolding is_empty delete_yjs_state
  checked id redis none authors c = (c, some (record { yjs_state = none; author_map = authors }))
  checked id redis (some state) authors c =
      if is_empty state || not (loads state)
      then (delete_yjs_state id redis c, none)
      else (c, some (record { yjs_state = some state; author_map = authors }))

  found : String → Redis → Option (List ℕ) → Option String → YjsCache → YjsCache × Option Cached
  unfolding is_missing checked parsed_authors
  found id redis state json c =
      if is_missing state json then (c, none) else checked id redis state (parsed_authors json) c

  from_memory : String → Redis → Option (List ℕ × String) → YjsCache → YjsCache × Option Cached
  unfolding found
  from_memory id redis none c = (c, none)
  from_memory id redis (some (state, json)) c = found id redis (some state) (some json) c

  -- The handler of a failure takes the entry as it is.
  unchecked : Option (List ℕ × String) → Option Cached
  unfolding parsed_authors
  unchecked none = none
  unchecked (some (state, json)) =
      some (record { yjs_state = some state; author_map = parsed_authors (some json) })

  by_status : String → Redis → YjsCache → YjsCache × Option Cached
  unfolding from_memory found unchecked Dict.get
  by_status id offline c = from_memory id offline (Dict.get id c.memory) c
  by_status id answers c = found id answers (Dict.get id c.states) (Dict.get id c.authors) c
  by_status id (fails a b) c = (c, unchecked (Dict.get id c.memory))

  unfoldable pub get_yjs_state_from_cache : String → Redis → YjsCache → YjsCache × Option Cached
  unfolding by_status
  get_yjs_state_from_cache id redis c = if str_eq id "" then (c, none) else by_status id redis c
