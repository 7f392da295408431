-- ===== src/Restore.antt =====
-- backend/src/services/workspaceSnapshot.service.ts: a snapshot back into the files of a workspace. The
-- table of the files is a list of rows; a stored Yjs state stands as its text. Caches, sockets and
-- terminals, which are told afterwards, and a query that fails, and so ROLLBACK, are not modelled.
pub mod Directories
pub mod Rows
pub mod Fresh
pub mod Paths
pub mod Growth
pub mod Places
pub mod Contents
mod Examples
use Prim.Native.Char.{Char, code}
use nexus_ide.Common.Dict
use nexus_ide.Common.Dict.{Dict}
use nexus_ide.Common.{
  ℕ, ◌+◌, String, Bool, true, false, not, ◌&&◌, ◌||◌, Option, none, some, List, [], ◌∷◌, ◌++◌, ◌==◌,
  str_eq, if◌then◌else◌, filter,
}
use nexus_ide.Snapshots.{SnapshotFile}

pub data FileType : Type 0 where
  file directory : FileType

pub record FileRow : Type 0 where
  pub id : ℕ
  pub workspace_id : String
  pub parent_id : Option ℕ
  pub name : String
  pub type : FileType
  pub language : Option String
  pub content : String
  pub yjs_text : String

-- The rows of `files` and of `file_updates`, the second as the ids of the files they are for.
pub record Tables : Type 0 where
  pub rows : List FileRow
  pub updates : List ℕ
  pub next_id : ℕ

abbrev pub is_directory : FileType → Bool
is_directory file = false
is_directory directory = true

abbrev pub same_parent : Option ℕ → Option ℕ → Bool
same_parent none none = true
same_parent none (some p) = false
same_parent (some p) none = false
same_parent (some p) (some q) = p == q

-- `SELECT id FROM files WHERE … AND type = 'directory'`
unfoldable pub find_directory : String → String → Option ℕ → List FileRow → Option ℕ
find_directory ws name parent [] = none
find_directory ws name parent (r ∷ rs) =
    if str_eq r.workspace_id ws
      && (str_eq r.name name && (same_parent r.parent_id parent && is_directory r.type))
    then some r.id
    else find_directory ws name parent rs

-- `INSERT … RETURNING id`
unfoldable pub insert_row : FileRow → Tables → Tables
insert_row r t = record t {
  rows = t.rows ++ record r { id = t.next_id } ∷ [];
  next_id = t.next_id + 1;
}

abbrev pub new_directory : String → Option ℕ → String → FileRow
new_directory ws parent name = record {
  id = 0;
  workspace_id = ws;
  parent_id = parent;
  name = name;
  type = directory;
  language = none;
  content = "";
  yjs_text = "";
}

unfoldable pub found_or_inserted : String → Option ℕ → String → Option ℕ → Tables → Tables × ℕ
unfolding insert_row
found_or_inserted ws parent name (some id) t = (t, id)
found_or_inserted ws parent name none t = (insert_row (new_directory ws parent name) t, t.next_id)

unfoldable pub ensure_parts : String → List String → Option ℕ → Tables → Tables × Option ℕ
unfolding found_or_inserted find_directory
ensure_parts ws [] parent t = (t, parent)
ensure_parts ws (name ∷ names) parent t =
    let (t', id) = found_or_inserted ws parent name (find_directory ws name parent t.rows) t in
    ensure_parts ws names (some id) t'

cons_head : Char → List String → List String
cons_head c [] = String.◌∷◌ c "" ∷ []
cons_head c (s ∷ ss) = String.◌∷◌ c s ∷ ss

-- `split('/')`
unfoldable pub split : String → List String
unfolding cons_head
split String.[] = "" ∷ []
split (String.◌∷◌ c s) = let rest = split s in if code c == 47 then "" ∷ rest else cons_head c rest

unfoldable pub ensure_directory_exists : String → String → Tables → Tables × Option ℕ
unfolding ensure_parts split
ensure_directory_exists ws dir_path t =
    if str_eq dir_path "" then (t, none) else ensure_parts ws (split dir_path) none t

unfoldable pub has_slash : String → Bool
has_slash String.[] = false
has_slash (String.◌∷◌ c s) = code c == 47 || has_slash s

-- What stands before the last slash, and what stands behind it.
unfoldable pub dir_path : String → String
unfolding has_slash
dir_path String.[] = ""
dir_path (String.◌∷◌ c s) = let rest = dir_path s in if has_slash s then String.◌∷◌ c rest else ""

unfoldable pub file_name : String → String
unfolding has_slash
file_name String.[] = ""
file_name (String.◌∷◌ c s) =
    let rest = file_name s in
    if has_slash s then rest else if code c == 47 then s else String.◌∷◌ c s

unfoldable pub update_row : ℕ → String → List FileRow → List FileRow
update_row id content [] = []
update_row id content (r ∷ rs) =
    let rest = update_row id content rs in
    if r.id == id then record r { content = content; yjs_text = content } ∷ rest else r ∷ rest

unfoldable pub delete_updates : ℕ → List ℕ → List ℕ
delete_updates id us = filter (λ u. not (u == id)) us

unfoldable pub language_or : Option String → Option String
language_or none = some "javascript"
language_or (some l) = if str_eq l "" then some "javascript" else some l

unfoldable pub new_file : String → Option ℕ → SnapshotFile → FileRow
unfolding file_name language_or
new_file ws parent f = record {
  id = 0;
  workspace_id = ws;
  parent_id = parent;
  name = file_name f.path;
  type = file;
  language = language_or f.language;
  content = f.content;
  yjs_text = f.content;
}

-- The file at the path of a snapshot's file: its id, where there is one.
unfoldable pub write_file : String → SnapshotFile → Option ℕ → Tables → Tables × ℕ
unfolding update_row ensure_directory_exists dir_path new_file insert_row
write_file ws f (some id) t = (record t { rows = update_row id f.content t.rows }, id)
write_file ws f none t =
    let (t', parent) = ensure_directory_exists ws (dir_path f.path) t in
    (insert_row (new_file ws parent f) t', t'.next_id)

-- The loop, and the list of what was restored. `live` is `livePathToId`.
unfoldable pub restore_files :
    String → Dict ℕ → List SnapshotFile → Tables → Tables × List (ℕ × String)
unfolding write_file delete_updates Dict.get
restore_files ws live [] t = (t, [])
restore_files ws live (f ∷ fs) t =
    let (t', id) = write_file ws f (Dict.get f.path live) t in
    let (t'', restored) =
      restore_files ws live fs (record t' { updates = delete_updates id t'.updates }) in
    (t'', (id, f.content) ∷ restored)
