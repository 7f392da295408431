-- ===== src/DocSocket.antt =====
-- backend/src/services/websocketServer.service.ts: who gets a document over a WebSocket; and the room
-- names of backend/src/services/yjsSyncEngine.service.ts. The token check and the two queries are
-- parameters.
pub mod Access
pub mod Serving
pub mod Messages
mod Examples
use Prim.Native.Char.{Char, code}
use nexus_ide.Common.{
  ℕ, zero, suc, String, Bool, true, false, not, ◌&&◌, ◌||◌, Option, none, some, List, [], ◌∷◌, ◌++◌,
  leb, ltb, ◌==◌, str_eq, if◌then◌else◌, length,
}
use nexus_ide.RoleGuard.{
  CollaboratorRole, viewer, editor, admin, WorkspaceAuth, Awaited, resolved, rejected,
}
use nexus_ide.SharedDoc
use nexus_ide.SharedDoc.{WebSocket}

-- `[0-9a-fA-F-]`
abbrev pub is_hex_dash : ℕ → Bool
is_hex_dash c =
    (leb 48 c && leb c 57) || (leb 97 c && leb c 102) || (leb 65 c && leb c 70) || c == 45

cons_first : Char → Option (String × String) → Option (String × String)
cons_first c none = none
cons_first c (some (s, rest)) = some (String.◌∷◌ c s, rest)

-- `[0-9a-fA-F-]{n}` at the front, and the rest.
unfoldable pub hex_prefix : ℕ → String → Option (String × String)
unfolding cons_first
hex_prefix zero s = some (String.[], s)
hex_prefix (suc n) String.[] = none
hex_prefix (suc n) (String.◌∷◌ c s) =
    let rest = hex_prefix n s in if is_hex_dash (code c) then cons_first c rest else none

-- `.` in a regular expression takes no line terminator.
abbrev pub is_dot : ℕ → Bool
is_dot c = not (c == 10 || c == 13 || c == 0x2028 || c == 0x2029)

unfoldable pub all_dot : String → Bool
all_dot String.[] = true
all_dot (String.◌∷◌ c s) = is_dot (code c) && all_dot s

strip_prefix : String → String → Option String
strip_prefix String.[] s = some s
strip_prefix (String.◌∷◌ c p) String.[] = none
strip_prefix (String.◌∷◌ c p) (String.◌∷◌ d s) =
    let rest = strip_prefix p s in if code c == code d then rest else none

starts_with : String → String → Bool
unfolding strip_prefix
starts_with p s = elim (strip_prefix p s) [ none ↦ false | some _ ↦ true ]

-- `(-.*)?$`
is_tail : String → Bool
unfolding all_dot
is_tail String.[] = true
is_tail (String.◌∷◌ c s) = code c == 45 && all_dot s

with_tail : Option (String × String) → Option String
unfolding is_tail
with_tail none = none
with_tail (some (ws, rest)) = if is_tail rest then some ws else none

at_end : Option (String × String) → Option String
at_end none = none
at_end (some (s, String.[])) = some s
at_end (some (s, String.◌∷◌ c rest)) = none

at_end_of : Option String → Option String
unfolding hex_prefix at_end
at_end_of none = none
at_end_of (some s) = at_end (hex_prefix 36 s)

either : Option String → Option String → Option String
either none b = b
either (some a) b = some a

-- The two expressions of the handshake: the workspace that a room's name speaks of.
unfoldable pub room_workspace : String → Option String
unfolding hex_prefix with_tail at_end_of strip_prefix either
room_workspace name =
    either (with_tail (hex_prefix 36 name)) (at_end_of (strip_prefix "workspace-" name))

second_part : String → Option String → Option (String × String)
second_part ws none = none
second_part ws (some f) = some (ws, f)

after_dash : String → String → Option (String × String)
unfolding second_part hex_prefix at_end
after_dash ws String.[] = none
after_dash ws (String.◌∷◌ c rest) =
    if code c == 45 then second_part ws (at_end (hex_prefix 36 rest)) else none

parts_of : Option (String × String) → Option (String × String)
unfolding after_dash
parts_of none = none
parts_of (some (ws, rest)) = after_dash ws rest

-- The expression of `getOrCreateDoc`: the workspace and the file of a document.
unfoldable pub doc_parts : String → Option (String × String)
unfolding hex_prefix parts_of
doc_parts name = parts_of (hex_prefix 36 name)

-- What becomes of a new socket.
pub data Admission : Type 0 where
  to_terminal to_language_server : Admission
  close_with : ℕ → Admission
  joins : CollaboratorRole → String → Admission

role_or_close : String → Option CollaboratorRole → Admission
role_or_close ws none = close_with 4403
role_or_close ws (some role) = joins role ws

collaborator_role : String → Bool → Awaited (Option CollaboratorRole) → Admission
unfolding role_or_close
collaborator_role ws is_public rejected = close_with 4500
collaborator_role ws is_public (resolved none) =
    role_or_close ws (if is_public then some viewer else none)
collaborator_role ws is_public (resolved (some role)) = joins role ws

unfoldable pub slice_first : String → String
slice_first String.[] = ""
slice_first (String.◌∷◌ c s) = s

-- `url.pathname`, and the token of the query.
pub record Url : Type 0 where
  pub pathname : String
  pub token : Option String

module _ (verify : String → Option String)
    (find_workspace : String → Awaited (Option WorkspaceAuth))
    (find_collaborator : String → String → Awaited (Option CollaboratorRole)) where
  by_workspace : String → String → Awaited (Option WorkspaceAuth) → Admission
  unfolding collaborator_role
  by_workspace user ws rejected = close_with 4500
  by_workspace user ws (resolved none) = close_with 4044
  by_workspace user ws (resolved (some found)) =
      if str_eq found.owner_id user
      then joins admin ws
      else collaborator_role ws found.is_public (find_collaborator ws user)

  unfoldable pub authorise : String → String → Admission
  unfolding by_workspace
  authorise user ws = by_workspace user ws (find_workspace ws)

  in_room : String → Option String → Admission
  unfolding authorise
  in_room user none = close_with 4000
  in_room user (some ws) = authorise user ws

  by_name : String → String → Admission
  unfolding in_room room_workspace
  by_name user name =
      if str_eq name "" || str_eq name "default"
      then close_with 4000
      else in_room user (room_workspace name)

  verified : String → Option String → Admission
  unfolding by_name
  verified name none = close_with 4401
  verified name (some user) = by_name user name

  with_token : String → Option String → Admission
  unfolding verified
  with_token name none = close_with 4401
  with_token name (some token) =
      if str_eq token "" then close_with 4401 else verified name (verify token)

  unfoldable pub handshake : Url → Admission
  unfolding starts_with with_token slice_first
  handshake url =
      if starts_with "/terminal/" url.pathname || starts_with "/ws/terminal/" url.pathname
      then to_terminal
      else if starts_with "/ws/lsp/" url.pathname || starts_with "/lsp/" url.pathname
      then to_language_server
      else with_token (slice_first url.pathname) url.token
