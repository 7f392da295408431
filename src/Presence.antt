-- ===== src/Presence.antt =====
-- backend/src/services/socketPresence.service.ts and redisPresence.service.ts: who is in a workspace.
-- The process keeps a map from workspaces to sockets and copies it to hashes in Redis, which is a
-- parameter, as is JSON. The colour of a member, a function of the name, and the messages to the
-- browsers and to the other pods are left out.
pub mod Rooms
mod Examples
use Prim.Native.String.{◌++◌ as str_append}
use nexus_ide.Common.Dict
use nexus_ide.Common.Dict.{Dict}
use nexus_ide.Common.{
  ℕ, String, Bool, true, false, Option, none, some, List, [], ◌∷◌, ◌++◌, str_eq, if◌then◌else◌,
}
use nexus_ide.Lock.{Result, returned, threw}

pub record PresenceMember : Type 0 where
  pub user_id : String
  pub username : String
  pub active_file_id : Option String
  pub last_seen : ℕ
  pub cursor : Option (ℕ × ℕ)

pub record User : Type 0 where
  pub id : String
  pub username : Option String

-- The commands on hashes. A write that is rejected gives false; `parse` gives `none` where it throws.
pub record HashServer (R : Type 0) : Type 0 where
  pub hset_expire : R → String → String → String → Bool × R
  pub hset : R → String → String → String → Bool × R
  pub hdel : R → String → String → Bool × R
  pub hget : R → String → String → Result (Option String)
  pub hgetall : R → String → Result (List String)
  pub del : R → String → Bool × R
  pub stringify : PresenceMember → String
  pub parse : String → Option PresenceMember

abbrev pub Rooms : Type 0
Rooms = Dict (Dict PresenceMember)

-- `workspacePresence`, and `presenceWorkspaceId` of each socket.
pub record Presence (R : Type 0) : Type 0 where
  pub workspace_presence : Rooms
  pub presence_workspace_id : Dict String
  pub redis : R

room_of : Option (Dict PresenceMember) → Dict PresenceMember
room_of none = []
room_of (some room) = room

unfoldable pub add_member : String → String → PresenceMember → Rooms → Rooms
unfolding room_of Dict.get Dict.put
add_member ws socket m rooms = Dict.put ws (Dict.put socket m (room_of (Dict.get ws rooms))) rooms

-- A room whose last member goes is deleted.
put_or_delete : String → Dict PresenceMember → Rooms → Rooms
unfolding Dict.put Dict.delete
put_or_delete ws [] rooms = Dict.delete ws rooms
put_or_delete ws (e ∷ room) rooms = Dict.put ws (e ∷ room) rooms

remove_from : String → String → Option (Dict PresenceMember) → Rooms → Rooms
unfolding put_or_delete Dict.delete
remove_from ws socket none rooms = rooms
remove_from ws socket (some room) rooms = put_or_delete ws (Dict.delete socket room) rooms

unfoldable pub remove_member : String → String → Rooms → Rooms
unfolding remove_from Dict.get
remove_member ws socket rooms = remove_from ws socket (Dict.get ws rooms) rooms

-- Local members first; one in Redis is added where no member has its user.
unfoldable pub add_absent : Dict PresenceMember → List PresenceMember → Dict PresenceMember
unfolding Dict.has Dict.put
add_absent known [] = known
add_absent known (m ∷ ms) =
    let next : Dict PresenceMember =
      if Dict.has m.user_id known then known else Dict.put m.user_id m known in
    add_absent next ms

unfoldable pub by_user : Dict PresenceMember → List PresenceMember → Dict PresenceMember
unfolding Dict.put
by_user known [] = known
by_user known (m ∷ ms) = by_user (Dict.put m.user_id m known) ms

module _ {R : Type 0} (server : HashServer R) where
  presence_key : String → String
  presence_key ws = str_append "ws:presence:" ws

  set_user_presence : String → String → PresenceMember → ℕ → R → R
  unfolding presence_key
  set_user_presence ws socket m now r =
      (server.hset_expire r (presence_key ws) socket
        (server.stringify (record m { last_seen = now }))).1

  remove_user_presence : String → String → R → R
  unfolding presence_key
  remove_user_presence ws socket r = (server.hdel r (presence_key ws) socket).1

  -- Malformed entries are skipped.
  parse_all : List String → List PresenceMember
  parse_all [] = []
  parse_all (s ∷ ss) =
      let rest = parse_all ss in elim (server.parse s) [ none ↦ rest | some m ↦ m ∷ rest ]

  unfoldable pub get_workspace_presence : String → R → List PresenceMember
  unfolding presence_key parse_all
  get_workspace_presence ws r = elim (server.hgetall r (presence_key ws)) [
    | returned ss ↦ parse_all ss
    | threw ↦ []
  ]

  rewrite_parsed :
      String → String → (PresenceMember → PresenceMember) → Option PresenceMember → R → R
  unfolding presence_key
  rewrite_parsed ws socket f none r = r
  rewrite_parsed ws socket f (some m) r =
      (server.hset r (presence_key ws) socket (server.stringify (f m))).1

  -- Read, change, write back; nothing where there is no entry, an empty one or an error.
  rewrite_entry :
      String → String → (PresenceMember → PresenceMember) → Result (Option String) → R → R
  unfolding rewrite_parsed
  rewrite_entry ws socket f threw r = r
  rewrite_entry ws socket f (returned none) r = r
  rewrite_entry ws socket f (returned (some s)) r =
      if str_eq s "" then r else rewrite_parsed ws socket f (server.parse s) r

  update_active_file : String → String → Option String → ℕ → R → R
  unfolding rewrite_entry presence_key
  update_active_file ws socket file now r =
      rewrite_entry ws socket (λ m. record m { active_file_id = file; last_seen = now })
        (server.hget r (presence_key ws) socket) r

  update_cursor : String → String → ℕ × ℕ → ℕ → R → R
  unfolding rewrite_entry presence_key
  update_cursor ws socket at now r =
      rewrite_entry ws socket (λ m. record m { cursor = some at; last_seen = now })
        (server.hget r (presence_key ws) socket) r

  clear_workspace_presence : String → R → R
  unfolding presence_key
  clear_workspace_presence ws r = (server.del r (presence_key ws)).1

  name_of_user : Option String → String
  name_of_user none = "unknown"
  name_of_user (some s) = if str_eq s "" then "unknown" else s

  abbrev pub new_member : User → PresenceMember
  unfolding name_of_user
  new_member u = record {
    user_id = u.id;
    username = name_of_user u.username;
    active_file_id = none;
    last_seen = 0;
    cursor = none;
  }

  -- `join-workspace`; a handler without user or workspace returns.
  unfoldable pub join_workspace : String → Option User → String → ℕ → Presence R → Presence R
  unfolding add_member set_user_presence name_of_user Dict.put
  join_workspace socket none ws now p = p
  join_workspace socket (some u) ws now p = if str_eq ws "" then p else record {
    workspace_presence = add_member ws socket (new_member u) p.workspace_presence;
    presence_workspace_id = Dict.put socket ws p.presence_workspace_id;
    redis = set_user_presence ws socket (new_member u) now p.redis;
  }

  unfoldable pub member_at : String → String → Rooms → Option PresenceMember
  unfolding room_of Dict.get
  member_at ws socket rooms = Dict.get socket (room_of (Dict.get ws rooms))

  change_file :
      String → String → Option String → ℕ → Option PresenceMember → Presence R → Presence R
  unfolding add_member update_active_file
  change_file ws socket file now none p = p
  change_file ws socket file now (some m) p = record p {
    workspace_presence =
        add_member ws socket (record m { active_file_id = file }) p.workspace_presence;
    redis = update_active_file ws socket file now p.redis;
  }

  change_file_in : Option String → String → Option String → ℕ → Presence R → Presence R
  unfolding change_file member_at
  change_file_in none socket file now p = p
  change_file_in (some ws) socket file now p =
      change_file ws socket file now (member_at ws socket p.workspace_presence) p

  unfoldable pub active_file_change : String → Option String → ℕ → Presence R → Presence R
  unfolding change_file_in Dict.get
  active_file_change socket file now p =
      change_file_in (Dict.get socket p.presence_workspace_id) socket file now p

  -- `disconnect`, whose socket keeps its data.
  drop_socket : Option String → String → Presence R → Presence R
  unfolding remove_member remove_user_presence
  drop_socket none socket p = p
  drop_socket (some ws) socket p = record p {
    workspace_presence = remove_member ws socket p.workspace_presence;
    redis = remove_user_presence ws socket p.redis;
  }

  unfoldable pub disconnect : String → Presence R → Presence R
  unfolding drop_socket Dict.get
  disconnect socket p = drop_socket (Dict.get socket p.presence_workspace_id) socket p

  -- `leave-workspace`, which resets it.
  unfoldable pub leave_workspace : String → Presence R → Presence R
  unfolding disconnect Dict.delete
  leave_workspace socket p = record (disconnect socket p) {
    presence_workspace_id = Dict.delete socket p.presence_workspace_id;
  }

  -- What `broadcastPresence` sends.
  unfoldable pub broadcast_presence : String → Presence R → List PresenceMember
  unfolding add_absent by_user get_workspace_presence room_of Dict.get
  broadcast_presence ws p = Dict.values (
      add_absent (by_user [] (Dict.values (room_of (Dict.get ws p.workspace_presence))))
        (get_workspace_presence ws p.redis))
