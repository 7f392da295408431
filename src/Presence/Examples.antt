-- ===== src/Presence/Examples.antt =====
-- Two users in two workspaces, over a Redis that keeps the keys written to it.
use nexus_ide.Common.{String, ◌≡◌, refl, true, none, some, List, [], ◌∷◌}
use nexus_ide.Lock.{returned}
use nexus_ide.Presence.{
  User, HashServer, Presence, new_member, join_workspace, active_file_change, disconnect, member_at,
  broadcast_presence,
}
use nexus_ide.Presence.Rooms.{second_join_leaves_ghost}

abbrev hash_server : HashServer (List String)
hash_server = record {
  hset_expire = λ r k f v. (true, k ∷ r);
  hset = λ r k f v. (true, k ∷ r);
  hdel = λ r k f. (true, k ∷ r);
  hget = λ r k f. returned none;
  hgetall = λ r k. returned [];
  del = λ r k. (true, k ∷ r);
  stringify = λ m. m.user_id;
  parse = λ s. none;
}

abbrev ann : User
ann = record { id = "1"; username = some "ann" }

abbrev bob : User
bob = record { id = "2"; username = none }

abbrev with_bob : Presence (List String)
with_bob = record {
  workspace_presence = ("w", ("sb", new_member hash_server bob) ∷ []) ∷ [];
  presence_workspace_id = ("sb", "w") ∷ [];
  redis = [];
}

both_listed :
    broadcast_presence hash_server "w" (join_workspace hash_server "sa" (some ann) "w" 7 with_bob)
    ≡ new_member hash_server bob ∷ new_member hash_server ann ∷ []
unfolding broadcast_presence join_workspace
both_listed = refl

file_changed :
    (active_file_change hash_server "sb" (some "f") 9 with_bob).workspace_presence
    ≡ ("w", ("sb", record (new_member hash_server bob) { active_file_id = some "f" }) ∷ []) ∷ []
unfolding active_file_change
file_changed = refl

second_join_leaves_ghost_example :
    member_at hash_server "w" "sa"
      (disconnect hash_server "sa" (
        join_workspace hash_server "sa"
          (some ann)
          "v"
          8
          (join_workspace hash_server "sa" (some ann) "w" 7 with_bob))).workspace_presence
    ≡ some (new_member hash_server ann)
second_join_leaves_ghost_example =
    second_join_leaves_ghost hash_server "sa" "w" "v" ann 7 8 with_bob refl refl refl
