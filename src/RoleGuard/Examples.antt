-- ===== src/RoleGuard/Examples.antt =====
-- Requests to a public workspace owned by "ann", with "bob" as its editor.
use nexus_ide.Common.{
  ◌≤◌, ◌≡◌, ◌↔◌, refl, String, true, Option, none, some, str_eq, if◌then◌else◌, arith,
}
use nexus_ide.RoleGuard.{
  CollaboratorRole, viewer, editor, admin, role_hierarchy, WorkspaceAuth, Request, Awaited,
  resolved, Outcome, status, next, truthy, workspace_id_of, require_workspace_role,
}
use nexus_ide.RoleGuard.Decision.{MayEnter, admits_iff}

abbrev find_auth : String → Awaited (Option WorkspaceAuth)
find_auth ws =
    if str_eq ws "w1"
    then resolved (some (record { owner_id = "ann"; is_public = true }))
    else resolved none

abbrev find_role : String → String → Awaited (Option CollaboratorRole)
find_role ws user = if str_eq user "bob" then resolved (some editor) else resolved none

abbrev request : String → String → Request
request user ws = record {
  user_id = some user;
  params_id = some ws;
  params_workspace_id = none;
  body_workspace_id = none;
}

abbrev ask : CollaboratorRole → Request → Outcome
ask = require_workspace_role find_auth find_role

answers :
    (ask admin (request "ann" "w1") ≡ next admin)
    × (ask editor (request "bob" "w1") ≡ next editor)
    × (ask admin (request "bob" "w1") ≡ status 403)
    × (ask viewer (request "eve" "w1") ≡ next viewer)
    × (ask viewer (request "eve" "w2") ≡ status 404)
    × (ask viewer (request "" "w1") ≡ status 401)
    × (ask viewer (request "eve" "") ≡ status 400)
unfolding require_workspace_role
answers = (refl, refl, refl, refl, refl, refl, refl)

bob_id : truthy (request "bob" "w1").user_id ≡ some "bob"
unfolding truthy
bob_id = refl

w1_id : workspace_id_of (request "bob" "w1") ≡ some "w1"
unfolding workspace_id_of
w1_id = refl

admits_iff_example :
    (require_workspace_role find_auth find_role viewer (request "bob" "w1") ≡ next editor)
    ↔ MayEnter find_auth find_role "bob" "w1" viewer editor
admits_iff_example = admits_iff find_auth find_role viewer editor (request "bob" "w1") bob_id w1_id

bob_edits : ask editor (request "bob" "w1") ≡ next editor
unfolding require_workspace_role
bob_edits = refl

viewer_below : role_hierarchy viewer ≤ role_hierarchy editor
unfolding role_hierarchy
viewer_below = omega arith
