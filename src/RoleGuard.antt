-- ===== src/RoleGuard.antt =====
-- backend/src/middleware/workspaceAuth.ts: the middleware that admits a request to a workspace. The
-- repository's two queries are parameters, and may throw.
pub mod Decision
mod Examples
use nexus_ide.Common.{
  ℕ, String, Bool, true, false, Option, none, some, ltb, str_eq, if◌then◌else◌, ◌≡◌,
}

pub data CollaboratorRole : Type 0 where
  viewer editor admin : CollaboratorRole

unfoldable pub role_hierarchy : CollaboratorRole → ℕ
role_hierarchy viewer = 1
role_hierarchy editor = 2
role_hierarchy admin = 3

pub record WorkspaceAuth : Type 0 where
  pub owner_id : String
  pub is_public : Bool

-- `req.user?.id`, and the three places of a workspace id.
pub record Request : Type 0 where
  pub user_id : Option String
  pub params_id : Option String
  pub params_workspace_id : Option String
  pub body_workspace_id : Option String

-- An awaited query: its value, or a rejection.
pub data Awaited {ℓ} (A : Type ℓ) : Type ℓ where
  resolved : A → Awaited A
  rejected : Awaited A

-- `status` for an error response, `next` with `req.workspaceRole` for a request let through.
pub data Outcome : Type 0 where
  status : ℕ → Outcome
  next : CollaboratorRole → Outcome

-- A string that a JavaScript test takes for true.
unfoldable pub truthy : Option String → Option String
truthy none = none
truthy (some s) = if str_eq s "" then none else some s

abbrev or_else {ℓ} : {A : Type ℓ} → Option A → Option A → Option A
or_else none b = b
or_else (some a) b = some a

unfoldable pub workspace_id_of : Request → Option String
unfolding truthy
workspace_id_of r =
    or_else (truthy r.params_id)
      (or_else (truthy r.params_workspace_id) (truthy r.body_workspace_id))

-- `collabRole || (is_public ? 'viewer' : null)`
unfoldable pub effective_role : Option CollaboratorRole → Bool → Option CollaboratorRole
effective_role collab is_public = or_else collab (if is_public then some viewer else none)

check_rank : CollaboratorRole → Option CollaboratorRole → Outcome
unfolding role_hierarchy
check_rank min_role none = status 403
check_rank min_role (some role) =
    if ltb (role_hierarchy role) (role_hierarchy min_role) then status 403 else next role

check_collaborator : CollaboratorRole → Bool → Awaited (Option CollaboratorRole) → Outcome
unfolding check_rank effective_role
check_collaborator min_role is_public rejected = status 500
check_collaborator min_role is_public (resolved collab) =
    check_rank min_role (effective_role collab is_public)

module _ (find_workspace_auth : String → Awaited (Option WorkspaceAuth))
    (find_collaborator_role : String → String → Awaited (Option CollaboratorRole)) where
  check_workspace : CollaboratorRole → String → String → Awaited (Option WorkspaceAuth) → Outcome
  unfolding check_collaborator
  check_workspace min_role user ws rejected = status 500
  check_workspace min_role user ws (resolved none) = status 404
  check_workspace min_role user ws (resolved (some auth)) =
      if str_eq auth.owner_id user
      then next admin
      else check_collaborator min_role auth.is_public (find_collaborator_role ws user)

  check_ids : CollaboratorRole → Option String → Option String → Outcome
  unfolding check_workspace
  check_ids min_role none ws = status 401
  check_ids min_role (some user) none = status 400
  check_ids min_role (some user) (some ws) =
      check_workspace min_role user ws (find_workspace_auth ws)

  unfoldable pub require_workspace_role : CollaboratorRole → Request → Outcome
  unfolding check_ids truthy workspace_id_of
  require_workspace_role min_role r = check_ids min_role (truthy r.user_id) (workspace_id_of r)
