-- ===== src/RoleGuard/Decision.antt =====
-- Who is admitted, against a relation that says who should be.
use nexus_ide.Common.{
  ◌≤◌, String, true, Option, none, some, str_eq, eq_iff, ◌≡◌, ◌≢◌, ◌↔◌, refl, inl, inr, arith,
  Bool-cases,
}
use nexus_ide.RoleGuard.{
  CollaboratorRole, viewer, editor, admin, role_hierarchy, WorkspaceAuth, Request, Awaited,
  resolved, rejected, next, truthy, workspace_id_of, check_collaborator, check_workspace, check_ids,
  require_workspace_role,
}

lowest : (m : CollaboratorRole) → role_hierarchy m ≤ role_hierarchy viewer → m ≡ viewer
unfolding role_hierarchy
lowest viewer h = refl
lowest editor h = absurd (omega arith)
lowest admin h = absurd (omega arith)

module _ (find_workspace_auth : String → Awaited (Option WorkspaceAuth))
    (find_collaborator_role : String → String → Awaited (Option CollaboratorRole)) where
  -- The access rules, one by one.
  pub data MayEnter (user ws : String) (m r : CollaboratorRole) : Type 0 where
    owner :
        (auth : WorkspaceAuth)
        → find_workspace_auth ws ≡ resolved (some auth)
        → auth.owner_id ≡ user
        → r ≡ admin
        → MayEnter user ws m r
    collaborator :
        (auth : WorkspaceAuth)
        → find_workspace_auth ws ≡ resolved (some auth)
        → auth.owner_id ≢ user
        → find_collaborator_role ws user ≡ resolved (some r)
        → role_hierarchy m ≤ role_hierarchy r
        → MayEnter user ws m r
    visitor :
        (auth : WorkspaceAuth)
        → find_workspace_auth ws ≡ resolved (some auth)
        → auth.owner_id ≢ user
        → find_collaborator_role ws user ≡ resolved none
        → auth.is_public ≡ true
        → m ≡ viewer
        → r ≡ viewer
        → MayEnter user ws m r

  by_role :
      (user ws : String) (m r : CollaboratorRole) (auth : WorkspaceAuth)
      (a : Awaited (Option CollaboratorRole))
      → find_workspace_auth ws ≡ resolved (some auth)
      → auth.owner_id ≢ user
      → find_collaborator_role ws user ≡ a
      → check_collaborator m auth.is_public a ≡ next r
      → MayEnter user ws m r
  unfolding check_collaborator
  by_role user ws m r auth rejected f o c e = cc
  by_role user ws m r auth (resolved (some q)) f o c e =
      let same : q ≡ r = ground arith in collaborator auth f o (cc) (rw (← same) (ground arith))
  by_role user ws m r auth (resolved none) f o c e =
      visitor auth f o c (ground arith) (lowest m (ground arith)) (ground arith)

  by_owner :
      (user ws : String) (m r : CollaboratorRole) (a : Awaited (Option WorkspaceAuth))
      → find_workspace_auth ws ≡ a
      → check_workspace find_workspace_auth find_collaborator_role m user ws a ≡ next r
      → MayEnter user ws m r
  unfolding check_workspace
  by_owner user ws m r rejected f e = cc
  by_owner user ws m r (resolved none) f e = cc
  by_owner user ws m r (resolved (some auth)) f e = elim (Bool-cases (str_eq auth.owner_id user)) [
    | inl is_owner ↦ owner auth f ((eq_iff auth.owner_id user).0 is_owner) (ground arith)
    | inr other ↦
        by_role user ws m r auth (find_collaborator_role ws user) f
          (λ p. cc (other, (eq_iff auth.owner_id user).1 p)) refl (ground arith)
  ]

  by_rule :
      (user ws : String) (m r : CollaboratorRole)
      → MayEnter user ws m r
      → check_workspace find_workspace_auth find_collaborator_role m user ws
          (find_workspace_auth ws)
        ≡ next r
  unfolding check_workspace
  by_rule user ws m r (owner auth f o e) = rw f (ground (arith, (eq_iff auth.owner_id user).1 o))
  by_rule user ws m r (collaborator auth f o c h) =
      rw f (rw c (unfold check_collaborator in ground (arith, (eq_iff auth.owner_id user).0)))
  by_rule user ws m r (visitor auth f o c p hm hr) =
      rw f (rw c (unfold check_collaborator in ground (arith, (eq_iff auth.owner_id user).0)))

  -- For a request that names a user and a workspace, the middleware passes it on with role `r` exactly
  -- when a rule lets the user in with `r`: the owner as admin, a collaborator of at least the required
  -- rank, or a visitor of a public workspace where no more than viewer is required.
  pub admits_iff :
      (m r : CollaboratorRole) (req : Request) {user ws : String}
      → truthy req.user_id ≡ some user
      → workspace_id_of req ≡ some ws
      → (require_workspace_role find_workspace_auth find_collaborator_role m req ≡ next r)
        ↔ MayEnter user ws m r
  unfolding require_workspace_role check_ids
  admits_iff m r req {user} {ws} u w = (
    λ e. by_owner user ws m r (find_workspace_auth ws) refl (rw (u, w) at e),
    λ rule. rw (u, w) (by_rule user ws m r rule),
  )

  -- A request admitted at a required rank is admitted, with the same role, at every lower one.
  pub weaker_requirement :
      (m n r : CollaboratorRole) (req : Request) {user ws : String}
      → truthy req.user_id ≡ some user
      → workspace_id_of req ≡ some ws
      → role_hierarchy n ≤ role_hierarchy m
      → require_workspace_role find_workspace_auth find_collaborator_role m req ≡ next r
      → require_workspace_role find_workspace_auth find_collaborator_role n req ≡ next r
  weaker_requirement m n r req u w h e =
      (admits_iff n r req u w).1 (weaken ((admits_iff m r req u w).0 e))
    where
      weaken : {user ws : String} → MayEnter user ws m r → MayEnter user ws n r
      weaken (owner auth f o q) = owner auth f o q
      weaken (collaborator auth f o c k) = collaborator auth f o c (omega arith)
      weaken (visitor auth f o c p hm hr) = visitor auth f o c p (lowest n (rw hm at h)) hr
