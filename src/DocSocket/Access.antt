-- ===== src/DocSocket/Access.antt =====
-- The handshake beside the middleware of the HTTP routes, and room names.
use Prim.Native.Char.{code}
use nexus_ide.Common.{
  ℕ, zero, suc, ◌≤◌, String, ◌≡◌, refl, ◌∙◌, true, false, ◌&&◌, ◌||◌, Option, none, some, arith,
  ◌==◌, str_eq, eq_iff, Bool-cases, inl, inr, if◌then◌else◌,
}
use nexus_ide.RoleGuard.{
  CollaboratorRole, viewer, editor, admin, WorkspaceAuth, Awaited, resolved, rejected, Request,
  Outcome, status, next, truthy, workspace_id_of, require_workspace_role, role_hierarchy,
  effective_role,
}
use nexus_ide.RoleGuard.Decision.{MayEnter}
use nexus_ide.DocSocket.{
  Admission, close_with, joins, authorise, by_workspace, collaborator_role, in_room, by_name,
  verified, with_token, starts_with, slice_first, handshake, hex_prefix, all_dot, room_workspace,
  doc_parts, is_hex_dash, is_dot, Url, cons_first, at_end, parts_of, with_tail, second_part,
}

-- The close code that stands for a status.
abbrev pub close_code : ℕ → ℕ
close_code n = if n == 404 then 4044 else if n == 403 then 4403 else 4500

abbrev pub as_admission : String → Outcome → Admission
as_admission ws (status n) = close_with (close_code n)
as_admission ws (next role) = joins role ws

-- The handshake asks the database, the middleware the repository, which keeps what it read for a while.
module _ (find_workspace cached_workspace : String → Awaited (Option WorkspaceAuth))
    (find_collaborator cached_collaborator : String
      → String
      → Awaited (Option CollaboratorRole)) where
  -- For a request that names a user and a workspace, and where the cached answers of the repository about
  -- them are what the database answers, the WebSocket handshake decides about that user and workspace as
  -- the middleware does where viewers may pass: the same role, or the close code 4044, 4403 or 4500 for
  -- the status 404, 403 or 500.
  pub authorise-require_workspace_role :
      (verify : String → Option String) (req : Request) {user ws : String}
      → truthy req.user_id ≡ some user
      → workspace_id_of req ≡ some ws
      → cached_workspace ws ≡ find_workspace ws
      → cached_collaborator ws user ≡ find_collaborator ws user
      → authorise verify find_workspace find_collaborator user ws
        ≡ as_admission ws (require_workspace_role cached_workspace cached_collaborator viewer req)
  unfolding authorise require_workspace_role role_hierarchy effective_role
  authorise-require_workspace_role verify req {user} {ws} u w fresh same =
      rw (u, w) (ground (arith, fresh, same))

hex_dash_dot : (c : ℕ) → is_hex_dash c ≡ true → is_dot c ≡ true
hex_dash_dot c h = ground arith

all_dot-hex_prefix : (n : ℕ) (s p : String) → hex_prefix n s ≡ some (p, "") → all_dot s ≡ true
unfolding hex_prefix all_dot
all_dot-hex_prefix zero s p e = rw (let empty : s ≡ "" = cc in empty) refl
all_dot-hex_prefix (suc n) String.[] p e = refl
all_dot-hex_prefix (suc n) (String.◌∷◌ c s) p e = elim (Bool-cases (is_hex_dash (code c))) [
  | inr other ↦ cc (rw other at e)
  | inl hex ↦ first hex (λ q. all_dot-hex_prefix n s q) (hex_prefix n s) refl (rw hex at e)
]
  where
    first :
        is_hex_dash (code c) ≡ true
        → ((q : String) → hex_prefix n s ≡ some (q, "") → all_dot s ≡ true)
        → (o : Option (String × String)) → hex_prefix n s ≡ o
        → cons_first c o ≡ some (p, "")
        → (is_dot (code c) && all_dot s) ≡ true
    first hex rec none f g = cc
    first hex rec (some (q, rest)) f g =
        rw (hex_dash_dot (code c) hex) (rec q (f ∙ ground (arith, g)))

ends : (o : Option (String × String)) {f : String} → at_end o ≡ some f → o ≡ some (f, "")
unfolding at_end
ends none e = cc
ends (some (s, String.[])) e = ground arith
ends (some (s, String.◌∷◌ c rest)) e = cc

tail_of_parts :
    (o : Option (String × String)) {ws file : String}
    → parts_of o ≡ some (ws, file)
    → with_tail o ≡ some ws
unfolding parts_of with_tail
tail_of_parts none e = cc
tail_of_parts (some (p, String.[])) e = cc
tail_of_parts (some (p, String.◌∷◌ c rest)) {ws} {file} e = elim (Bool-cases (code c == 45)) [
  | inr other ↦ cc (rw other at e)
  | inl dash ↦ second dash (at_end (hex_prefix 36 rest)) refl (rw dash at e)
]
  where
    second :
        (code c == 45) ≡ true
        → (o : Option String) → at_end (hex_prefix 36 rest) ≡ o
        → second_part p o ≡ some (ws, file)
        → (if code c == 45 && all_dot rest then some p else none) ≡ some ws
    second dash none f g = cc
    second dash (some t) f g =
        rw (dash, all_dot-hex_prefix 36 rest t (ends (hex_prefix 36 rest) f)) (ground (arith, g))

-- A name that `getOrCreateDoc` takes apart into a workspace and a file is, for the handshake, a room of
-- that same workspace.
pub doc_room :
    (name : String) {ws file : String}
    → doc_parts name ≡ some (ws, file)
    → room_workspace name ≡ some ws
unfolding doc_parts room_workspace
doc_room name e = rw (tail_of_parts (hex_prefix 36 name) e) refl

lowest_rank : (role : CollaboratorRole) → role_hierarchy viewer ≤ role_hierarchy role
unfolding role_hierarchy
lowest_rank viewer = omega arith
lowest_rank editor = omega arith
lowest_rank admin = omega arith

module _ (verify : String → Option String)
    (find_workspace : String → Awaited (Option WorkspaceAuth))
    (find_collaborator : String → String → Awaited (Option CollaboratorRole)) where
  joins_by_role :
      (user ws : String) (auth : WorkspaceAuth) (o : Awaited (Option CollaboratorRole))
      {role : CollaboratorRole} {ws' : String}
      → find_workspace ws ≡ resolved (some auth)
      → str_eq auth.owner_id user ≡ false
      → find_collaborator ws user ≡ o
      → collaborator_role ws auth.is_public o ≡ joins role ws'
      → MayEnter find_workspace find_collaborator user ws viewer role × (ws' ≡ ws)
  unfolding collaborator_role
  joins_by_role user ws auth rejected f other c e = cc
  joins_by_role user ws auth (resolved (some r)) f other c e = (
    MayEnter.collaborator auth f (λ p. cc (other, (eq_iff auth.owner_id user).1 p))
        (ground (arith, c, e)) (lowest_rank _),
    ground arith,
  )
  joins_by_role user ws auth (resolved none) f other c e = elim (Bool-cases auth.is_public) [
    | inl open_to_all ↦ (
      MayEnter.visitor auth f (λ p. cc (other, (eq_iff auth.owner_id user).1 p)) c open_to_all refl
          (ground (arith, open_to_all, e)),
      ground (arith, open_to_all, e),
    )
    | inr closed ↦ cc (rw closed at e)
  ]

  joins_by_rule :
      (user ws : String) (o : Awaited (Option WorkspaceAuth)) {role : CollaboratorRole}
      {ws' : String}
      → find_workspace ws ≡ o
      → by_workspace verify find_workspace find_collaborator user ws o ≡ joins role ws'
      → MayEnter find_workspace find_collaborator user ws viewer role × (ws' ≡ ws)
  unfolding by_workspace
  joins_by_rule user ws rejected f e = cc
  joins_by_rule user ws (resolved none) f e = cc
  joins_by_rule user ws (resolved (some auth)) {role} {ws'} f e =
      elim (Bool-cases (str_eq auth.owner_id user)) [
        | inl owns ↦ (
          MayEnter.owner auth f ((eq_iff auth.owner_id user).0 owns) (ground (arith, owns, e)),
          ground (arith, owns, e),
        )
        | inr other ↦
            joins_by_role user ws auth (find_collaborator ws user) f other refl (rw other at e)
      ]

  abbrev pub HasEntered : String → Option String → CollaboratorRole → Type 0
  HasEntered ws token role =
      (text : String) × (user : String) × (token ≡ some text)
      × (verify text ≡ some user)
      × MayEnter find_workspace find_collaborator user ws viewer role

  joins_by_name :
      (user name : String) {ws ws' : String} {role : CollaboratorRole}
      → room_workspace name ≡ some ws
      → by_name verify find_workspace find_collaborator user name ≡ joins role ws'
      → MayEnter find_workspace find_collaborator user ws viewer role × (ws' ≡ ws)
  unfolding by_name in_room authorise
  joins_by_name user name {ws} {ws'} {role} r h =
      elim (Bool-cases (str_eq name "" || str_eq name "default")) [
        | inl bad ↦ cc (rw bad at h)
        | inr good ↦ joins_by_rule user ws (find_workspace ws) refl (rw r at (rw good at h))
      ]

  joins_verified :
      (name token : String) (o : Option String) {ws ws' : String} {role : CollaboratorRole}
      → room_workspace name ≡ some ws
      → verify token ≡ o
      → verified verify find_workspace find_collaborator name o ≡ joins role ws'
      → HasEntered ws (some token) role × (ws' ≡ ws)
  unfolding verified
  joins_verified name token none r v h = cc
  joins_verified name token (some user) r v h =
      let entered = joins_by_name user name r h in ((token, user, refl, v, entered.0), entered.1)

  joins_with_token :
      (name : String) (token : Option String) {ws ws' : String} {role : CollaboratorRole}
      → room_workspace name ≡ some ws
      → with_token verify find_workspace find_collaborator name token ≡ joins role ws'
      → HasEntered ws token role × (ws' ≡ ws)
  unfolding with_token
  joins_with_token name none r h = cc
  joins_with_token name (some token) r h = elim (Bool-cases (str_eq token "")) [
    | inl empty ↦ cc (rw empty at h)
    | inr full ↦ joins_verified name token (verify token) r refl (rw full at h)
  ]

  -- A socket that joins a document that has a workspace and a file has a token that names a user, and
  -- the access rules of that workspace let the user in with the role that the socket joins with.
  pub joined_may_enter :
      (url : Url) {ws file ws' : String} {role : CollaboratorRole}
      → doc_parts (slice_first url.pathname) ≡ some (ws, file)
      → handshake verify find_workspace find_collaborator url ≡ joins role ws'
      → HasEntered ws url.token role × (ws' ≡ ws)
  unfolding handshake
  joined_may_enter url d h =
      elim (Bool-cases
        (starts_with "/terminal/" url.pathname || starts_with "/ws/terminal/" url.pathname)) [
          | inl terminal ↦ cc (rw terminal at h)
          | inr other ↦
              elim (Bool-cases
                (starts_with "/ws/lsp/" url.pathname || starts_with "/lsp/" url.pathname)) [
                  | inl lsp ↦ cc (rw lsp at (rw other at h))
                  | inr room ↦
                      joins_with_token (slice_first url.pathname) url.token
                        (doc_room (slice_first url.pathname) d) (rw room at (rw other at h))
                ]
        ]
