-- ===== src/DocSocket/Examples.antt =====
-- A document that is a list of updates, with one byte for a varint, and sockets that ask for it.
use nexus_ide.Common.{
  ℕ, String, ◌≡◌, ◌≢◌, refl, true, false, Option, none, some, List, [], ◌∷◌, ◌++◌, arith, ◌==◌,
  str_eq, if◌then◌else◌, Bool-cases, inl, inr,
}
use nexus_ide.RoleGuard.{
  CollaboratorRole, viewer, editor, WorkspaceAuth, Request, Awaited, resolved, truthy,
  workspace_id_of, require_workspace_role,
}
use nexus_ide.SharedDoc.{WebSocket, opened, send}
use nexus_ide.DocSocket.{
  Url, close_with, joins, handshake, authorise, room_workspace, doc_parts, slice_first, to_terminal,
}
use nexus_ide.DocSocket.Serving.{Codec, Served, waiting, joined, on_document}
use nexus_ide.DocSocket.Messages.{WritesAreTagged, run_messages, viewer_reads_only}
use nexus_ide.DocSocket.Access.{
  authorise-require_workspace_role, as_admission, HasEntered, joined_may_enter,
}

abbrev workspace : String
workspace = "00000000-0000-4000-8000-00000000000a"

abbrev file : String
file = "00000000-0000-4000-8000-00000000000F"

abbrev name : String
name = "00000000-0000-4000-8000-00000000000a-00000000-0000-4000-8000-00000000000F"

abbrev url : Url
url = record {
  pathname = "/00000000-0000-4000-8000-00000000000a-00000000-0000-4000-8000-00000000000F";
  token = some "jwt";
}

room_of_name : room_workspace name ≡ some workspace
unfolding room_workspace
room_of_name = refl

room_of_workspace : room_workspace "workspace-00000000-0000-4000-8000-00000000000a" ≡ some workspace
unfolding room_workspace
room_of_workspace = refl

no_room : room_workspace "notes" ≡ none
unfolding room_workspace
no_room = refl

parts_of_name : doc_parts name ≡ some (workspace, file)
unfolding doc_parts
parts_of_name = refl

-- The rooms of a workspace have no file.
no_parts : doc_parts "workspace-00000000-0000-4000-8000-00000000000a" ≡ none
unfolding doc_parts
no_parts = refl

abbrev verify : String → Option String
verify token = if str_eq token "jwt" then some "ann" else none

abbrev find_workspace : String → Awaited (Option WorkspaceAuth)
find_workspace ws =
    if str_eq ws workspace
    then resolved (some (record { owner_id = "bob"; is_public = true }))
    else resolved none

abbrev find_collaborator : String → String → Awaited (Option CollaboratorRole)
find_collaborator ws user = resolved none

ann_joins : handshake verify find_workspace find_collaborator url ≡ joins viewer workspace
unfolding handshake
ann_joins = refl

bad_token :
    handshake verify find_workspace find_collaborator (record url { token = some "old" })
    ≡ close_with 4401
unfolding handshake
bad_token = refl

terminal :
    handshake verify find_workspace find_collaborator (record url { pathname = "/ws/terminal/7" })
    ≡ to_terminal
unfolding handshake
terminal = refl

parts_of_url : doc_parts (slice_first url.pathname) ≡ some (workspace, file)
unfolding slice_first doc_parts
parts_of_url = refl

joined_may_enter_example :
    HasEntered verify find_workspace find_collaborator workspace (some "jwt") viewer
    × (workspace ≡ workspace)
joined_may_enter_example =
    joined_may_enter verify find_workspace find_collaborator url parts_of_url ann_joins

abbrev request : Request
request = record {
  user_id = some "ann";
  params_id = none;
  params_workspace_id = some "00000000-0000-4000-8000-00000000000a";
  body_workspace_id = none;
}

user_of_request : truthy request.user_id ≡ some "ann"
unfolding truthy
user_of_request = refl

workspace_of_request : workspace_id_of request ≡ some workspace
unfolding workspace_id_of
workspace_of_request = refl

authorise-require_workspace_role_example :
    authorise verify find_workspace find_collaborator "ann" workspace
    ≡ as_admission workspace
        (require_workspace_role find_workspace find_collaborator viewer request)
authorise-require_workspace_role_example =
    authorise-require_workspace_role find_workspace find_workspace find_collaborator
      find_collaborator verify request user_of_request workspace_of_request refl refl

abbrev first_byte : List ℕ → Option (ℕ × List ℕ)
first_byte [] = none
first_byte (b ∷ bs) = some (b, bs)

abbrev Document : Type 0
Document = List (List ℕ)

-- A sync message: 0 asks and is answered, 1 and 2 write.
abbrev sync : Option (ℕ × List ℕ) → Document → Document × Option (List ℕ)
sync none d = (d, none)
sync (some (type, payload)) d =
    if type == 0
    then (d, some (1 ∷ []))
    else if type == 1
    then (d ++ payload ∷ [], some [])
    else if type == 2
    then (d ++ payload ∷ [], some [])
    else (d, none)

abbrev codec : Codec Document
codec = record {
  read_var_uint = first_byte;
  read_sync_message = λ bytes d. sync (first_byte bytes) d;
  apply_awareness_update = λ bytes d. d;
}

sync_keeps :
    (o : Option (ℕ × List ℕ)) (d : Document) (t : ℕ) (payload : List ℕ)
    → o ≡ some (t, payload)
    → t ≢ 1
    → t ≢ 2
    → (sync o d).0 ≡ d
sync_keeps o d t payload e p q = rw e (elim (Bool-cases (t == 0)) [
  | inl ask_first ↦ rw ask_first refl
  | inr more ↦ rw more (elim (Bool-cases (t == 1)) [
    | inl one ↦ absurd (p (ground (arith, one)))
    | inr not_one ↦ rw not_one (elim (Bool-cases (t == 2)) [
      | inl two ↦ absurd (q (ground (arith, two)))
      | inr other ↦ rw other refl
    ])
  ])
])

tagged : WritesAreTagged codec (λ d. d)
tagged = (λ rest d t payload e p q. sync_keeps (first_byte rest) d t payload e p q, λ rest d. refl)

abbrev socket : WebSocket (List ℕ)
socket = record {
  ready_state = opened;
  buffered_amount = 0;
  send_throws = false;
  sent = [];
  close_codes = [];
}

abbrev greet : Document → WebSocket (List ℕ) → WebSocket (List ℕ)
greet d ws = record ws { sent = (0 ∷ 0 ∷ []) ∷ [] }

abbrev ask : List ℕ
ask = 0 ∷ 0 ∷ []

abbrev write : List ℕ
write = 0 ∷ 2 ∷ 9 ∷ []

editor_writes :
    run_messages codec (write ∷ []) (on_document codec editor greet [] socket (waiting (ask ∷ [])))
    ≡ joined editor (record {
      doc = (9 ∷ []) ∷ [];
      socket = record socket { sent = (0 ∷ 0 ∷ []) ∷ (0 ∷ 1 ∷ []) ∷ [] };
    })
unfolding run_messages on_document send
editor_writes = refl

viewer_reads_only_example :
    (s : Served Document) × (run_messages codec (write ∷ []) (
        on_document codec viewer greet [] socket
          (run_messages codec (ask ∷ write ∷ []) (waiting [])))
      ≡ joined viewer s)
    × (s.doc ≡ [])
viewer_reads_only_example =
    viewer_reads_only codec (λ d. d) tagged (ask ∷ write ∷ []) (write ∷ []) greet [] socket refl
