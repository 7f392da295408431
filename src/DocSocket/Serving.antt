-- ===== src/DocSocket/Serving.antt =====
-- backend/src/services/websocketServer.service.ts: the messages of a socket, before its document is there
-- and after. The codecs of lib0 and y-protocols are parameters.
use nexus_ide.Common.{
  ℕ, Bool, true, false, ◌&&◌, ◌||◌, Option, none, some, List, [], ◌∷◌, ◌++◌, ltb, ◌==◌,
  if◌then◌else◌, length,
}
use nexus_ide.RoleGuard.{CollaboratorRole, viewer, editor, admin}
use nexus_ide.SharedDoc
use nexus_ide.SharedDoc.{WebSocket}

-- `lib0` and `y-protocols`, at one socket of one document. The first varint of a message, and what
-- follows it; none where reading throws. What `readSyncMessage` makes of the document, with what it
-- wrote, none where it throws.
pub record Codec (D : Type 0) : Type 0 where
  pub read_var_uint : List ℕ → Option (ℕ × List ℕ)
  pub read_sync_message : List ℕ → D → D × Option (List ℕ)
  pub apply_awareness_update : List ℕ → D → D

-- What a socket's messages change: the document, and the socket itself.
pub record Served (D : Type 0) : Type 0 where
  pub doc : D
  pub socket : WebSocket (List ℕ)

-- A socket before its document is there, with `messageBuffer`, and after.
pub data Client (D : Type 0) : Type 0 where
  waiting : List (List ℕ) → Client D
  joined : CollaboratorRole → Served D → Client D
  dropped : Client D

module _ {D : Type 0} (codec : Codec D) where
  open codec use {read_var_uint, read_sync_message, apply_awareness_update}

  pub is_viewer : CollaboratorRole → Bool
  is_viewer viewer = true
  is_viewer editor = false
  is_viewer admin = false

  unfoldable pub is_write : Option (ℕ × List ℕ) → Bool
  is_write none = true
  is_write (some (sync_type, rest)) = sync_type == 1 || sync_type == 2

  -- `writeVarUint(encoder, 0)` stands before what is written.
  unfoldable pub reply : D → Option (List ℕ) → WebSocket (List ℕ) → Served D
  reply d none ws = record { doc = d; socket = ws }
  reply d (some written) ws = record {
    doc = d;
    socket = if ltb 1 (length (0 ∷ written)) then SharedDoc.send false (0 ∷ written) ws else ws;
  }

  unfoldable pub dispatch : ℕ → List ℕ → Served D → Served D
  unfolding reply
  dispatch type rest s =
      if type == 0
      then (let (d, written) = read_sync_message rest s.doc in reply d written s.socket)
      else if type == 1
      then record s { doc = apply_awareness_update rest s.doc }
      else s

  -- A write of a viewer, and a message that cannot be read, goes no further.
  unfoldable pub demux : CollaboratorRole → Option (ℕ × List ℕ) → Served D → Served D
  unfolding is_viewer is_write dispatch
  demux role none s = s
  demux role (some (type, rest)) s =
      if is_viewer role && (type == 0 && is_write (read_var_uint rest))
      then s
      else dispatch type rest s

  unfoldable pub process_message : CollaboratorRole → List ℕ → Served D → Served D
  unfolding demux
  process_message role message s = demux role (read_var_uint message) s

  unfoldable pub process_all : CollaboratorRole → List (List ℕ) → Served D → Served D
  unfolding process_message
  process_all role [] s = s
  process_all role (m ∷ ms) s = process_all role ms (process_message role m s)

  unfoldable pub on_message : List ℕ → Client D → Client D
  unfolding process_message
  on_message m (waiting buffer) = waiting (buffer ++ m ∷ [])
  on_message m (joined role s) = joined role (process_message role m s)
  on_message m dropped = dropped

  -- The document is there: `greet` stands for the two messages that are sent first.
  unfoldable pub on_document :
      CollaboratorRole
      → (D → WebSocket (List ℕ) → WebSocket (List ℕ))
      → D
      → WebSocket (List ℕ)
      → Client D
      → Client D
  unfolding process_all
  on_document role greet d ws (waiting buffer) =
      if SharedDoc.is_live ws.ready_state
      then joined role (process_all role buffer (record { doc = d; socket = greet d ws }))
      else dropped
  on_document role greet d ws (joined r s) = joined r s
  on_document role greet d ws dropped = dropped
