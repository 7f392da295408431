-- ===== src/DocRoom.antt =====
-- The life of one document room: backend/src/docsRegistry.ts, getOrCreateDoc of
-- backend/src/services/yjsSyncEngine.service.ts and the connections of
-- backend/src/services/websocketServer.service.ts. The name of the room is valid; a document that loads
-- and a final save that ends are events. Eviction is not modelled.
pub mod Connections
pub mod OneDocument
pub mod Splits
mod Examples
use nexus_ide.Common.{
  ℕ, ◌+◌, ◌-◌, Bool, true, false, not, ◌&&◌, ◌||◌, Option, none, some, List, [], ◌∷◌, ◌++◌, ◌==◌,
  if◌then◌else◌,
}

-- `docs` and `pendingConns` at the room's name, and every document that the room has had. A connection
-- is the number of its document and that of its socket.
pub record Room : Type 0 where
  pub registered : Option ℕ
  pub next_document : ℕ
  pub pending_conns : ℕ
  -- Sockets that await `getOrCreateDoc`, with the document of the promise that they hold.
  pub awaiting : List (ℕ × ℕ)
  pub conns : List (ℕ × ℕ)
  -- Documents whose final save a close handler awaits.
  pub saving : List ℕ
  pub destroyed : List ℕ

unfoldable pub has_pair : ℕ → ℕ → List (ℕ × ℕ) → Bool
has_pair d s [] = false
has_pair d s ((e, t) ∷ l) = (e == d && t == s) || has_pair d s l

unfoldable pub remove_pair : ℕ → ℕ → List (ℕ × ℕ) → List (ℕ × ℕ)
remove_pair d s [] = []
remove_pair d s ((e, t) ∷ l) = if e == d && t == s then l else (e, t) ∷ remove_pair d s l

-- `doc.conns.size !== 0`
unfoldable pub has_conns : ℕ → List (ℕ × ℕ) → Bool
has_conns d [] = false
has_conns d ((e, t) ∷ l) = e == d || has_conns d l

unfoldable pub has_number : ℕ → List ℕ → Bool
has_number d [] = false
has_number d (e ∷ l) = e == d || has_number d l

unfoldable pub remove_number : ℕ → List ℕ → List ℕ
remove_number d [] = []
remove_number d (e ∷ l) = if e == d then l else e ∷ remove_number d l

-- `getOrCreateDoc`: the promise that is registered, or a new one, which is.
unfoldable pub register : Option ℕ → ℕ → Room → Room
register (some d) s r = record r { awaiting = r.awaiting ++ (d, s) ∷ [] }
register none s r = record r {
  registered = some r.next_document;
  next_document = r.next_document + 1;
  awaiting = r.awaiting ++ (r.next_document, s) ∷ [];
}

-- A socket that was admitted asks for the document.
unfoldable pub arrive : ℕ → Room → Room
unfolding register
arrive s r = register r.registered s (record r { pending_conns = r.pending_conns + 1 })

-- The promise that the socket holds resolves. For a socket that is closing by then the close handler
-- runs next, and once more when it has closed.
unfoldable pub join : ℕ → ℕ → Room → Room
unfolding remove_pair has_pair
join d s r =
    if has_pair d s r.awaiting
    then record r {
      pending_conns = r.pending_conns - 1;
      awaiting = remove_pair d s r.awaiting;
      conns = r.conns ++ (d, s) ∷ [];
    }
    else r

abbrev pub is_unused : ℕ → Room → Bool
is_unused d r = not (has_conns d r.conns) && r.pending_conns == 0

-- The close handler of a socket that has its document, up to the final save.
unfoldable pub leave : ℕ → ℕ → Room → Room
unfolding remove_pair has_conns
leave d s r =
    let left : Room = record r { conns = remove_pair d s r.conns } in
    if is_unused d left then record left { saving = left.saving ++ d ∷ [] } else left

-- The rest of it: the room may have been entered meanwhile.
unfoldable pub save_ends : ℕ → Room → Room
unfolding remove_number has_conns
save_ends d r =
    let saved : Room = record r { saving = remove_number d r.saving } in
    if is_unused d saved
    then record saved { registered = none; destroyed = saved.destroyed ++ d ∷ [] }
    else saved
