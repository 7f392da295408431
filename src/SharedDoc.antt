-- ===== src/SharedDoc.antt =====
-- backend/src/services/yjsSyncEngine.service.ts, WSSharedDoc: what a shared document sends to its
-- sockets and to the other pods. Messages, updates and the encodings of y-protocols are parameters;
-- of the document itself only its sockets, its debouncer and what it hands on are here.
pub mod Delivery
pub mod Awareness
mod Examples
use nexus_ide.Common.{
  ℕ, ◌+◌, ◌*◌, String, Bool, true, false, not, ◌&&◌, ◌||◌, Option, none, some, List, [], ◌∷◌, ◌++◌,
  map, ltb, ◌==◌, str_eq, if◌then◌else◌, filter,
}
use nexus_ide.Debouncer.{Debouncer, record_edit}

abbrev pub backpressure_warn_threshold : ℕ
backpressure_warn_threshold = 1 * 1024 * 1024

abbrev pub backpressure_max_threshold : ℕ
backpressure_max_threshold = 5 * 1024 * 1024

pub data ReadyState : Type 0 where
  connecting opened closing closed : ReadyState

-- A WebSocket: what it was given to send, and the codes that it was closed with (none for `close()`).
-- Whether its next `send` throws is part of it.
pub record WebSocket (M : Type 0) : Type 0 where
  pub ready_state : ReadyState
  pub buffered_amount : ℕ
  pub send_throws : Bool
  pub sent : List M
  pub close_codes : List (Option ℕ)

abbrev pub is_live : ReadyState → Bool
is_live connecting = true
is_live opened = true
is_live closing = false
is_live closed = false

pub record AuthorInfo : Type 0 where
  pub user_id : String
  pub username : String
  pub color : String

-- The `user` of an awareness state, each part of which may be missing.
pub record AwarenessUser : Type 0 where
  pub id : Option String
  pub name : Option String
  pub color : Option String

-- A socket of the room, and the client ids that it controls.
pub record Connection (M : Type 0) : Type 0 where
  pub socket : WebSocket M
  pub controlled : List ℕ

pub data Origin : Type 0 where
  anonymous from_redis : Origin
  from_socket : ℕ → Origin

pub record SharedDoc (M U : Type 0) : Type 0 where
  pub conns : List (ℕ × Connection M)
  pub db_loaded : Bool
  pub debouncer : Debouncer
  pub author_map : List (ℕ × AuthorInfo)
  pub pending_awareness : List ℕ
  pub awareness_timer : Bool
  pub last_awareness_origin : Origin
  -- `publishYjsUpdate`, `publishYjsAwareness` and `bufferCrdtUpdate`.
  pub published_updates : List U
  pub published_awareness : List M
  pub buffered_updates : List U

unfoldable pub has_id : ℕ → List ℕ → Bool
has_id i [] = false
has_id i (j ∷ js) = j == i || has_id i js

unfoldable pub add_id : ℕ → List ℕ → List ℕ
unfolding has_id
add_id i js = if has_id i js then js else js ++ i ∷ []

unfoldable pub add_ids : List ℕ → List ℕ → List ℕ
unfolding add_id
add_ids [] js = js
add_ids (i ∷ is) js = add_ids is (add_id i js)

delete_ids : List ℕ → List ℕ → List ℕ
unfolding has_id
delete_ids is js = filter (λ j. not (has_id j is)) js

-- A text that is there and not empty.
present : Option String → Option String
present none = none
present (some s) = if str_eq s "" then none else some s

or_text : Option String → String → String
or_text none d = d
or_text (some s) d = s

unfoldable pub set_author : ℕ → AuthorInfo → List (ℕ × AuthorInfo) → List (ℕ × AuthorInfo)
set_author i a [] = (i, a) ∷ []
set_author i a ((j, b) ∷ m) = if j == i then (j, a) ∷ m else (j, b) ∷ set_author i a m

author_of : Option String → Option String → Option String → Option AuthorInfo
author_of (some id) (some name) color =
    some (record { user_id = id; username = name; color = or_text color "#6366f1" })
author_of _ _ color = none

set_if : ℕ → Option AuthorInfo → List (ℕ × AuthorInfo) → List (ℕ × AuthorInfo)
unfolding set_author
set_if i none m = m
set_if i (some a) m = set_author i a m

known_author : Option AwarenessUser → Option AuthorInfo
unfolding author_of present or_text
known_author none = none
known_author (some u) = author_of (present u.id) (present u.name) (present u.color)

unfoldable pub note_authors :
    (ℕ → Option AwarenessUser) → List ℕ → List (ℕ × AuthorInfo) → List (ℕ × AuthorInfo)
unfolding set_if known_author
note_authors states [] m = m
note_authors states (i ∷ is) m = note_authors states is (set_if i (known_author (states i)) m)

module _ {M : Type 0} where
  unfoldable pub close : Option ℕ → WebSocket M → WebSocket M
  close code c = record c { ready_state = closing; close_codes = c.close_codes ++ code ∷ [] }

  unfoldable pub send : Bool → M → WebSocket M → WebSocket M
  unfolding close
  send is_awareness m c =
      if not (is_live c.ready_state)
      then c
      else if ltb backpressure_max_threshold c.buffered_amount
      then close (some 1008) c
      else if is_awareness && ltb backpressure_warn_threshold c.buffered_amount
      then c
      else if c.send_throws
      then close none c
      else record c { sent = c.sent ++ m ∷ [] }

  -- `this.conns.forEach((_, c) => this.send(c, m, isAwareness))`
  unfoldable pub send_all : Bool → M → List (ℕ × Connection M) → List (ℕ × Connection M)
  unfolding send
  send_all is_awareness m [] = []
  send_all is_awareness m ((i, c) ∷ cs) =
      (i, record c { socket = send is_awareness m c.socket }) ∷ send_all is_awareness m cs

  -- The ids that a socket controls follow what it announces.
  note_controlled : ℕ → List ℕ → List ℕ → List (ℕ × Connection M) → List (ℕ × Connection M)
  unfolding add_ids delete_ids
  note_controlled w added removed [] = []
  note_controlled w added removed ((i, c) ∷ cs) =
      let rest = note_controlled w added removed cs in
      if i == w
      then (i, record c { controlled = delete_ids removed (add_ids added c.controlled) }) ∷ rest
      else (i, c) ∷ rest

  controlled_by : Origin → List ℕ → List ℕ → List (ℕ × Connection M) → List (ℕ × Connection M)
  unfolding note_controlled
  controlled_by anonymous added removed cs = cs
  controlled_by from_redis added removed cs = cs
  controlled_by (from_socket w) added removed cs = note_controlled w added removed cs

abbrev pub is_redis : Origin → Bool
is_redis anonymous = false
is_redis from_redis = true
is_redis (from_socket w) = false

module _ {M U : Type 0} (sync_message : U → M) (encode_awareness : List ℕ → M) where
  -- `handleDocumentUpdate`, at a time of the clock.
  unfoldable pub handle_document_update : U → Origin → ℕ → SharedDoc M U → SharedDoc M U
  unfolding send_all record_edit
  handle_document_update update origin now d = record d {
    conns = send_all false (sync_message update) d.conns;
    published_updates =
        if is_redis origin then d.published_updates else d.published_updates ++ update ∷ [];
    buffered_updates = d.buffered_updates ++ update ∷ [];
    debouncer = if d.db_loaded then record_edit d.debouncer now else d.debouncer;
  }

  unfoldable pub queue_awareness_broadcast : List ℕ → Origin → SharedDoc M U → SharedDoc M U
  unfolding add_ids
  queue_awareness_broadcast changed origin d = record d {
    pending_awareness = add_ids changed d.pending_awareness;
    last_awareness_origin = origin;
    awareness_timer = true;
  }

  -- The handler of the awareness' `update` event.
  unfoldable pub on_awareness_update :
      (ℕ → Option AwarenessUser) → List ℕ → List ℕ → List ℕ → Origin → SharedDoc M U → SharedDoc M U
  unfolding controlled_by note_authors queue_awareness_broadcast
  on_awareness_update states added updated removed origin d =
      queue_awareness_broadcast (added ++ (updated ++ removed)) origin (record d {
        conns = controlled_by origin added removed d.conns;
        author_map = note_authors states (added ++ updated) d.author_map;
      })

  -- `flushAwarenessBroadcast` on the pending clients.
  broadcast_pending : List ℕ → SharedDoc M U → SharedDoc M U
  unfolding send_all
  broadcast_pending [] d = record d { awareness_timer = false }
  broadcast_pending (i ∷ is) d = record d {
    awareness_timer = false;
    pending_awareness = [];
    last_awareness_origin = anonymous;
    conns = send_all true (encode_awareness (i ∷ is)) d.conns;
    published_awareness =
        if is_redis d.last_awareness_origin
        then d.published_awareness
        else d.published_awareness ++ encode_awareness (i ∷ is) ∷ [];
  }

  unfoldable pub flush_awareness_broadcast : SharedDoc M U → SharedDoc M U
  unfolding broadcast_pending
  flush_awareness_broadcast d = broadcast_pending d.pending_awareness d
