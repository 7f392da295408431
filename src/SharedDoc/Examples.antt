-- ===== src/SharedDoc/Examples.antt =====
-- A room of two sockets, one of them choked.
use nexus_ide.Common.{ℕ, ◌≡◌, refl, true, false, Option, none, some, List, [], ◌∷◌, ◌++◌}
use nexus_ide.Debouncer.{construct, default_options}
use nexus_ide.SharedDoc.{
  opened, closing, WebSocket, AwarenessUser, anonymous, from_redis, from_socket, SharedDoc,
  handle_document_update, flush_awareness_broadcast,
}
use nexus_ide.SharedDoc.Delivery.{AllDelivered, update-AllDelivered}
use nexus_ide.SharedDoc.Awareness.{Change, run_changes, redis_last_suppresses}

abbrev socket : ℕ → WebSocket (List ℕ)
socket buffered = record {
  ready_state = opened;
  buffered_amount = buffered;
  send_throws = false;
  sent = [];
  close_codes = [];
}

abbrev room : SharedDoc (List ℕ) ℕ
room = record {
  conns =
      (1, record { socket = socket 0; controlled = 7 ∷ [] })
      ∷ (2, record { socket = socket 9000000; controlled = [] })
      ∷ [];
  db_loaded = true;
  debouncer = construct default_options;
  author_map = [];
  pending_awareness = [];
  awareness_timer = false;
  last_awareness_origin = anonymous;
  published_updates = [];
  published_awareness = [];
  buffered_updates = [];
}

abbrev wrap : ℕ → List ℕ
wrap u = u ∷ []

abbrev same_ids : List ℕ → List ℕ
same_ids ids = ids

abbrev no_state : ℕ → Option AwarenessUser
no_state i = none

update_sent :
    (handle_document_update wrap same_ids 5 anonymous 100 room).conns
    ≡ (1, record { socket = record (socket 0) { sent = (5 ∷ []) ∷ [] }; controlled = 7 ∷ [] })
      ∷ (
        2,
        record {
          socket = record (socket 9000000) { ready_state = closing; close_codes = some 1008 ∷ [] };
          controlled = [];
        },
      )
      ∷ []
unfolding handle_document_update
update_sent = refl

update-AllDelivered_example :
    AllDelivered
      (wrap 5)
      room.conns
      (handle_document_update wrap same_ids 5 from_redis 100 room).conns
update-AllDelivered_example = update-AllDelivered wrap same_ids 5 from_redis 100 room

abbrev moves : List Change
moves =
    record { added = []; updated = 7 ∷ []; removed = []; origin = from_socket 1 }
    ∷ record { added = 8 ∷ []; updated = []; removed = []; origin = anonymous }
    ∷ []

abbrev peer : Change
peer = record { added = []; updated = 9 ∷ []; removed = []; origin = from_redis }

redis_last_suppresses_example :
    (flush_awareness_broadcast wrap same_ids
      (run_changes wrap same_ids no_state (moves ++ peer ∷ []) room)).published_awareness
    ≡ []
redis_last_suppresses_example = redis_last_suppresses wrap same_ids no_state moves peer room refl
