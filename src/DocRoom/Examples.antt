-- ===== src/DocRoom/Examples.antt =====
-- Sockets 1, 2 and 3 that come and go.
use nexus_ide.Common.{ℕ, ◌≡◌, ◌≢◌, refl, true, none, some, [], ◌∷◌, arith, length}
use nexus_ide.DocRoom.{Room, has_pair, has_number, has_conns, arrive, join, leave, save_ends}
use nexus_ide.DocRoom.Connections.{AllOf, AllDead}
use nexus_ide.DocRoom.OneDocument.{
  Reach, IsOrderly, here, next, arrives, joins, leaves, saved, empty_room, one_document,
}
use nexus_ide.DocRoom.Splits.{late_save_splits}

-- One socket comes and goes; its save ends; another comes.
abbrev reopened : Room
reopened = arrive 2 (save_ends 0 (leave 0 1 (join 0 1 (arrive 1 empty_room))))

reopened_value : reopened ≡ record {
  registered = some 1;
  next_document = 2;
  pending_conns = 1;
  awaiting = (1, 2) ∷ [];
  conns = [];
  saving = [];
  destroyed = 0 ∷ [];
}
unfolding arrive join leave save_ends
reopened_value = refl

abbrev Reach-reopened : Reach empty_room reopened
unfolding arrive join leave save_ends has_pair has_number
Reach-reopened =
    next
      (next
        (next (next (next here (arrives 1 empty_room)) (joins 0 1 (arrive 1 empty_room)))
          (leaves 0 1 (join 0 1 (arrive 1 empty_room))))
        (saved 0 (leave 0 1 (join 0 1 (arrive 1 empty_room))) refl))
      (arrives 2 (save_ends 0 (leave 0 1 (join 0 1 (arrive 1 empty_room)))))

reopened-IsOrderly : IsOrderly Reach-reopened
unfolding arrive join leave save_ends has_pair has_number
reopened-IsOrderly = (((((tt, tt), tt), (refl, λ e. refl)), tt), tt)

one_document_example :
    AllOf reopened.registered reopened.conns
    × AllOf reopened.registered reopened.awaiting
    × (reopened.pending_conns ≡ length reopened.awaiting)
    × AllDead reopened.next_document reopened.registered reopened.destroyed
one_document_example = one_document reopened Reach-reopened reopened-IsOrderly

-- The only socket goes, comes back during the final save and goes again; when the first save has ended a
-- socket opens a new document, while the second save is still going on.
abbrev overlapping : Room
overlapping = join 1 2 (
    arrive 2
      (save_ends 0 (leave 0 1 (join 0 1 (arrive 1 (leave 0 1 (join 0 1 (arrive 1 empty_room))))))))

overlapping_value : overlapping ≡ record {
  registered = some 1;
  next_document = 2;
  pending_conns = 0;
  awaiting = [];
  conns = (1, 2) ∷ [];
  saving = 0 ∷ [];
  destroyed = 0 ∷ [];
}
unfolding arrive join leave save_ends
overlapping_value = refl

-- Socket 1 closes while it waits for its document: the close handler runs when it joins, and once more
-- when a socket has opened the next document meanwhile.
abbrev before_split : Room
before_split =
    leave 0 1 (join 1 2 (arrive 2 (save_ends 0 (leave 0 1 (join 0 1 (arrive 1 empty_room))))))

before_split_value : before_split ≡ record {
  registered = some 1;
  next_document = 2;
  pending_conns = 0;
  awaiting = [];
  conns = (1, 2) ∷ [];
  saving = 0 ∷ [];
  destroyed = 0 ∷ [];
}
unfolding arrive join leave save_ends
before_split_value = refl

late_save_splits_example :
    ((save_ends 0 before_split).registered ≡ none)
    × (has_pair 1 2 (join 2 3 (arrive 3 (save_ends 0 before_split))).conns ≡ true)
    × (has_pair 2 3 (join 2 3 (arrive 3 (save_ends 0 before_split))).conns ≡ true)
    × ◌≢◌ {A = ℕ} 1 2
unfolding has_pair has_conns has_number arrive join leave save_ends
late_save_splits_example = late_save_splits 0 1 2 3 before_split refl refl refl refl (omega arith)
