-- ===== src/Timeline/Examples.antt =====
-- "ab⏎b" of client 1, with an insertion of client 2, a deleted item and an embed.
use nexus_ide.Common.{ℕ, ◌≡◌, refl, true, false, List, [], ◌∷◌}
use nexus_ide.Timeline.{parts, whole, other, Item, extract_snapshot_from_ytext}
use nexus_ide.Timeline.Runs.{visible, author_in, author_at, IsChained}
use nexus_ide.Timeline.Refinement.{texts, extract_refines}

abbrev items : List Item
items =
    record { deleted = false; content = parts ((97 ∷ []) ∷ (98 ∷ []) ∷ []); client = 1 }
    ∷ record { deleted = false; content = whole (99 ∷ []); client = 2 }
    ∷ record { deleted = true; content = whole (100 ∷ []); client = 2 }
    ∷ record { deleted = false; content = other; client = 3 }
    ∷ record { deleted = false; content = whole (10 ∷ 98 ∷ []); client = 2 }
    ∷ []

three_ranges : extract_snapshot_from_ytext items ≡ (
  97 ∷ 98 ∷ 99 ∷ 10 ∷ 98 ∷ [],
  record { start = 0; end = 2; client_id = 1 }
      ∷ record { start = 2; end = 3; client_id = 2 }
      ∷ record { start = 4; end = 5; client_id = 2 }
      ∷ [],
)
unfolding extract_snapshot_from_ytext
three_ranges = refl

nothing : extract_snapshot_from_ytext [] ≡ ([], [])
unfolding extract_snapshot_from_ytext
nothing = refl

extract_refines_example :
    ((extract_snapshot_from_ytext items).0 ≡ texts (visible items))
    × ((i : ℕ) → author_in (extract_snapshot_from_ytext items).1 i ≡ author_at (visible items) i)
    × IsChained 0 (extract_snapshot_from_ytext items).1
extract_refines_example = extract_refines items
