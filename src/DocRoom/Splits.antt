-- ===== src/DocRoom/Splits.antt =====
-- What a final save that ends late can do.
use nexus_ide.Common.{
  ℕ, ◌<◌, none, ◌≡◌, ◌≢◌, refl, true, false, List, [], ◌∷◌, ◌++◌, arith, eq_self,
}
use nexus_ide.DocRoom.{
  Room, has_pair, has_number, has_conns, register, arrive, join, is_unused, save_ends,
}

has_pair-append : (d s : ℕ) (l : List (ℕ × ℕ)) → has_pair d s (l ++ (d, s) ∷ []) ≡ true
unfolding has_pair
has_pair-append d s [] = rw (eq_self d, eq_self s) refl
has_pair-append d s ((e, t) ∷ l) = ground (arith, has_pair-append d s l)

has_pair-keep :
    (d s e t : ℕ) (l : List (ℕ × ℕ))
    → has_pair d s l ≡ true
    → has_pair d s (l ++ (e, t) ∷ []) ≡ true
unfolding has_pair
has_pair-keep d s e t [] h = cc
has_pair-keep d s e t ((c, u) ∷ l) h = ground (arith, h, has_pair-keep d s e t l)

-- The final save of a document that nobody uses any more ends, whatever document is registered by then:
-- the entry of the room is deleted. So the next socket gets a new document, and a socket that is
-- connected to another one stays there: the room is at two documents.
pub late_save_splits :
    (d e s t : ℕ) (r : Room)
    → has_number d r.saving ≡ true
    → has_conns d r.conns ≡ false
    → r.pending_conns ≡ 0
    → has_pair e s r.conns ≡ true
    → e < r.next_document
    → ((save_ends d r).registered ≡ none)
      × (has_pair e s (join r.next_document t (arrive t (save_ends d r))).conns ≡ true)
      × (has_pair r.next_document t (join r.next_document t (arrive t (save_ends d r))).conns
          ≡ true)
      × (e ≢ r.next_document)
unfolding save_ends arrive register join
late_save_splits d e s t r awaited unused none_pending here born =
    let gone : is_unused d r ≡ true = ground (arith, unused, none_pending) in
    rw gone (
      refl,
      rw (has_pair-append r.next_document t r.awaiting)
          (has_pair-keep e s r.next_document t r.conns here),
      rw (has_pair-append r.next_document t r.awaiting) (has_pair-append r.next_document t r.conns),
      λ same. absurd (omega arith),
    )
