-- ===== src/SharedDoc/Delivery.antt =====
-- Every open socket gets an update or is closed.
use nexus_ide.Common.{
  ℕ, ◌*◌, ◌≤◌, ◌≡◌, refl, true, false, ◌⊎◌, inl, inr, List, [], ◌∷◌, ◌++◌, arith, ltb, Bool-cases,
}
use nexus_ide.SharedDoc.{
  WebSocket, is_live, Connection, Origin, SharedDoc, close, send, send_all,
  backpressure_warn_threshold, backpressure_max_threshold, handle_document_update,
}

module _ {M : Type 0} where
  -- What became of a socket: the message went out last, or the socket is not live any more.
  abbrev pub DeliveredOrClosed : M → WebSocket M → WebSocket M → Type 0
  DeliveredOrClosed m before after =
      ((after.sent ≡ before.sent ++ m ∷ []) × (after.ready_state ≡ before.ready_state))
      ⊎ ((after.sent ≡ before.sent) × (is_live after.ready_state ≡ false))

  -- A live socket that does not throw and has at most 5 MB to send gets the message and stays as it is.
  abbrev pub DeliveredUnlessChoked : M → WebSocket M → WebSocket M → Type 0
  DeliveredUnlessChoked m before after =
      is_live before.ready_state ≡ true
      → before.send_throws ≡ false
      → before.buffered_amount ≤ 5 * 1024 * 1024
      → (after.sent ≡ before.sent ++ m ∷ []) × (after.ready_state ≡ before.ready_state)

  send-DeliveredUnlessChoked :
      (m : M) (c : WebSocket M) → DeliveredUnlessChoked m c (send false m c)
  unfolding send
  send-DeliveredUnlessChoked m c live goes free = rw live (
      rw goes (
        rw
          (let h : ltb backpressure_max_threshold c.buffered_amount ≡ false =
              ground (arith, free) in
            h)
          (refl, refl)))

  send-DeliveredOrClosed : (m : M) (c : WebSocket M) → DeliveredOrClosed m c (send false m c)
  unfolding send close
  send-DeliveredOrClosed m c = elim (Bool-cases (is_live c.ready_state)) [
    | inr dead ↦ rw dead (inr (refl, dead))
    | inl live ↦ rw live (elim (Bool-cases (ltb backpressure_max_threshold c.buffered_amount)) [
      | inl choked ↦ rw choked (inr (refl, refl))
      | inr free ↦ rw free (elim (Bool-cases c.send_throws) [
        | inl throws ↦ rw throws (inr (refl, refl))
        | inr goes ↦ rw goes (inl (refl, refl))
      ])
    ])
  ]

  abbrev pub AllDelivered : M → List (ℕ × Connection M) → List (ℕ × Connection M) → Type 0
  AllDelivered m [] [] = Unit
  AllDelivered m ((i, c) ∷ cs) ((j, d) ∷ ds) =
      (i ≡ j)
      × DeliveredUnlessChoked m c.socket d.socket
      × DeliveredOrClosed m c.socket d.socket
      × (d.controlled ≡ c.controlled)
      × AllDelivered m cs ds
  AllDelivered m _ _ = ⊥

  send_all-AllDelivered :
      (m : M) (cs : List (ℕ × Connection M)) → AllDelivered m cs (send_all false m cs)
  unfolding send_all
  send_all-AllDelivered m [] = tt
  send_all-AllDelivered m ((i, c) ∷ cs) = (
    refl,
    send-DeliveredUnlessChoked m c.socket,
    send-DeliveredOrClosed m c.socket,
    refl,
    send_all-AllDelivered m cs,
  )

  -- An awareness message is dropped on a live socket only above the soft limit, and such a socket is
  -- closed only above the hard limit or where it throws.
  send-awareness :
      (m : M) (c : WebSocket M)
      → is_live c.ready_state ≡ true
      → c.send_throws ≡ false
      → (c.buffered_amount ≤ backpressure_warn_threshold → (send true m c).sent ≡ c.sent ++ m ∷ [])
        × (c.buffered_amount ≤ backpressure_max_threshold
            → (send true m c).ready_state ≡ c.ready_state)
  unfolding send close
  send-awareness m c live goes =
      (λ h. rw live (rw goes (ground arith)), λ h. rw live (rw goes (ground arith)))

module _ {M U : Type 0} (sync_message : U → M) (encode_awareness : List ℕ → M) where
  -- After a document update every live socket of the room that does not throw and has at most 5 MB
  -- waiting has the update as its last message and is as live as before. Every other one has the update
  -- too, or has got nothing and is closing or closed: no open socket silently misses an update. The
  -- sockets are the same ones and control the same clients.
  pub update-AllDelivered :
      (update : U) (origin : Origin) (now : ℕ) (d : SharedDoc M U)
      → AllDelivered
          (sync_message update)
          d.conns
          (handle_document_update sync_message encode_awareness update origin now d).conns
  unfolding handle_document_update
  update-AllDelivered update origin now d = send_all-AllDelivered (sync_message update) d.conns
