-- ===== src/SharedDoc/Awareness.antt =====
-- The batch of awareness changes.
use nexus_ide.Common.{
  ℕ, ◌≡◌, refl, ap, ◌∙◌, Bool, true, false, ◌||◌, Option, List, [], ◌∷◌, ◌++◌, arith, ◌==◌,
  Bool-cases, inl, inr,
}
use nexus_ide.SharedDoc.{
  AwarenessUser, Origin, from_redis, SharedDoc, has_id, add_id, add_ids, send_all,
  on_awareness_update, queue_awareness_broadcast, broadcast_pending, flush_awareness_broadcast,
}

has_id-append : (i : ℕ) (js ks : List ℕ) → has_id i (js ++ ks) ≡ (has_id i js || has_id i ks)
unfolding has_id
has_id-append i [] ks = refl
has_id-append i (j ∷ js) ks = ground (arith, has_id-append i js ks)

has_id-add : (i j : ℕ) (js : List ℕ) → has_id i (add_id j js) ≡ (has_id i js || j == i)
unfolding add_id has_id
has_id-add i j js = elim (Bool-cases (j == i)) [
  | inl same ↦ ground (
    arith,
    same,
    has_id-append i js (j ∷ []),
    ap (λ k. has_id k js) (let e : j ≡ i = ground arith in e),
  )
  | inr other ↦ ground (arith, other, has_id-append i js (j ∷ []))
]

has_id-add_ids : (i : ℕ) (is js : List ℕ) → has_id i (add_ids is js) ≡ (has_id i js || has_id i is)
unfolding add_ids has_id
has_id-add_ids i [] js = ground arith
has_id-add_ids i (j ∷ is) js = ground (arith, has_id-add_ids i is (add_id j js), has_id-add i j js)

-- One event of the awareness.
pub record Change : Type 0 where
  pub added : List ℕ
  pub updated : List ℕ
  pub removed : List ℕ
  pub origin : Origin

abbrev pub ids_of : Change → List ℕ
ids_of c = c.added ++ (c.updated ++ c.removed)

abbrev pub is_changed : ℕ → List Change → Bool
is_changed i [] = false
is_changed i (c ∷ cs) = has_id i (ids_of c) || is_changed i cs

module _ {M U : Type 0} (sync_message : U → M) (encode_awareness : List ℕ → M)
    (states : ℕ → Option AwarenessUser) where
  unfoldable pub run_changes : List Change → SharedDoc M U → SharedDoc M U
  unfolding on_awareness_update
  run_changes [] d = d
  run_changes (c ∷ cs) d = run_changes cs (
      on_awareness_update sync_message encode_awareness states c.added c.updated c.removed c.origin
        d)

  pending-run :
      (i : ℕ) (cs : List Change) (d : SharedDoc M U)
      → has_id i (run_changes cs d).pending_awareness
        ≡ (has_id i d.pending_awareness || is_changed i cs)
  unfolding run_changes on_awareness_update queue_awareness_broadcast
  pending-run i [] d = ground arith
  pending-run i (c ∷ cs) d =
      pending-run i cs (
        on_awareness_update sync_message encode_awareness states c.added c.updated c.removed
          c.origin d)
      ∙ ground (arith, has_id-add_ids i (ids_of c) d.pending_awareness)

  flush_conns :
      (ids : List ℕ) (i : ℕ) (d : SharedDoc M U)
      → has_id i ids ≡ true
      → (broadcast_pending sync_message encode_awareness ids d).conns
        ≡ send_all true (encode_awareness ids) d.conns
  unfolding broadcast_pending has_id
  flush_conns [] i d h = cc
  flush_conns (j ∷ js) i d h = refl

  -- The message that the timer sends to every socket of the room is about exactly the clients that
  -- some event since the last one added, updated or removed, however many events were batched.
  pub batch_complete :
      (i : ℕ) (cs : List Change) (d : SharedDoc M U)
      → d.pending_awareness ≡ []
      → is_changed i cs ≡ true
      → ((j : ℕ) → has_id j (run_changes cs d).pending_awareness ≡ is_changed j cs)
        × ((flush_awareness_broadcast sync_message encode_awareness (run_changes cs d)).conns
            ≡ send_all true
                (encode_awareness (run_changes cs d).pending_awareness)
                (run_changes cs d).conns)
  unfolding flush_awareness_broadcast has_id
  batch_complete i cs d none_yet h =
      let covers : (j : ℕ) → has_id j (run_changes cs d).pending_awareness ≡ is_changed j cs =
        λ j. pending-run j cs d ∙ rw none_yet refl in
      (covers, flush_conns (run_changes cs d).pending_awareness i (run_changes cs d) (covers i ∙ h))

  run-append :
      (cs : List Change) (c : Change) (d : SharedDoc M U)
      → run_changes (cs ++ c ∷ []) d ≡ run_changes (c ∷ []) (run_changes cs d)
  unfolding run_changes
  run-append [] c d = refl
  run-append (b ∷ cs) c d = run-append cs c (
      on_awareness_update sync_message encode_awareness states b.added b.updated b.removed b.origin
        d)

  published-run :
      (cs : List Change) (d : SharedDoc M U)
      → (run_changes cs d).published_awareness ≡ d.published_awareness
  unfolding run_changes on_awareness_update queue_awareness_broadcast
  published-run [] d = refl
  published-run (c ∷ cs) d = published-run cs (
      on_awareness_update sync_message encode_awareness states c.added c.updated c.removed c.origin
        d)

  suppressed :
      (ids : List ℕ) (d : SharedDoc M U)
      → d.last_awareness_origin ≡ from_redis
      → (broadcast_pending sync_message encode_awareness ids d).published_awareness
        ≡ d.published_awareness
  unfolding broadcast_pending
  suppressed [] d e = refl
  suppressed (i ∷ is) d e = rw e refl

  -- Where the last event of a batch came from another pod, nothing of the batch is published, the
  -- changes of this pod's own clients before it included.
  pub redis_last_suppresses :
      (cs : List Change) (c : Change) (d : SharedDoc M U)
      → c.origin ≡ from_redis
      → (flush_awareness_broadcast sync_message encode_awareness
          (run_changes (cs ++ c ∷ []) d)).published_awareness
        ≡ d.published_awareness
  unfolding flush_awareness_broadcast run_changes on_awareness_update queue_awareness_broadcast
  redis_last_suppresses cs c d e =
      let before : SharedDoc M U = run_changes cs d in
      rw (run-append cs c d) (
        suppressed (run_changes (c ∷ []) before).pending_awareness (run_changes (c ∷ []) before) e
        ∙ published-run cs d)
