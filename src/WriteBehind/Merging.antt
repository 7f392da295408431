-- ===== src/WriteBehind/Merging.antt =====
-- What the row of a flush does to a document.
use nexus_ide.Common.{String, ◌≡◌, refl, true, some, List, [], ◌∷◌, ◌++◌, map, length}
use nexus_ide.Lock.{Process}
use nexus_ide.WriteBehind.{
  Bytes, to_hex, BufferServer, Merge, UpdateRow, Store, merged_payload, buffer_key,
  flush_file_buffer,
}
use nexus_ide.WriteBehind.Flush.{IsBufferServer, CanFlush, row, flush_writes}
use nexus_ide.WriteBehind.Hex.{AllUpdates}

-- `apply` is `Y.applyUpdate`.
module _ {D : Type 0} (apply : Bytes → D → D) where
  abbrev pub apply_all : List Bytes → D → D
  apply_all [] d = d
  apply_all (u ∷ us) d = apply_all us (apply u d)

  -- What Yjs documents of a merge: applying it is applying the updates.
  abbrev pub MergesUpdates : Merge → Type 0
  MergesUpdates merge =
      (us : List Bytes) (m : Bytes) (d : D) → merge us ≡ some m → apply m d ≡ apply_all us d

  payload_applies :
      (merge : Merge) (u : Bytes) (us : List Bytes) (m : Bytes) (d : D)
      → MergesUpdates merge
      → merge (u ∷ us) ≡ some m
      → apply (merged_payload merge (u ∷ us)) d ≡ apply_all (u ∷ us) d
  unfolding merged_payload
  payload_applies merge u [] m d law e = refl
  payload_applies merge u (v ∷ vs) m d law e = rw (merged_payload, e) (law (u ∷ v ∷ vs) m d e)

  module _ {R : Type 0} (server : BufferServer R) (merge : Merge)
      (law : IsBufferServer server) where
    -- With the file's lock free in Redis, the pipeline and the INSERT going through, and updates that
    -- merge without an error, a flush adds one row for the file; to any document the update of that row
    -- does what all the buffered updates do, one after the other in the order of the buffer. The flush
    -- returns their number, and leaves the buffer empty.
    pub flush_persists :
        (file : String) (u : Bytes) (us : List Bytes) (m : Bytes) (p : Process R Store)
        → CanFlush server merge law file p
        → p.state.insert_succeeds ≡ true
        → server.lrange p.redis (buffer_key file) ≡ map to_hex (u ∷ us)
        → AllUpdates (u ∷ us)
        → MergesUpdates merge
        → merge (u ∷ us) ≡ some m
        → ((flush_file_buffer server merge file p).0 ≡ length (u ∷ us))
          × ((new : UpdateRow) × ((flush_file_buffer server merge file p).1.state.file_updates
                ≡ p.state.file_updates ++ new ∷ [])
              × (new.file_id ≡ file)
              × ((d : D) → apply new.update d ≡ apply_all (u ∷ us) d))
          × (server.lrange (flush_file_buffer server merge file p).1.redis (buffer_key file) ≡ [])
    flush_persists file u us m p can ok held bytes merges e =
        let (n, rows, empty) = flush_writes server merge law file u us p can ok held bytes in
        (
          n,
          (
            row server merge law file (u ∷ us),
            rows,
            refl,
            λ d. payload_applies merge u us m d merges e,
          ),
          empty,
        )
