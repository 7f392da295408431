-- ===== src/DocSocket/Messages.antt =====
-- What the messages of a socket do to the document.
use nexus_ide.Common.{
  ℕ, ◌≡◌, ◌≢◌, refl, ap, ◌∙◌, true, false, Option, none, some, List, [], ◌∷◌, ◌++◌, append_assoc,
  append-nil, sym, arith, ◌==◌, Bool-cases, inl, inr,
}
use nexus_ide.RoleGuard.{CollaboratorRole, viewer}
use nexus_ide.SharedDoc.{WebSocket, is_live}
use nexus_ide.DocSocket.Serving.{
  Codec, Served, process_message, process_all, Client, waiting, joined, on_message, on_document,
  demux, is_write, reply,
}

-- Only a message that `readSyncMessage` takes for a write changes the text.
abbrev pub WritesAreTagged : {D T : Type 0} → Codec D → (D → T) → Type 0
WritesAreTagged {D} codec text =
    ((rest : List ℕ) (d : D) (sync_type : ℕ) (payload : List ℕ)
      → codec.read_var_uint rest ≡ some (sync_type, payload)
      → sync_type ≢ 1
      → sync_type ≢ 2
      → text (codec.read_sync_message rest d).0 ≡ text d)
    × ((rest : List ℕ) (d : D) → text (codec.apply_awareness_update rest d) ≡ text d)

module _ {D : Type 0} (codec : Codec D) where
  unfoldable pub run_messages : List (List ℕ) → Client D → Client D
  unfolding on_message
  run_messages [] c = c
  run_messages (m ∷ ms) c = run_messages ms (on_message codec m c)

  run-waiting :
      (ms buffer : List (List ℕ)) → run_messages ms (waiting buffer) ≡ waiting (buffer ++ ms)
  unfolding run_messages on_message
  run-waiting [] buffer = ap waiting (sym (append-nil buffer))
  run-waiting (m ∷ ms) buffer =
      run-waiting ms (buffer ++ m ∷ []) ∙ ap waiting (append_assoc buffer (m ∷ []) ms)

  run-joined :
      (role : CollaboratorRole) (ms : List (List ℕ)) (s : Served D)
      → run_messages ms (joined role s) ≡ joined role (process_all codec role ms s)
  unfolding run_messages on_message process_all
  run-joined role [] s = refl
  run-joined role (m ∷ ms) s = run-joined role ms (process_message codec role m s)

  process_all-append :
      (role : CollaboratorRole) (ms ns : List (List ℕ)) (s : Served D)
      → process_all codec role (ms ++ ns) s
        ≡ process_all codec role ns (process_all codec role ms s)
  unfolding process_all
  process_all-append role [] ns s = refl
  process_all-append role (m ∷ ms) ns s =
      process_all-append role ms ns (process_message codec role m s)

  module _ (role : CollaboratorRole) (greet : D → WebSocket (List ℕ) → WebSocket (List ℕ)) (d : D)
      (ws : WebSocket (List ℕ)) (live : is_live ws.ready_state ≡ true) where
    -- The messages of a socket have the same effect whenever its document is ready: those that came
    -- before, kept in the buffer, and those that come after are processed once each, in the order in
    -- which they came, behind the greeting and with the socket's role.
    pub buffered_in_order :
        (early late : List (List ℕ))
        → run_messages late (on_document codec role greet d ws (run_messages early (waiting [])))
          ≡ joined role
              (process_all codec role (early ++ late) (record { doc = d; socket = greet d ws }))
    unfolding on_document
    buffered_in_order early late =
        rw (run-waiting early [], live)
          (run-joined role late
              (process_all codec role early (record { doc = d; socket = greet d ws }))
            ∙ ap (joined role) (
                sym (process_all-append role early late (record { doc = d; socket = greet d ws }))))

  module _ {T : Type 0} (text : D → T) (tagged : WritesAreTagged codec text) where
    reply_doc :
        (d : D) (o : Option (List ℕ)) (ws : WebSocket (List ℕ)) → (reply codec d o ws).doc ≡ d
    unfolding reply
    reply_doc d none ws = refl
    reply_doc d (some written) ws = refl

    sync_keeps :
        (rest : List ℕ) (d : D) (o : Option (ℕ × List ℕ))
        → codec.read_var_uint rest ≡ o
        → is_write codec o ≡ false
        → text (codec.read_sync_message rest d).0 ≡ text d
    unfolding is_write
    sync_keeps rest d none e w = cc
    sync_keeps rest d (some (t, payload)) e w =
        tagged.0 rest d t payload e (λ one. ground (arith, w, one)) (λ two. ground (arith, w, two))

    keeps :
        (type : ℕ) (rest : List ℕ) (s : Served D)
        → text (demux codec viewer (some (type, rest)) s).doc ≡ text s.doc
    unfolding demux
    keeps type rest s = elim (Bool-cases (type == 0)) [
      | inr other ↦ rw other (elim (Bool-cases (type == 1)) [
        | inl awareness ↦ rw awareness (tagged.1 rest s.doc)
        | inr unknown ↦ rw unknown refl
      ])
      | inl sync ↦ elim (Bool-cases (is_write codec (codec.read_var_uint rest))) [
        | inl write ↦ rw (sync, write) refl
        | inr read ↦
            rw (sync, read)
              (ap text (
                  reply_doc (codec.read_sync_message rest s.doc).0
                    (codec.read_sync_message rest s.doc).1 s.socket)
                ∙ sync_keeps rest s.doc (codec.read_var_uint rest) refl read)
      ]
    ]

    demux_keeps :
        (o : Option (ℕ × List ℕ)) (s : Served D) → text (demux codec viewer o s).doc ≡ text s.doc
    unfolding demux
    demux_keeps none s = refl
    demux_keeps (some (type, rest)) s = keeps type rest s

    viewer-process_all :
        (ms : List (List ℕ)) (s : Served D) → text (process_all codec viewer ms s).doc ≡ text s.doc
    unfolding process_all
    viewer-process_all [] s = refl
    viewer-process_all (m ∷ ms) s =
        viewer-process_all ms (process_message codec viewer m s)
        ∙ demux_keeps (codec.read_var_uint m) s

    -- Whatever a viewer sends, before the document is ready and after, the text stays as it was.
    pub viewer_reads_only :
        (early late : List (List ℕ)) (greet : D → WebSocket (List ℕ) → WebSocket (List ℕ)) (d : D)
        (ws : WebSocket (List ℕ))
        → is_live ws.ready_state ≡ true
        → (s : Served D) × (run_messages late
              (on_document codec viewer greet d ws (run_messages early (waiting [])))
            ≡ joined viewer s)
          × (text s.doc ≡ text d)
    viewer_reads_only early late greet d ws live = (
      process_all codec viewer (early ++ late) (record { doc = d; socket = greet d ws }),
      buffered_in_order viewer greet d ws live early late,
      viewer-process_all (early ++ late) (record { doc = d; socket = greet d ws }),
    )
