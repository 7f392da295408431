-- ===== src/StreamBuffer/Conservation.antt =====
-- No byte of terminal output is lost, repeated or reordered while the socket stays open.
use nexus_ide.Common.{
  none, ℕ, ◌≡◌, refl, sym, ap, subst, ◌∙◌, true, false, List, [], ◌∷◌, ◌++◌, append_assoc,
  append-nil, arith, length, length-append, take_left, replicate,
}
use nexus_ide.StreamBuffer.{
  TerminalStreamBuffer, Socket, Event, pushed, fired, flushed, cleared, closed, drained, concat,
  buffer_concat, combine, send, send_all, reschedule, schedule, flush, accept, after_accept, push,
  timer_fires, step, run,
}

pub record IsConsistent (b : TerminalStreamBuffer) : Type 0 where
  pub counted : b.current_bytes ≡ length (concat b.chunks)
  pub idle : b.is_flushing ≡ false

-- Every byte that reached the socket or waits for it, in order.
abbrev pub stream : TerminalStreamBuffer → List ℕ
stream b = concat b.ws.sent ++ concat b.chunks

concat-append : (xs ys : List (List ℕ)) → concat (xs ++ ys) ≡ concat xs ++ concat ys
concat-append [] ys = refl
concat-append (x ∷ xs) ys = rw (concat-append xs ys) (sym (append_assoc x (concat xs) (concat ys)))

concat-snoc : (xs : List (List ℕ)) (c : List ℕ) → concat (xs ++ c ∷ []) ≡ concat xs ++ c
concat-snoc xs c = concat-append xs (c ∷ []) ∙ ap (λ t. concat xs ++ t) (append-nil c)

buffer_concat-exact :
    (cs : List (List ℕ)) (n : ℕ) → n ≡ length (concat cs) → buffer_concat cs n ≡ concat cs
unfolding buffer_concat
buffer_concat-exact cs n e = rw e (take_left (concat cs) (replicate (length (concat cs)) 0))

combine-concat : (cs : List (List ℕ)) (n : ℕ) → n ≡ length (concat cs) → combine cs n ≡ concat cs
unfolding combine
combine-concat [] n e = buffer_concat-exact [] n e
combine-concat (c ∷ []) n e = sym (append-nil c)
combine-concat (c ∷ d ∷ cs) n e = buffer_concat-exact (c ∷ d ∷ cs) n e

concat-send : (ws : Socket) (bytes : List ℕ) → concat (send ws bytes).sent ≡ concat ws.sent ++ bytes
unfolding send
concat-send ws [] = sym (append-nil (concat ws.sent))
concat-send ws (x ∷ xs) = concat-snoc ws.sent (x ∷ xs)

-- What a change of the buffer does to its stream while the socket is open.
record Keeps (b c : TerminalStreamBuffer) : Type 0 where
  consistent : IsConsistent c
  is_open : c.ws.is_open ≡ true
  same : stream c ≡ stream b

send-is_open : (ws : Socket) (bytes : List ℕ) → (send ws bytes).is_open ≡ ws.is_open
unfolding send
send-is_open ws [] = refl
send-is_open ws (x ∷ xs) = refl

send_all_open :
    (b : TerminalStreamBuffer)
    → b.ws.is_open ≡ true
    → (send_all b).ws ≡ send b.ws (combine b.chunks b.current_bytes)
unfolding send_all
send_all_open b o = simp o

send_all-Keeps :
    (b : TerminalStreamBuffer) → IsConsistent b → b.ws.is_open ≡ true → Keeps b (send_all b)
unfolding send_all
send_all-Keeps b v o =
    let bytes : List ℕ = combine b.chunks b.current_bytes in
    let ws = send_all_open b o in
    record {
      consistent = record { counted = refl; idle = refl };
      is_open = ap (λ (t : Socket). t.is_open) ws ∙ send-is_open b.ws bytes ∙ o;
      same =
          ap (λ (t : Socket). concat t.sent ++ []) ws
          ∙ append-nil (concat (send b.ws bytes).sent)
          ∙ concat-send b.ws bytes
          ∙ ap (λ t. concat b.ws.sent ++ t) (combine-concat b.chunks b.current_bytes v.counted);
    }

unchanged : (b : TerminalStreamBuffer) → IsConsistent b → b.ws.is_open ≡ true → Keeps b b
unchanged b v o = record { consistent = v; is_open = o; same = refl }

flush-Keeps : (b : TerminalStreamBuffer) → IsConsistent b → b.ws.is_open ≡ true → Keeps b (flush b)
unfolding flush reschedule
flush-Keeps b v o = ground (arith, send_all-Keeps b v o, unchanged b v o)

schedule-Keeps :
    (b : TerminalStreamBuffer) → IsConsistent b → b.ws.is_open ≡ true → Keeps b (schedule b)
unfolding schedule
schedule-Keeps b v o = ground (arith, unchanged b v o)

disarm-Keeps :
    (b : TerminalStreamBuffer)
    → IsConsistent b
    → b.ws.is_open ≡ true
    → Keeps b (flush (record b { flush_timer = none }))
disarm-Keeps b v o =
    let k =
      flush-Keeps (record b { flush_timer = none }) (record { counted = v.counted; idle = v.idle })
        o in
    record { consistent = k.consistent; is_open = k.is_open; same = k.same }

after_accept-Keeps :
    (b : TerminalStreamBuffer) → IsConsistent b → b.ws.is_open ≡ true → Keeps b (after_accept b)
unfolding after_accept
after_accept-Keeps b v o = ground (arith, disarm-Keeps b v o, schedule-Keeps b v o)

accept-IsConsistent :
    (b : TerminalStreamBuffer) (c : List ℕ) → IsConsistent b → IsConsistent (accept b c)
unfolding accept
accept-IsConsistent b c v = record {
  counted =
      rw (concat-snoc b.chunks c) (omega (arith, v.counted, length-append (concat b.chunks) c));
  idle = v.idle;
}

stream-accept : (b : TerminalStreamBuffer) (c : List ℕ) → stream (accept b c) ≡ stream b ++ c
unfolding accept
stream-accept b c =
    ap (λ t. concat b.ws.sent ++ t) (concat-snoc b.chunks c)
    ∙ sym (append_assoc (concat b.ws.sent) (concat b.chunks) c)

-- Events of a session in which the socket stays open and nobody tears the buffer down.
abbrev pub IsLive : Event → Type 0
IsLive cleared = ⊥
IsLive closed = ⊥
IsLive _ = Unit

abbrev pub AllLive : List Event → Type 0
AllLive [] = Unit
AllLive (e ∷ es) = IsLive e × AllLive es

abbrev pub input : Event → List ℕ
input (pushed chunk) = chunk
input _ = []

abbrev pub inputs : List Event → List ℕ
inputs [] = []
inputs (e ∷ es) = input e ++ inputs es

record Advances (b : TerminalStreamBuffer) (bytes : List ℕ) (c : TerminalStreamBuffer)
    : Type 0 where
  consistent : IsConsistent c
  is_open : c.ws.is_open ≡ true
  grows : stream c ≡ stream b ++ bytes

kept : (b c : TerminalStreamBuffer) → Keeps b c → Advances b [] c
kept b c k = record {
  consistent = k.consistent;
  is_open = k.is_open;
  grows = k.same ∙ sym (append-nil (stream b));
}

timer_fires-Keeps :
    (b : TerminalStreamBuffer) → IsConsistent b → b.ws.is_open ≡ true → Keeps b (timer_fires b)
unfolding timer_fires
timer_fires-Keeps b v o = ground (arith, disarm-Keeps b v o, unchanged b v o)

push_open :
    (b : TerminalStreamBuffer) (c : List ℕ)
    → b.ws.is_open ≡ true
    → push b c ≡ after_accept (accept b c)
unfolding push
push_open b c o = simp o

push-Advances :
    (b : TerminalStreamBuffer) (c : List ℕ)
    → IsConsistent b
    → b.ws.is_open ≡ true
    → Advances b c (push b c)
push-Advances b c v o =
    let k = after_accept-Keeps (accept b c) (accept-IsConsistent b c v) (unfold accept in o) in
    subst (Advances b c) (sym (push_open b c o)) (record {
      consistent = k.consistent;
      is_open = k.is_open;
      grows = k.same ∙ stream-accept b c;
    })

step-Advances :
    (b : TerminalStreamBuffer) (e : Event)
    → IsConsistent b
    → b.ws.is_open ≡ true
    → IsLive e
    → Advances b (input e) (step b e)
unfolding step
step-Advances b (pushed c) v o l = push-Advances b c v o
step-Advances b fired v o l = kept b (timer_fires b) (timer_fires-Keeps b v o)
step-Advances b flushed v o l = kept b (flush b) (flush-Keeps b v o)
step-Advances b cleared v o l = absurd l
step-Advances b closed v o l = absurd l
step-Advances b (drained n) v o l = record {
  consistent = record { counted = v.counted; idle = v.idle };
  is_open = o;
  grows = sym (append-nil (stream b));
}

-- From a consistent buffer whose socket is open, through any events but a teardown or a close, the
-- bytes sent followed by the bytes still buffered are what they were, followed by every chunk
-- pushed, in order; and the buffer stays consistent.
pub stream-run :
    (b : TerminalStreamBuffer) (es : List Event)
    → IsConsistent b
    → b.ws.is_open ≡ true
    → AllLive es
    → (stream (run b es) ≡ stream b ++ inputs es) × IsConsistent (run b es)
unfolding run
stream-run b [] v o l = (sym (append-nil (stream b)), v)
stream-run b (e ∷ es) v o l =
    let a = step-Advances b e v o l.0 in
    let (rest, consistent) = stream-run (step b e) es a.consistent a.is_open l.1 in
    (
      rest ∙ ap (λ t. t ++ inputs es) a.grows ∙ append_assoc (stream b) (input e) (inputs es),
      consistent,
    )
