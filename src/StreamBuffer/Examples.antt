-- ===== src/StreamBuffer/Examples.antt =====
-- Runs of the terminal stream buffer.
use nexus_ide.Common.{◌≤◌, ◌≡◌, refl, true, inl, none, some, List, [], ◌∷◌, ◌++◌, arith}
use nexus_ide.StreamBuffer.{
  TerminalStreamBuffer, Socket, Event, pushed, fired, drained, construct, run,
}
use nexus_ide.StreamBuffer.Conservation.{IsConsistent, stream, inputs, stream-run}
use nexus_ide.StreamBuffer.Pending.{IsLive, run-IsLive}

abbrev socket : Socket
socket = record { is_open = true; buffered_amount = 0; sent = [] }

abbrev fresh : TerminalStreamBuffer
fresh = construct socket none (some 4) none

abbrev session : List Event
session =
    pushed (1 ∷ 2 ∷ []) ∷ fired ∷ pushed (3 ∷ []) ∷ pushed (4 ∷ 5 ∷ 6 ∷ []) ∷ drained 70000 ∷ []

session_frames : (run fresh session).ws.sent ≡ (1 ∷ 2 ∷ []) ∷ (3 ∷ 4 ∷ 5 ∷ 6 ∷ []) ∷ []
unfolding run construct
session_frames = refl

fresh-IsConsistent : IsConsistent fresh
unfolding construct
fresh-IsConsistent = record { counted = refl; idle = refl }

fresh_open : fresh.ws.is_open ≡ true
unfolding construct
fresh_open = refl

stream-run_example :
    (stream (run fresh session) ≡ stream fresh ++ inputs session) × IsConsistent (run fresh session)
stream-run_example =
    stream-run fresh session fresh-IsConsistent fresh_open (tt, (tt, (tt, (tt, (tt, tt)))))

fresh-IsLive : IsLive fresh
unfolding construct
fresh-IsLive = record { idle = refl; covered = inl refl }

run-IsLive_example : IsLive (run fresh session)
run-IsLive_example = run-IsLive fresh session fresh-IsLive

abbrev waiting : TerminalStreamBuffer
waiting = record fresh { chunks = (7 ∷ []) ∷ []; current_bytes = 1; flush_timer = some 10 }

waiting-IsLive : IsLive waiting
unfolding construct
waiting-IsLive = ground arith

waiting_room : waiting.ws.buffered_amount ≤ waiting.max_buffered_amount
unfolding construct
waiting_room = omega arith
