-- ===== src/StreamBuffer/Pending.antt =====
-- Buffered output is never stranded: a timer is pending whenever an open socket has bytes waiting.
use nexus_ide.Common.{ℕ, ◌≤◌, ◌≡◌, true, false, ◌⊎◌, none, List, [], ◌∷◌, arith, length}
use nexus_ide.StreamBuffer.{
  TerminalStreamBuffer, Event, pushed, fired, flushed, cleared, closed, drained, send_all,
  reschedule, schedule, flush, accept, after_accept, push, timer_fires, clear, step, run, is_some,
}

-- Nothing is buffered, a timer will flush it, or the socket is closed; no flush is under way.
pub record IsLive (b : TerminalStreamBuffer) : Type 0 where
  pub idle : b.is_flushing ≡ false
  pub covered : (length b.chunks ≡ 0) ⊎ ((is_some b.flush_timer ≡ true) ⊎ (b.ws.is_open ≡ false))

flush-IsLive : (b : TerminalStreamBuffer) → b.is_flushing ≡ false → IsLive (flush b)
unfolding flush send_all reschedule clear
flush-IsLive b i = ground arith

after_accept-IsLive : (b : TerminalStreamBuffer) → b.is_flushing ≡ false → IsLive (after_accept b)
unfolding after_accept schedule
after_accept-IsLive b i = ground (arith, flush-IsLive (record b { flush_timer = none }) i)

push-IsLive : (b : TerminalStreamBuffer) (c : List ℕ) → IsLive b → IsLive (push b c)
unfolding push accept
push-IsLive b c v = ground (arith, after_accept-IsLive (accept b c) v.idle)

step-IsLive : (b : TerminalStreamBuffer) (e : Event) → IsLive b → IsLive (step b e)
unfolding step
step-IsLive b (pushed c) v = push-IsLive b c v
step-IsLive b fired v =
    unfold timer_fires in ground (arith, flush-IsLive (record b { flush_timer = none }) v.idle)
step-IsLive b flushed v = flush-IsLive b v.idle
step-IsLive b cleared v = unfold clear in ground arith
step-IsLive b closed v = ground arith
step-IsLive b (drained n) v = ground arith

-- Through any history a live buffer stays live: whenever the socket is open and chunks wait, a
-- timer is pending that will flush them.
pub run-IsLive : (b : TerminalStreamBuffer) (es : List Event) → IsLive b → IsLive (run b es)
unfolding run
run-IsLive b [] v = v
run-IsLive b (e ∷ es) v = run-IsLive (step b e) es (step-IsLive b e v)

-- When a pending timer fires over an open socket that is not backed up, every buffered chunk is sent.
pub timer_drains :
    (b : TerminalStreamBuffer)
    → IsLive b
    → b.ws.is_open ≡ true
    → is_some b.flush_timer ≡ true
    → b.ws.buffered_amount ≤ b.max_buffered_amount
    → (timer_fires b).chunks ≡ []
unfolding timer_fires flush send_all
timer_drains b v o t h = ground arith
