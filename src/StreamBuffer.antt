-- ===== src/StreamBuffer.antt =====
-- backend/src/terminal/terminalStreamBuffer.ts: chunks of terminal output, coalesced into frames.
-- The socket is the environment: its state is set by events, and `send` appends to `sent`.
pub mod Conservation
pub mod Pending
mod Examples
use nexus_ide.Common.{
  ℕ, ◌+◌, ◌*◌, Bool, true, false, ◌||◌, not, Option, none, some, List, [], ◌∷◌, ◌++◌, leb, ltb,
  ◌==◌, if◌then◌else◌, length, take, replicate,
}

pub record Socket : Type 0 where
  pub is_open : Bool
  pub buffered_amount : ℕ
  pub sent : List (List ℕ)

pub record TerminalStreamBuffer : Type 0 where
  pub ws : Socket
  pub max_batch_ms : ℕ
  pub max_batch_bytes : ℕ
  pub max_buffered_amount : ℕ
  pub chunks : List (List ℕ)
  pub current_bytes : ℕ
  -- The delay of the pending timer.
  pub flush_timer : Option ℕ
  pub is_flushing : Bool

abbrev pub or_default : Option ℕ → ℕ → ℕ
or_default none d = d
or_default (some n) d = n

abbrev pub is_some : Option ℕ → Bool
is_some none = false
is_some (some n) = true

unfoldable pub construct : Socket → Option ℕ → Option ℕ → Option ℕ → TerminalStreamBuffer
construct ws ms bytes amount = record {
  ws = ws;
  max_batch_ms = or_default ms 10;
  max_batch_bytes = or_default bytes 16384;
  max_buffered_amount = or_default amount 65536;
  chunks = [];
  current_bytes = 0;
  flush_timer = none;
  is_flushing = false;
}

unfoldable pub clear : TerminalStreamBuffer → TerminalStreamBuffer
clear b = record b { flush_timer = none; chunks = []; current_bytes = 0 }

abbrev pub concat : List (List ℕ) → List ℕ
concat [] = []
concat (c ∷ cs) = c ++ concat cs

-- `Buffer.concat(chunks, total)`: cut, or padded with zeros, to `total` bytes.
unfoldable pub buffer_concat : List (List ℕ) → ℕ → List ℕ
buffer_concat chunks total = take total (concat chunks ++ replicate total 0)

-- `chunks.length === 1 ? chunks[0] : Buffer.concat(chunks, currentBytes)`
unfoldable pub combine : List (List ℕ) → ℕ → List ℕ
unfolding buffer_concat
combine (c ∷ []) total = c
combine chunks total = buffer_concat chunks total

send : Socket → List ℕ → Socket
send ws [] = ws
send ws (byte ∷ bytes) = record ws { sent = ws.sent ++ (byte ∷ bytes) ∷ [] }

send_all : TerminalStreamBuffer → TerminalStreamBuffer
unfolding send combine
send_all b = record b {
  ws = if b.ws.is_open then send b.ws (combine b.chunks b.current_bytes) else b.ws;
  chunks = [];
  current_bytes = 0;
  is_flushing = false;
}

-- Backpressure: try again in twice the window, unless a timer is pending.
reschedule : TerminalStreamBuffer → TerminalStreamBuffer
reschedule b =
    if is_some b.flush_timer then b else record b { flush_timer = some (b.max_batch_ms * 2) }

unfoldable pub flush : TerminalStreamBuffer → TerminalStreamBuffer
unfolding clear send_all reschedule
flush b =
    if b.is_flushing || (length b.chunks == 0)
    then b
    else if not b.ws.is_open
    then clear b
    else if ltb b.max_buffered_amount b.ws.buffered_amount
    then reschedule b
    else send_all b

schedule : TerminalStreamBuffer → TerminalStreamBuffer
schedule b = if is_some b.flush_timer then b else record b { flush_timer = some b.max_batch_ms }

accept : TerminalStreamBuffer → List ℕ → TerminalStreamBuffer
accept b chunk = record b {
  chunks = b.chunks ++ chunk ∷ [];
  current_bytes = b.current_bytes + length chunk;
}

after_accept : TerminalStreamBuffer → TerminalStreamBuffer
unfolding flush schedule
after_accept b =
    if leb b.max_batch_bytes b.current_bytes || (b.max_batch_ms == 0)
    then flush (record b { flush_timer = none })
    else schedule b

unfoldable pub push : TerminalStreamBuffer → List ℕ → TerminalStreamBuffer
unfolding accept after_accept
push b chunk = if not b.ws.is_open then b else after_accept (accept b chunk)

-- The timer's callback, when one is pending.
unfoldable pub timer_fires : TerminalStreamBuffer → TerminalStreamBuffer
unfolding flush
timer_fires b = if is_some b.flush_timer then flush (record b { flush_timer = none }) else b

-- What may happen to a buffer: calls, its timer, and the socket's own changes.
pub data Event : Type 0 where
  pushed : List ℕ → Event
  fired flushed cleared closed : Event
  drained : ℕ → Event

unfoldable pub step : TerminalStreamBuffer → Event → TerminalStreamBuffer
unfolding push timer_fires flush clear
step b (pushed chunk) = push b chunk
step b fired = timer_fires b
step b flushed = flush b
step b cleared = clear b
step b closed = record b { ws = record b.ws { is_open = false } }
step b (drained n) = record b { ws = record b.ws { buffered_amount = n } }

unfoldable pub run : TerminalStreamBuffer → List Event → TerminalStreamBuffer
unfolding step
run b [] = b
run b (e ∷ es) = run (step b e) es
