-- ===== src/Debouncer.antt =====
-- backend/src/services/adaptiveDebouncer.service.ts: when a burst of edits is saved. The clock is an
-- argument, in milliseconds. A delay can be a fraction with one decimal, so deadlines are kept in
-- tenths of a millisecond.
pub mod Deadlines
pub mod Ceiling
mod Examples
use nexus_ide.Common.{
  ℕ, ◌+◌, ◌-◌, ◌*◌, min, Bool, true, false, Option, none, some, List, [], ◌∷◌, ◌++◌, leb, ◌==◌,
  if◌then◌else◌, length, filter,
}

pub record Options : Type 0 where
  pub min_delay_ms : ℕ
  pub base_delay_ms : ℕ
  pub max_burst_delay_ms : ℕ
  pub max_deferral_ms : ℕ
  pub burst_velocity_threshold : ℕ

abbrev pub default_options : Options
default_options = record {
  min_delay_ms = 300;
  base_delay_ms = 800;
  max_burst_delay_ms = 2500;
  max_deferral_ms = 5000;
  burst_velocity_threshold = 5;
}

-- `flushes` lists the times at which `onFlush` was called.
pub record Debouncer : Type 0 where
  pub options : Options
  pub open options use *
  pub edit_timestamps : List ℕ
  -- The deadline of the pending timer, in tenths of a millisecond.
  pub timer : Option ℕ
  pub first_edit_time : ℕ
  pub flushes : List ℕ

unfoldable pub construct : Options → Debouncer
construct options = record {
  options = options;
  edit_timestamps = [];
  timer = none;
  first_edit_time = 0;
  flushes = [];
}

-- `t >= now - 1000`
recent : ℕ → List ℕ → List ℕ
recent now = filter λ t. leb now (t + 1000)

-- Ten times `base + min(1, (velocity - threshold) / 10) * (maxBurst - base)`, the difference
-- multiplied out so that it may be negative.
unfoldable pub delay_tenths : Options → ℕ → ℕ
delay_tenths o velocity =
    if leb o.burst_velocity_threshold velocity
    then (10 - min 10 (velocity - o.burst_velocity_threshold)) * o.base_delay_ms
      + min 10 (velocity - o.burst_velocity_threshold) * o.max_burst_delay_ms
    else 10 * o.base_delay_ms

unfoldable pub flush : Debouncer → ℕ → Debouncer
flush d now = record d {
  edit_timestamps = [];
  timer = none;
  first_edit_time = 0;
  flushes = d.flushes ++ now ∷ [];
}

-- The edit joins the window; the first of a burst starts the deferral.
note_edit : Debouncer → ℕ → Debouncer
unfolding recent
note_edit d now = record d {
  edit_timestamps = recent now (d.edit_timestamps ++ now ∷ []);
  first_edit_time = if length d.edit_timestamps == 0 then now else d.first_edit_time;
}

rearm : Debouncer → ℕ → Debouncer
unfolding delay_tenths
rearm d now = record d {
  timer = some (10 * now + delay_tenths d.options (length d.edit_timestamps));
}

flush_or_rearm : Debouncer → ℕ → Debouncer
unfolding flush rearm
flush_or_rearm d now =
    if leb (d.first_edit_time + d.max_deferral_ms) now then flush d now else rearm d now

unfoldable pub record_edit : Debouncer → ℕ → Debouncer
unfolding note_edit flush_or_rearm
record_edit d now = flush_or_rearm (note_edit d now) now

unfoldable pub cancel : Debouncer → Debouncer
cancel d = record d { edit_timestamps = []; timer = none; first_edit_time = 0 }

abbrev pub is_due : Option ℕ → ℕ → Bool
is_due none now = false
is_due (some deadline) now = leb deadline (10 * now)

-- The event loop at time `now`: a timer that is due calls `flush`.
unfoldable pub tick : Debouncer → ℕ → Debouncer
unfolding flush
tick d now = if is_due d.timer now then flush d now else d

pub record PendingStatus : Type 0 where
  pub is_pending : Bool
  pub velocity : ℕ

abbrev pub is_some : Option ℕ → Bool
is_some none = false
is_some (some n) = true

unfoldable pub get_pending_status : Debouncer → ℕ → PendingStatus
unfolding recent
get_pending_status d now = record {
  is_pending = is_some d.timer;
  velocity = length (recent now d.edit_timestamps);
}

pub data Event : Type 0 where
  edits ticks flush_calls : ℕ → Event
  cancels : Event

unfoldable pub step : Debouncer → Event → Debouncer
unfolding record_edit tick flush cancel
step d (edits now) = record_edit d now
step d (ticks now) = tick d now
step d (flush_calls now) = flush d now
step d cancels = cancel d

unfoldable pub run : Debouncer → List Event → Debouncer
unfolding step
run d [] = d
run d (e ∷ es) = run (step d e) es
