-- ===== src/Debouncer/Deadlines.antt =====
-- The delay, the edit window and the deadline that a burst of edits can reach.
use nexus_ide.Common.{
  ℕ, ◌+◌, ◌-◌, ◌*◌, ◌≤◌, ◌<◌, min, ◌≡◌, refl, ap, false, Option, none, some, List, [], ◌∷◌, ◌++◌,
  arith, length, leb,
}
use nexus_ide.Debouncer.{
  Debouncer, Options, Event, edits, ticks, flush_calls, cancels, delay_tenths, recent, note_edit,
  flush_or_rearm, record_edit, step, run, construct,
}

-- The weighted mean of the two delays, as the base plus a share of the difference.
mean_lem : (k b m : ℕ) → k ≤ 10 → b ≤ m → (10 - k) * b + k * m ≡ 10 * b + k * (m - b)
mean_lem k b m h le =
    let parts : (10 - k) + k ≡ 10 = omega arith in
    let rest : b + (m - b) ≡ m = omega arith in
    omega (arith, ap (λ (t : ℕ). t * b) parts, ap (λ (t : ℕ). k * t) rest)

share_mono : (k l e : ℕ) → k ≤ l → k * e ≤ l * e
share_mono k l e h = grind arith

delay_lem :
    (o : Options) (v : ℕ)
    → o.base_delay_ms ≤ o.max_burst_delay_ms
    → delay_tenths o v
      ≡ 10 * o.base_delay_ms
        + min 10 (v - o.burst_velocity_threshold) * (o.max_burst_delay_ms - o.base_delay_ms)
unfolding delay_tenths
delay_lem o v h =
    let k : ℕ = min 10 (v - o.burst_velocity_threshold) in
    let slow : leb o.burst_velocity_threshold v ≡ false → k ≡ 0 = λ e. ground arith in
    ground (
      arith,
      mean_lem k o.base_delay_ms o.max_burst_delay_ms (omega arith) h,
      slow,
      share_mono k 0 (o.max_burst_delay_ms - o.base_delay_ms),
    )

-- The delay lies between the base delay and the burst delay, the ends included.
pub delay_bounds :
    (o : Options) (v : ℕ)
    → o.base_delay_ms ≤ o.max_burst_delay_ms
    → (10 * o.base_delay_ms ≤ delay_tenths o v) × (delay_tenths o v ≤ 10 * o.max_burst_delay_ms)
delay_bounds o v h =
    let k : ℕ = min 10 (v - o.burst_velocity_threshold) in
    omega (
      arith,
      delay_lem o v h,
      share_mono k 10 (o.max_burst_delay_ms - o.base_delay_ms) (omega arith),
    )

-- Faster typing never shortens the delay.
pub delay_mono :
    (o : Options) (v w : ℕ)
    → o.base_delay_ms ≤ o.max_burst_delay_ms
    → v ≤ w
    → delay_tenths o v ≤ delay_tenths o w
delay_mono o v w h le = omega (
  arith,
  delay_lem o v h,
  delay_lem o w h,
  share_mono (min 10 (v - o.burst_velocity_threshold)) (min 10 (w - o.burst_velocity_threshold))
      (o.max_burst_delay_ms - o.base_delay_ms) (omega arith),
)

recent-snoc : (now : ℕ) (ts : List ℕ) → 0 < length (recent now (ts ++ now ∷ []))
unfolding recent
recent-snoc now [] = ground arith
recent-snoc now (t ∷ ts) = ground (arith, recent-snoc now ts)

-- A pending timer belongs to a burst that has edits, and its deadline comes before the end of the
-- deferral plus the longest delay. Without a timer there is no burst.
abbrev pub Timely : Debouncer → Option ℕ → Type 0
Timely d none = length d.edit_timestamps ≡ 0
Timely d (some deadline) =
    (0 < length d.edit_timestamps)
    × (deadline < 10 * (d.first_edit_time + d.max_deferral_ms + d.max_burst_delay_ms))

flush_or_rearm-Timely :
    (d : Debouncer) (now : ℕ)
    → d.base_delay_ms ≤ d.max_burst_delay_ms
    → 0 < length d.edit_timestamps
    → Timely (flush_or_rearm d now) (flush_or_rearm d now).timer
unfolding flush_or_rearm
flush_or_rearm-Timely d now h e =
    ground (arith, delay_bounds d.options (length d.edit_timestamps) h)

options_kept :
    (d : Debouncer) (e : Event)
    → d.base_delay_ms ≤ d.max_burst_delay_ms
    → (step d e).base_delay_ms ≤ (step d e).max_burst_delay_ms
unfolding step note_edit
options_kept d (edits now) h = ground arith
options_kept d (ticks now) h = ground arith
options_kept d (flush_calls now) h = h
options_kept d cancels h = h

step-Timely :
    (d : Debouncer) (e : Event)
    → d.base_delay_ms ≤ d.max_burst_delay_ms
    → Timely d d.timer
    → Timely (step d e) (step d e).timer
unfolding step
step-Timely d (edits now) h t =
    unfold record_edit note_edit in
    flush_or_rearm-Timely (note_edit d now) now h (recent-snoc now d.edit_timestamps)
step-Timely d (ticks now) h t = ground arith
step-Timely d (flush_calls now) h t = refl
step-Timely d cancels h t = refl

run-Timely :
    (d : Debouncer) (es : List Event)
    → d.base_delay_ms ≤ d.max_burst_delay_ms
    → Timely d d.timer
    → Timely (run d es) (run d es).timer
unfolding run
run-Timely d [] h t = t
run-Timely d (e ∷ es) h t = run-Timely (step d e) es (options_kept d e h) (step-Timely d e h t)

-- After any calls and timer events from a new debouncer whose burst delay is at least its base delay: with no timer pending no edit is
-- tracked, and a pending timer's deadline comes before the burst's first edit plus the deferral
-- limit plus the burst delay.
pub run-construct-Timely :
    (o : Options) (es : List Event)
    → o.base_delay_ms ≤ o.max_burst_delay_ms
    → Timely (run (construct o) es) (run (construct o) es).timer
unfolding construct
run-construct-Timely o es h = run-Timely _ es h refl
