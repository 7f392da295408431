-- ===== src/Debouncer/Ceiling.antt =====
-- The deferral limit is tested at edits only, so a save can come after it.
use nexus_ide.Common.{ℕ, ◌+◌, ◌*◌, ◌≤◌, ◌<◌, ◌≡◌, none, some, [], ◌∷◌, ◌++◌, arith, length}
use nexus_ide.Debouncer.{Debouncer, record_edit, note_edit, delay_tenths}
use nexus_ide.Debouncer.Deadlines.{delay_bounds}

-- An edit of a running burst that arrives before the limit, by less than the base delay, sets a
-- deadline past the limit: the save is due after `maxDeferralMs` from the first edit.
pub ceiling_overrun :
    (d : Debouncer) (now : ℕ)
    → d.base_delay_ms ≤ d.max_burst_delay_ms
    → 0 < length d.edit_timestamps
    → now < d.first_edit_time + d.max_deferral_ms
    → d.first_edit_time + d.max_deferral_ms < now + d.base_delay_ms
    → (deadline : ℕ) × ((record_edit d now).timer ≡ some deadline)
      × (10 * (d.first_edit_time + d.max_deferral_ms) < deadline)
unfolding record_edit note_edit
ceiling_overrun d now h some_edits early late = (
  10 * now + delay_tenths d.options (length (note_edit d now).edit_timestamps),
  ground arith,
  omega (arith, delay_bounds d.options (length (note_edit d now).edit_timestamps) h),
)

-- An edit that arrives at or past the limit is saved at once, and no timer is left.
pub forced_flush :
    (d : Debouncer) (now : ℕ)
    → 0 < length d.edit_timestamps
    → d.first_edit_time + d.max_deferral_ms ≤ now
    → ((record_edit d now).flushes ≡ d.flushes ++ now ∷ []) × ((record_edit d now).timer ≡ none)
unfolding record_edit note_edit
forced_flush d now some_edits late = ground arith
