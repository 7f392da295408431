-- ===== src/Debouncer/Examples.antt =====
-- Runs of the save debouncer.
use nexus_ide.Common.{◌≡◌, refl, some, List, [], ◌∷◌, arith}
use nexus_ide.Debouncer.{
  Debouncer, Event, edits, ticks, cancels, default_options, construct, delay_tenths, run,
}
use nexus_ide.Debouncer.Deadlines.{Timely, run-construct-Timely}

burst_delays :
    (delay_tenths default_options 4 ≡ 8000)
    × (delay_tenths default_options 8 ≡ 13100)
    × (delay_tenths default_options 40 ≡ 25000)
unfolding delay_tenths
burst_delays = (refl, refl, refl)

abbrev typing : List Event
typing = edits 100 ∷ edits 300 ∷ ticks 1000 ∷ ticks 1100 ∷ edits 2000 ∷ cancels ∷ edits 3000 ∷ []

typing_flushes : (run (construct default_options) typing).flushes ≡ 1100 ∷ []
unfolding run construct
typing_flushes = refl

run-construct-Timely_example :
    Timely (run (construct default_options) typing) (run (construct default_options) typing).timer
run-construct-Timely_example = run-construct-Timely default_options typing (omega arith)

-- A burst that began at 100 and is still going on.
abbrev going : Debouncer
going = record {
  options = default_options;
  edit_timestamps = 4500 ∷ [];
  timer = some 53000;
  first_edit_time = 100;
  flushes = [];
}
