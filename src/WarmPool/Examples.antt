-- ===== src/WarmPool/Examples.antt =====
-- Runs of the warm pool.
use nexus_ide.Common.{◌≡◌, refl, true, inl, List, [], ◌∷◌, arith}
use nexus_ide.WarmPool.{Event, initialized, popped, released, filled, demand_met, init, run}
use nexus_ide.WarmPool.Bounds.{IsBounded, run-IsBounded}
use nexus_ide.WarmPool.Ownership.{places, made, containers_owned}

abbrev morning : List Event
morning = initialized true ∷ filled ∷ popped ∷ popped ∷ demand_met ∷ filled ∷ released ∷ filled ∷ []

morning_pool : (run (init true) morning).terminal_pool ≡ 2 ∷ 3 ∷ []
unfolding run init
morning_pool = refl

morning_delivered : (run (init true) morning).delivered ≡ 0 ∷ 1 ∷ []
unfolding run init
morning_delivered = refl

init-IsBounded : IsBounded (init true)
unfolding init
init-IsBounded = record {
  size = omega arith;
  least = omega arith;
  held = omega arith;
  single = inl refl;
}

run-IsBounded_example : IsBounded (run (init true) morning)
run-IsBounded_example = run-IsBounded (init true) morning init-IsBounded

containers_owned_example :
    places 1 (run (init true) morning) ≡ made 1 (run (init true) morning).created
containers_owned_example = containers_owned true morning 1
