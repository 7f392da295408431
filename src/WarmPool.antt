-- ===== src/WarmPool.antt =====
-- backend/src/sandbox/pool.ts, WarmPoolManager: the pool of pre-booted containers. Its methods run to
-- their next `await`; the events below are those runs. Container ids are numbered by their creation,
-- and `delivered` and `removed` list the containers handed out and removed. A container that Docker
-- creates and cannot start counts as not created.
pub mod Bounds
pub mod Ownership
pub mod Sessions
mod Examples
use nexus_ide.Common.{
  ℕ, zero, suc, ◌+◌, ◌-◌, min, max, Bool, true, false, not, List, [], ◌∷◌, ◌++◌, ltb, ◌==◌,
  if◌then◌else◌, length,
}

abbrev pub terminal_pool_min : ℕ
terminal_pool_min = 1

abbrev pub terminal_pool_max : Bool → ℕ
terminal_pool_max demo = if demo then 2 else 5

abbrev pub initial_pool_size : Bool → ℕ
initial_pool_size demo = if demo then 1 else 2

pub record WarmPool : Type 0 where
  pub is_demo_mode : Bool
  pub terminal_pool_size : ℕ
  pub terminal_pool : List ℕ
  pub active_terminal_sessions : ℕ
  pub replenishing_terminal : Bool
  -- Loops of `fillTerminalPool` that wait for a container.
  pub fillers : ℕ
  -- Calls of `popTerminalContainer` that wait for a container made on demand.
  pub on_demand : ℕ
  pub created : ℕ
  pub delivered : List ℕ
  pub removed : List ℕ

unfoldable pub init : Bool → WarmPool
init demo = record {
  is_demo_mode = demo;
  terminal_pool_size = initial_pool_size demo;
  terminal_pool = [];
  active_terminal_sessions = 0;
  replenishing_terminal = false;
  fillers = 0;
  on_demand = 0;
  created = 0;
  delivered = [];
  removed = [];
}

-- The test of the `while` loop: another container is awaited, or the `finally` block runs.
pub loop_test : WarmPool → WarmPool
loop_test p =
    if ltb (length p.terminal_pool) p.terminal_pool_size
    then record p { fillers = p.fillers + 1 }
    else record p { replenishing_terminal = false }

unfoldable pub fill_terminal_pool : WarmPool → WarmPool
unfolding loop_test
fill_terminal_pool p =
    if p.replenishing_terminal then p else loop_test (record p { replenishing_terminal = true })

target_size : WarmPool → ℕ
target_size p =
    max terminal_pool_min (min (terminal_pool_max p.is_demo_mode) (p.active_terminal_sessions + 2))

resize : WarmPool → ℕ → WarmPool
unfolding fill_terminal_pool
resize p target =
    if target == p.terminal_pool_size
    then p
    else if ltb p.terminal_pool_size target
    then fill_terminal_pool (record p { terminal_pool_size = target })
    else record p { terminal_pool_size = target }

unfoldable pub adjust_terminal_pool_size : WarmPool → WarmPool
unfolding target_size resize
adjust_terminal_pool_size p = resize p (target_size p)

take_first : WarmPool → List ℕ → WarmPool
unfolding fill_terminal_pool
take_first p [] = record p { on_demand = p.on_demand + 1 }
take_first p (container ∷ rest) =
    fill_terminal_pool
      (record p { terminal_pool = rest; delivered = p.delivered ++ container ∷ [] })

-- `popTerminalContainer`, up to its result or to the wait for a container on demand.
unfoldable pub pop_terminal_container : WarmPool → WarmPool
unfolding adjust_terminal_pool_size take_first
pop_terminal_container p =
    let q =
      adjust_terminal_pool_size
        (record p { active_terminal_sessions = p.active_terminal_sessions + 1 }) in
    take_first q q.terminal_pool

unfoldable pub release_terminal_container : WarmPool → WarmPool
unfolding adjust_terminal_pool_size
release_terminal_container p =
    if ltb 0 p.active_terminal_sessions
    then adjust_terminal_pool_size
        (record p { active_terminal_sessions = p.active_terminal_sessions - 1 })
    else p

-- The container that a filling loop awaits: pushed, then the loop's test again.
resume : ℕ → WarmPool → WarmPool
unfolding loop_test
resume zero p = p
resume (suc n) p = loop_test (record p {
  fillers = n;
  terminal_pool = p.terminal_pool ++ p.created ∷ [];
  created = p.created + 1;
})

filler_resumes : WarmPool → WarmPool
unfolding resume
filler_resumes p = resume p.fillers p

-- Docker makes no container: the loop ends in its `finally` block.
filler_fails : WarmPool → WarmPool
filler_fails p =
    if ltb 0 p.fillers
    then record p { fillers = p.fillers - 1; replenishing_terminal = false }
    else p

-- The container that a call of `popTerminalContainer` awaits.
on_demand_resumes : ℕ → WarmPool → WarmPool
unfolding fill_terminal_pool
on_demand_resumes zero p = p
on_demand_resumes (suc n) p =
    fill_terminal_pool (record p {
      on_demand = n;
      created = p.created + 1;
      delivered = p.delivered ++ p.created ∷ [];
    })

on_demand_fails : WarmPool → WarmPool
on_demand_fails p = record p { on_demand = p.on_demand - 1 }

-- One round of the loop in `cleanup`.
remove_one : WarmPool → List ℕ → WarmPool
remove_one p [] = p
remove_one p (container ∷ rest) = record p {
  terminal_pool = rest;
  removed = p.removed ++ container ∷ [];
}

unfoldable pub cleanup_round : WarmPool → WarmPool
unfolding remove_one
cleanup_round p = remove_one p p.terminal_pool

-- `initializePools`: nothing without a reachable daemon and its image.
unfoldable pub initialize_pools : Bool → WarmPool → WarmPool
unfolding fill_terminal_pool
initialize_pools ready p = if ready then fill_terminal_pool p else p

pub data Event : Type 0 where
  initialized : Bool → Event
  popped released filled fill_failed demand_met demand_failed cleaned : Event

unfoldable pub step : WarmPool → Event → WarmPool
unfolding initialize_pools pop_terminal_container release_terminal_container filler_resumes
    filler_fails on_demand_resumes on_demand_fails cleanup_round
step p (initialized ready) = initialize_pools ready p
step p popped = pop_terminal_container p
step p released = release_terminal_container p
step p filled = filler_resumes p
step p fill_failed = filler_fails p
step p demand_met = on_demand_resumes p.on_demand p
step p demand_failed = on_demand_fails p
step p cleaned = cleanup_round p

unfoldable pub run : WarmPool → List Event → WarmPool
unfolding step
run p [] = p
run p (e ∷ es) = run (step p e) es
