-- ===== src/WarmPool/Bounds.antt =====
-- The pool never holds more containers than its limit, however the fillings interleave.
use nexus_ide.Common.{
  ℕ, zero, suc, ◌+◌, ◌-◌, ◌≤◌, ◌≡◌, refl, true, ◌⊎◌, List, [], ◌∷◌, ◌++◌, arith, length, ltb,
  Bool-cases, inl, inr, length-append,
}
use nexus_ide.WarmPool.{
  WarmPool, Event, initialized, popped, released, filled, fill_failed, demand_met, demand_failed,
  cleaned, terminal_pool_max, terminal_pool_min, loop_test, fill_terminal_pool, resume, target_size,
  resize, adjust_terminal_pool_size, take_first, pop_terminal_container, release_terminal_container,
  filler_resumes, filler_fails, on_demand_resumes, on_demand_fails, remove_one, initialize_pools,
  step, run,
}

pub record IsBounded (p : WarmPool) : Type 0 where
  pub size : p.terminal_pool_size ≤ terminal_pool_max p.is_demo_mode
  pub least : terminal_pool_min ≤ p.terminal_pool_size
  -- There is room for the containers that fillings wait for.
  pub held : length p.terminal_pool + p.fillers ≤ terminal_pool_max p.is_demo_mode
  pub single : (p.fillers ≡ 0) ⊎ ((p.fillers ≡ 1) × (p.replenishing_terminal ≡ true))

-- A loop that waits for nothing tests the size while no other one waits.
loop_test-IsBounded :
    (p : WarmPool)
    → IsBounded p
    → p.fillers ≡ 0
    → p.replenishing_terminal ≡ true
    → IsBounded (loop_test p)
unfolding loop_test
loop_test-IsBounded p v none_waits flag =
    elim (Bool-cases (ltb (length p.terminal_pool) p.terminal_pool_size)) [
      | inl short ↦ rw short (record {
        size = v.size;
        least = v.least;
        held = ground (arith, short, v.size, none_waits);
        single = inr (omega (arith, none_waits), flag);
      })
      | inr enough ↦
          rw enough
            (record { size = v.size; least = v.least; held = v.held; single = inl none_waits })
    ]

fill-IsBounded : (p : WarmPool) → IsBounded p → IsBounded (fill_terminal_pool p)
unfolding fill_terminal_pool
fill-IsBounded p v = elim (Bool-cases p.replenishing_terminal) [
  | inl busy ↦ simp busy v
  | inr idle ↦
      let none_waits : p.fillers ≡ 0 = ground (arith, v.single, idle) in
      simp idle (
        loop_test-IsBounded (record p { replenishing_terminal = true })
          (record { size = v.size; least = v.least; held = v.held; single = inl none_waits })
          none_waits refl)
]

target_bounds :
    (p : WarmPool)
    → (terminal_pool_min ≤ target_size p) × (target_size p ≤ terminal_pool_max p.is_demo_mode)
unfolding target_size
target_bounds p = ground arith

resize-IsBounded :
    (p : WarmPool) (t : ℕ)
    → IsBounded p
    → (terminal_pool_min ≤ t) × (t ≤ terminal_pool_max p.is_demo_mode)
    → IsBounded (resize p t)
unfolding resize
resize-IsBounded p t v (lo, hi) =
    let q : WarmPool = record p { terminal_pool_size = t } in
    let w : IsBounded q = record { size = hi; least = lo; held = v.held; single = v.single } in
    ground (arith, w, fill-IsBounded q w)

take_first-IsBounded :
    (p : WarmPool) (l : List ℕ) → p.terminal_pool ≡ l → IsBounded p → IsBounded (take_first p l)
unfolding take_first
take_first-IsBounded p [] e v = ground arith
take_first-IsBounded p (c ∷ rest) e v =
    fill-IsBounded (record p { terminal_pool = rest; delivered = p.delivered ++ c ∷ [] })
      (ground arith)

release-IsBounded : (p : WarmPool) → IsBounded p → IsBounded (release_terminal_container p)
unfolding release_terminal_container adjust_terminal_pool_size
release-IsBounded p v =
    let active : WarmPool = record p {
      active_terminal_sessions = p.active_terminal_sessions - 1;
    } in
    let w : IsBounded active = record {
      size = v.size;
      least = v.least;
      held = v.held;
      single = v.single;
    } in
    let r = resize-IsBounded active (target_size active) w (target_bounds active) in
    ground (arith, r)

demand-IsBounded : (n : ℕ) (p : WarmPool) → IsBounded p → IsBounded (on_demand_resumes n p)
unfolding on_demand_resumes
demand-IsBounded zero p v = v
demand-IsBounded (suc n) p v =
    fill-IsBounded
      (record p {
        on_demand = n;
        created = p.created + 1;
        delivered = p.delivered ++ p.created ∷ [];
      })
      (record { size = v.size; least = v.least; held = v.held; single = v.single })

cleanup-IsBounded :
    (p : WarmPool) (l : List ℕ) → p.terminal_pool ≡ l → IsBounded p → IsBounded (remove_one p l)
unfolding remove_one
cleanup-IsBounded p [] e v = v
cleanup-IsBounded p (c ∷ rest) e v = ground arith

resume-IsBounded : (n : ℕ) (p : WarmPool) → p.fillers ≡ n → IsBounded p → IsBounded (resume n p)
unfolding resume
resume-IsBounded zero p e v = v
resume-IsBounded (suc n) p e v =
    let alone : n ≡ 0 = ground (arith, v.single, e) in
    let flag : p.replenishing_terminal ≡ true = ground (arith, v.single, e) in
    loop_test-IsBounded
      (record p {
        fillers = n;
        terminal_pool = p.terminal_pool ++ p.created ∷ [];
        created = p.created + 1;
      })
      (record {
        size = v.size;
        least = v.least;
        held = omega (arith, v.held, e, length-append p.terminal_pool (p.created ∷ []));
        single = inl alone;
      })
      alone flag

step-IsBounded : (p : WarmPool) (e : Event) → IsBounded p → IsBounded (step p e)
unfolding step
step-IsBounded p (initialized ready) v =
    unfold initialize_pools in ground (arith, fill-IsBounded p v)
step-IsBounded p popped v =
    unfold pop_terminal_container adjust_terminal_pool_size in
    let active : WarmPool = record p {
      active_terminal_sessions = p.active_terminal_sessions + 1;
    } in
    let w : IsBounded active = record {
      size = v.size;
      least = v.least;
      held = v.held;
      single = v.single;
    } in
    let r = resize-IsBounded active (target_size active) w (target_bounds active) in
    take_first-IsBounded (resize active (target_size active)) _ refl r
step-IsBounded p released v = release-IsBounded p v
step-IsBounded p filled v = unfold filler_resumes in resume-IsBounded p.fillers p refl v
step-IsBounded p fill_failed v = unfold filler_fails in ground (arith, v)
step-IsBounded p demand_met v = demand-IsBounded p.on_demand p v
step-IsBounded p demand_failed v =
    unfold on_demand_fails in
    record { size = v.size; least = v.least; held = v.held; single = v.single }
step-IsBounded p cleaned v = cleanup-IsBounded p p.terminal_pool refl v

-- Whatever the order of requests, releases, fillings, failures and removals, the pool holds at most
-- two containers in demo mode and five otherwise, its target size stays between one and that limit, at
-- most one filling is under way, with the flag set, and it has room for the container that it waits for.
pub run-IsBounded : (p : WarmPool) (es : List Event) → IsBounded p → IsBounded (run p es)
unfolding run
run-IsBounded p [] v = v
run-IsBounded p (e ∷ es) v = run-IsBounded (step p e) es (step-IsBounded p e v)
