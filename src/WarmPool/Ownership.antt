-- ===== src/WarmPool/Ownership.antt =====
-- Every container that was created is in the pool, with one user, or removed.
use nexus_ide.Common.{
  ℕ, zero, suc, ◌+◌, ◌-◌, ◌≡◌, refl, ap, Bool, List, [], ◌∷◌, ◌++◌, arith, ltb, if◌then◌else◌,
}
use nexus_ide.Common.Counts.{count, count-append}
use nexus_ide.WarmPool.{
  WarmPool, Event, initialized, popped, released, filled, fill_failed, demand_met, demand_failed,
  cleaned, init, loop_test, fill_terminal_pool, target_size, resize, adjust_terminal_pool_size,
  take_first, pop_terminal_container, release_terminal_container, filler_resumes, filler_fails,
  resume, on_demand_resumes, remove_one, initialize_pools, step, run,
}

abbrev pub places : ℕ → WarmPool → ℕ
places a p = count a p.terminal_pool + count a p.delivered + count a p.removed

abbrev pub made : ℕ → ℕ → ℕ
made a created = if ltb a created then 1 else 0

abbrev pub IsOwned : WarmPool → Type 0
IsOwned p = (a : ℕ) → places a p ≡ made a p.created

fill-IsOwned : (p : WarmPool) → IsOwned p → IsOwned (fill_terminal_pool p)
unfolding fill_terminal_pool loop_test
fill-IsOwned p v a = ground (arith, v a)

resize-IsOwned : (p : WarmPool) (t : ℕ) → IsOwned p → IsOwned (resize p t)
unfolding resize
resize-IsOwned p t v a = ground (arith, v a, fill-IsOwned (record p { terminal_pool_size = t }) v a)

take_first-IsOwned :
    (p : WarmPool) (l : List ℕ) → p.terminal_pool ≡ l → IsOwned p → IsOwned (take_first p l)
unfolding take_first count
take_first-IsOwned p [] e v = v
take_first-IsOwned p (c ∷ rest) e v =
    fill-IsOwned (record p { terminal_pool = rest; delivered = p.delivered ++ c ∷ [] })
      λ a. omega (arith, v a, ap (count a) e, count-append a p.delivered (c ∷ []))

demand-IsOwned : (n : ℕ) (p : WarmPool) → IsOwned p → IsOwned (on_demand_resumes n p)
unfolding on_demand_resumes count
demand-IsOwned zero p v = v
demand-IsOwned (suc n) p v =
    fill-IsOwned
      (record p {
        on_demand = n;
        created = p.created + 1;
        delivered = p.delivered ++ p.created ∷ [];
      })
      λ a. ground (arith, v a, count-append a p.delivered (p.created ∷ []))

cleanup-IsOwned :
    (p : WarmPool) (l : List ℕ) → p.terminal_pool ≡ l → IsOwned p → IsOwned (remove_one p l)
unfolding remove_one count
cleanup-IsOwned p [] e v = v
cleanup-IsOwned p (c ∷ rest) e v =
    λ a. omega (arith, v a, ap (count a) e, count-append a p.removed (c ∷ []))

resume-IsOwned : (n : ℕ) (p : WarmPool) → IsOwned p → IsOwned (resume n p)
unfolding resume loop_test count
resume-IsOwned zero p v = v
resume-IsOwned (suc n) p v =
    λ a. ground (arith, v a, count-append a p.terminal_pool (p.created ∷ []))

step-IsOwned : (p : WarmPool) (e : Event) → IsOwned p → IsOwned (step p e)
unfolding step
step-IsOwned p (initialized ready) v =
    λ a. unfold initialize_pools in ground (arith, v a, fill-IsOwned p v a)
step-IsOwned p popped v =
    unfold pop_terminal_container adjust_terminal_pool_size in
    let active : WarmPool = record p {
      active_terminal_sessions = p.active_terminal_sessions + 1;
    } in
    take_first-IsOwned (resize active (target_size active)) _ refl
      (resize-IsOwned active (target_size active) v)
step-IsOwned p released v = λ a.
    unfold release_terminal_container adjust_terminal_pool_size in
    let active : WarmPool = record p {
      active_terminal_sessions = p.active_terminal_sessions - 1;
    } in
    ground (arith, v a, resize-IsOwned active (target_size active) v a)
step-IsOwned p filled v = λ a. unfold filler_resumes in resume-IsOwned p.fillers p v a
step-IsOwned p fill_failed v = λ a. unfold filler_fails in ground (arith, v a)
step-IsOwned p demand_met v = demand-IsOwned p.on_demand p v
step-IsOwned p demand_failed v = v
step-IsOwned p cleaned v = cleanup-IsOwned p p.terminal_pool refl v

run-IsOwned : (p : WarmPool) (es : List Event) → IsOwned p → IsOwned (run p es)
unfolding run
run-IsOwned p [] v = v
run-IsOwned p (e ∷ es) v = run-IsOwned (step p e) es (step-IsOwned p e v)

-- After any history of a new pool each container created so far is in exactly one place: once in the
-- pool, handed to exactly one caller, or removed once. So no container serves two callers.
pub containers_owned :
    (demo : Bool) (es : List Event) (a : ℕ)
    → places a (run (init demo) es) ≡ made a (run (init demo) es).created
unfolding init count
containers_owned demo es a = run-IsOwned (init demo) es (λ b. ground arith) a
