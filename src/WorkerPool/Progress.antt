-- ===== src/WorkerPool/Progress.antt =====
-- No task waits while a worker is idle, as long as no worker crashes.
use nexus_ide.Common.{
  ℕ, ◌+◌, ◌≤◌, ◌≡◌, refl, ap, Bool, true, ◌⊎◌, inl, inr, some, List, [], ◌∷◌, ◌++◌, arith, ◌==◌,
  length, length-append, Option-cases, Bool-cases,
}
use nexus_ide.WorkerPool.{
  WorkerPool, Running, Event, task_submitted, message, error, exit, outcome, map_get, map_set,
  map_delete, start_task, shift_both, process_next_task, run_task, settle_entry, on_message, step,
  run, contains,
}

abbrev pub AllStarted : List ℕ → List ℕ → Type 0
AllStarted workers [] = Unit
AllStarted workers (i ∷ is) = (contains i workers ≡ true) × AllStarted workers is

abbrev pub RunsOnStarted : List ℕ → List Running → Type 0
RunsOnStarted workers [] = Unit
RunsOnStarted workers (e ∷ es) = (contains e.worker_index workers ≡ true) × RunsOnStarted workers es

-- Idle and busy workers have a thread, and either no task waits or no worker is idle.
pub record IsBusy (p : WorkerPool) : Type 0 where
  pub idle : AllStarted p.workers p.idle_worker_indices
  pub busy : RunsOnStarted p.workers p.task_map
  pub served : (length p.task_queue ≡ 0) ⊎ (length p.idle_worker_indices ≡ 0)

AllStarted-snoc :
    (w xs : List ℕ) (i : ℕ) → AllStarted w xs → contains i w ≡ true → AllStarted w (xs ++ i ∷ [])
AllStarted-snoc w [] i h c = (c, tt)
AllStarted-snoc w (x ∷ xs) i h c = (h.0, AllStarted-snoc w xs i h.1 c)

RunsOnStarted-map_set :
    (w : List ℕ) (r : Running) (es : List Running)
    → RunsOnStarted w es
    → contains r.worker_index w ≡ true
    → RunsOnStarted w (map_set r es)
unfolding map_set
RunsOnStarted-map_set w r [] h c = (c, tt)
RunsOnStarted-map_set w r (e ∷ es) h c = elim (Bool-cases (e.task_id == r.task_id)) [
  | inl same ↦ rw same (c, h.1)
  | inr other ↦ rw other (h.0, RunsOnStarted-map_set w r es h.1 c)
]

RunsOnStarted-map_delete :
    (w : List ℕ) (t : ℕ) (es : List Running)
    → RunsOnStarted w es
    → RunsOnStarted w (map_delete t es)
unfolding map_delete
RunsOnStarted-map_delete w t [] h = tt
RunsOnStarted-map_delete w t (e ∷ es) h = elim (Bool-cases (e.task_id == t)) [
  | inl same ↦ rw same (RunsOnStarted-map_delete w t es h.1)
  | inr other ↦ rw other (h.0, RunsOnStarted-map_delete w t es h.1)
]

started-map_get :
    (w : List ℕ) (t : ℕ) (es : List Running) (e : Running)
    → RunsOnStarted w es
    → map_get t es ≡ some e
    → contains e.worker_index w ≡ true
unfolding map_get
started-map_get w t [] e h g = cc
started-map_get w t (x ∷ es) e h g = elim (Bool-cases (x.task_id == t)) [
  | inl same ↦ let first : x ≡ e = ground arith in rw (← first) h.0
  | inr other ↦ started-map_get w t es e h.1 (ground arith)
]

shift_both-IsBusy :
    (p : WorkerPool) (q idle : List ℕ)
    → p.task_queue ≡ q
    → p.idle_worker_indices ≡ idle
    → AllStarted p.workers idle
    → RunsOnStarted p.workers p.task_map
    → (length q ≤ 1) ⊎ (length idle ≤ 1)
    → IsBusy (shift_both p q idle)
unfolding shift_both start_task
shift_both-IsBusy p [] idle eq ei a r few = record {
  idle = rw ei a;
  busy = r;
  served = inl (ap length eq);
}
shift_both-IsBusy p (t ∷ q) [] eq ei a r few = record {
  idle = rw ei tt;
  busy = r;
  served = inr (ap length ei);
}
shift_both-IsBusy p (t ∷ q) (i ∷ idle) eq ei a r few =
    rw (a.0, start_task)
      (record {
        idle = a.1;
        busy =
            RunsOnStarted-map_set p.workers (record { task_id = t; worker_index = i }) p.task_map r
              a.0;
        served = omega arith;
      })

run_task-IsBusy : (p : WorkerPool) → IsBusy p → IsBusy (run_task p)
unfolding run_task process_next_task
run_task-IsBusy p v =
    shift_both-IsBusy
      (record p {
        task_queue = p.task_queue ++ p.next_task_id ∷ [];
        next_task_id = p.next_task_id + 1;
      })
      (p.task_queue ++ p.next_task_id ∷ []) p.idle_worker_indices refl refl v.idle v.busy
      (omega (arith, v.served, length-append p.task_queue (p.next_task_id ∷ [])))

on_message-IsBusy : (p : WorkerPool) (t : ℕ) (ok : Bool) → IsBusy p → IsBusy (on_message p t ok)
unfolding on_message settle_entry process_next_task
on_message-IsBusy p t ok v = elim (Option-cases (map_get t p.task_map)) [
  | inl e ↦ rw (e, settle_entry) v
  | inr (r, e) ↦
      rw (e, settle_entry)
        (shift_both-IsBusy
          (record p {
            task_map = map_delete t p.task_map;
            idle_worker_indices = p.idle_worker_indices ++ r.worker_index ∷ [];
            settled = p.settled ++ (t, outcome ok) ∷ [];
          })
          p.task_queue (p.idle_worker_indices ++ r.worker_index ∷ []) refl refl
          (AllStarted-snoc p.workers p.idle_worker_indices r.worker_index v.idle
            (started-map_get p.workers t p.task_map r v.busy e))
          (RunsOnStarted-map_delete p.workers t p.task_map v.busy)
          (omega (arith, v.served, length-append p.idle_worker_indices (r.worker_index ∷ []))))
]

-- Submissions and answers, from workers that do not crash.
abbrev pub NoCrash : List Event → Type 0
NoCrash [] = Unit
NoCrash (task_submitted ∷ es) = NoCrash es
NoCrash (message t ok ∷ es) = NoCrash es
NoCrash (_ ∷ es) = ⊥

-- Through submissions and answers a busy pool stays busy: a task waits only while no worker is idle,
-- and every idle or running worker has a thread.
pub run-IsBusy : (p : WorkerPool) (es : List Event) → IsBusy p → NoCrash es → IsBusy (run p es)
unfolding run step
run-IsBusy p [] v n = v
run-IsBusy p (task_submitted ∷ es) v n = run-IsBusy (run_task p) es (run_task-IsBusy p v) n
run-IsBusy p (message t ok ∷ es) v n =
    run-IsBusy (on_message p t ok) es (on_message-IsBusy p t ok v) n
run-IsBusy p (error i s ∷ es) v n = absurd n
run-IsBusy p (exit i c s ∷ es) v n = absurd n
