-- ===== src/WorkerPool/Accounting.antt =====
-- Every task that was submitted is in exactly one place: queued, running, or settled once.
use nexus_ide.Common.{
  ℕ, ◌+◌, ◌≤◌, ◌<◌, ◌≡◌, refl, sym, ap, ◌∙◌, Bool, true, false, not, ◌&&◌, inl, inr, some, List, [],
  ◌∷◌, ◌++◌, map, arith, leb, ltb, ◌==◌, if◌then◌else◌, filter, Option-cases, Bool-cases,
}
use nexus_ide.Common.Counts.{count, count-append}
use nexus_ide.WorkerPool.{
  WorkerPool, Running, Settlement, Event, task_submitted, message, error, exit, map_get, map_set,
  map_delete, create_worker, recreate_worker, start_task, shift_both, process_next_task, run_task,
  settle_entry, on_message, runs_on, reject_entry, on_error, on_exit, step, run, empty,
  initialize_pool, construct, outcome,
}

abbrev pub running_ids : List Running → List ℕ
running_ids = map λ e. e.task_id

abbrev pub settled_ids : List (ℕ × Settlement) → List ℕ
settled_ids = map λ s. s.0

-- In how many places task `a` is.
abbrev pub places : ℕ → WorkerPool → ℕ
places a p =
    count a p.task_queue + count a (running_ids p.task_map) + count a (settled_ids p.settled)

abbrev pub issued : ℕ → ℕ → ℕ
issued a next = if leb 1 a && ltb a next then 1 else 0

-- Each id handed out so far is in one place, any other number in none.
abbrev pub IsAccounted : WorkerPool → Type 0
IsAccounted p = ((a : ℕ) → places a p ≡ issued a p.next_task_id) × (0 < p.next_task_id)

count-map_set :
    (a : ℕ) (r : Running) (es : List Running)
    → count r.task_id (running_ids es) ≡ 0
    → count a (running_ids (map_set r es))
      ≡ count a (running_ids es) + (if r.task_id == a then 1 else 0)
unfolding count map_set
count-map_set a r [] h = ground arith
count-map_set a r (e ∷ es) h = ground (arith, count-map_set a r es)

count-map_delete :
    (a t : ℕ) (es : List Running)
    → count a (running_ids (map_delete t es)) ≡ (if t == a then 0 else count a (running_ids es))
unfolding count map_delete
count-map_delete a t [] = ground arith
count-map_delete a t (e ∷ es) = ground (arith, count-map_delete a t es)

count-map_get :
    (t : ℕ) (es : List Running) (e : Running) → map_get t es ≡ some e → 0 < count t (running_ids es)
unfolding count map_get
count-map_get t [] e h = cc
count-map_get t (x ∷ es) e h = ground (arith, count-map_get t es e)

count-split :
    (a i : ℕ) (es : List Running)
    → count a (running_ids (filter (λ e. not (runs_on i e)) es))
        + count a (settled_ids (map reject_entry (filter (runs_on i) es)))
      ≡ count a (running_ids es)
unfolding count
count-split a i [] = omega arith
count-split a i (e ∷ es) = ground (arith, count-split a i es)

count-settled :
    (a : ℕ) (xs ys : List (ℕ × Settlement))
    → count a (settled_ids (xs ++ ys)) ≡ count a (settled_ids xs) + count a (settled_ids ys)
unfolding count
count-settled a [] ys = omega arith
count-settled a (x ∷ xs) ys = omega (arith, count-settled a xs ys)

-- Moving a queued task on changes no count, as long as it is in one place.
places-shift_both :
    (a : ℕ) (p : WorkerPool) (q idle : List ℕ)
    → p.task_queue ≡ q
    → ((t : ℕ) → places t p ≤ 1)
    → (places a (shift_both p q idle) ≡ places a p)
      × ((shift_both p q idle).next_task_id ≡ p.next_task_id)
unfolding shift_both start_task count
places-shift_both a p [] idle e h = (refl, refl)
places-shift_both a p (t ∷ q) [] e h = (refl, refl)
places-shift_both a p (t ∷ q) (i ∷ idle) e h = ground (
  arith,
  ap (count a) e,
  ap (count t) e,
  h t,
  count-map_set a (record { task_id = t; worker_index = i }) p.task_map,
)

issued-le : (a n : ℕ) → issued a n ≤ 1
issued-le a n = ground arith

process-IsAccounted : (p : WorkerPool) → IsAccounted p → IsAccounted (process_next_task p)
unfolding process_next_task
process-IsAccounted p (v, pos) =
    let once : (t : ℕ) → places t p ≤ 1 = λ t. omega (arith, v t, issued-le t p.next_task_id) in
    let moved = λ (a : ℕ). places-shift_both a p p.task_queue p.idle_worker_indices refl once in
    (λ a. (moved a).0 ∙ v a ∙ ap (issued a) (sym (moved a).1), omega (arith, (moved 0).1))

run_task-IsAccounted : (p : WorkerPool) → IsAccounted p → IsAccounted (run_task p)
unfolding run_task count
run_task-IsAccounted p (v, pos) =
    process-IsAccounted
      (record p {
        task_queue = p.task_queue ++ p.next_task_id ∷ [];
        next_task_id = p.next_task_id + 1;
      })
      (λ a. ground (arith, v a, count-append a p.task_queue (p.next_task_id ∷ [])), omega arith)

on_message-IsAccounted :
    (p : WorkerPool) (t : ℕ) (ok : Bool) → IsAccounted p → IsAccounted (on_message p t ok)
unfolding on_message settle_entry count
on_message-IsAccounted p t ok (v, pos) = elim (Option-cases (map_get t p.task_map)) [
  | inl e ↦ rw (e, settle_entry) (v, pos)
  | inr (r, e) ↦
      let found = count-map_get t p.task_map r e in
      rw (e, settle_entry)
        (process-IsAccounted
          (record p {
            task_map = map_delete t p.task_map;
            idle_worker_indices = p.idle_worker_indices ++ r.worker_index ∷ [];
            settled = p.settled ++ (t, outcome ok) ∷ [];
          })
          (
            λ a. ground (
              arith,
              v a,
              v t,
              issued-le t p.next_task_id,
              found,
              count-map_delete a t p.task_map,
              count-settled a p.settled ((t, outcome ok) ∷ []),
            ),
            pos,
          ))
]

recreate-IsAccounted :
    (p : WorkerPool) (i : ℕ) (starts : Bool)
    → IsAccounted p
    → IsAccounted (recreate_worker p i starts)
unfolding recreate_worker create_worker
recreate-IsAccounted p i true v = v
recreate-IsAccounted p i false v = v

on_error-IsAccounted :
    (p : WorkerPool) (i : ℕ) (starts : Bool) → IsAccounted p → IsAccounted (on_error p i starts)
unfolding on_error
on_error-IsAccounted p i starts (v, pos) = recreate-IsAccounted _ i starts (
  λ a. omega (
    arith,
    v a,
    count-split a i p.task_map,
    count-settled a p.settled (map reject_entry (filter (runs_on i) p.task_map)),
  ),
  pos,
)

step-IsAccounted : (p : WorkerPool) (e : Event) → IsAccounted p → IsAccounted (step p e)
unfolding step
step-IsAccounted p task_submitted v = run_task-IsAccounted p v
step-IsAccounted p (message t ok) v = on_message-IsAccounted p t ok v
step-IsAccounted p (error i starts) v = on_error-IsAccounted p i starts v
step-IsAccounted p (exit i code starts) v = elim (Bool-cases (code == 0)) [
  | inl z ↦ unfold on_exit in rw z v
  | inr nz ↦ unfold on_exit in rw nz (recreate-IsAccounted p i starts v)
]

run-IsAccounted : (p : WorkerPool) (es : List Event) → IsAccounted p → IsAccounted (run p es)
unfolding run
run-IsAccounted p [] v = v
run-IsAccounted p (e ∷ es) v = run-IsAccounted (step p e) es (step-IsAccounted p e v)

initialize_pool-IsAccounted :
    (p : WorkerPool) (i : ℕ) (starts : List Bool)
    → IsAccounted p
    → IsAccounted (initialize_pool p i starts)
unfolding initialize_pool create_worker
initialize_pool-IsAccounted p i [] v = v
initialize_pool-IsAccounted p i (true ∷ rest) v =
    initialize_pool-IsAccounted (create_worker p i true) (i + 1) rest v
initialize_pool-IsAccounted p i (false ∷ rest) v = initialize_pool-IsAccounted p (i + 1) rest v

-- After any submissions, answers, errors and exits of workers, each task that was submitted is in
-- exactly one place: once in the queue, once among the running tasks, or settled exactly once. No
-- other id is anywhere. So no promise is settled twice, and none disappears.
pub tasks_accounted :
    (starts : List Bool) (es : List Event) (a : ℕ)
    → places a (run (construct starts) es) ≡ issued a (run (construct starts) es).next_task_id
unfolding construct empty count
tasks_accounted starts es a =
    (run-IsAccounted _ es
        (initialize_pool-IsAccounted empty 0 starts (λ b. ground arith, omega arith))).0
      a
