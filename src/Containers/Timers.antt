-- ===== src/Containers/Timers.antt =====
-- Timers of containers, in every run that the code can take with one call for a workspace in flight at
-- a time.
use nexus_ide.Containers.Operations.{
  removal-IsConsistent, hit-IsConsistent, prewarm-IsConsistent, enter-IsConsistent,
  fail-IsConsistent, release-IsConsistent, fire-IsConsistent, reap-IsConsistent,
  resumes-IsConsistent, touch-IsConsistent, pause-IsConsistent,
}
use nexus_ide.Containers.{
  removal_ends, Containers, pending, get_or_create, is_in_flight, set_up, set_up_fails,
  release_workspace_container, timer_fires, touch_workspace_activity, hibernate_workspace_container,
  unhibernate_workspace_container, prewarm_workspace_container, resumes, reap,
}
use nexus_ide.Common.Dict
use nexus_ide.Common.Dict.{Dict, get-put, get-delete}
use nexus_ide.Common.{ℕ, String, ◌≡◌, refl, Bool, true, false, some, [], arith}
use nexus_ide.WarmPool.{WarmPool}
use nexus_ide.Containers.Entries.{OwnedBy, IsConsistent, flights}

-- What a user, Docker, the clock and the pool can do next.
pub data Step : Containers → Containers → Type 0 where
  acquire :
      (key : String) (now : ℕ) (s : Containers)
      → is_in_flight key s.in_flight ≡ false
      → Step s (get_or_create key now s)
  prewarm :
      (key : String) (now : ℕ) (s : Containers)
      → is_in_flight key s.in_flight ≡ false
      → Step s (prewarm_workspace_container key now s)
  enter : (key : String) (id now : ℕ) (s : Containers) → Step s (set_up key id now s)
  fail : (key : String) (s : Containers) → Step s (set_up_fails key s)
  release : (key : String) (s : Containers) → Step s (release_workspace_container key s)
  expire : (t : ℕ) (s : Containers) → Step s (timer_fires t s)
  touch : (key : String) (now : ℕ) (s : Containers) → Step s (touch_workspace_activity key now s)
  hibernate :
      (key : String) (succeeds : Bool) (s : Containers)
      → Step s (hibernate_workspace_container key succeeds s).1
  unhibernate :
      (key : String) (succeeds : Bool) (s : Containers)
      → Step s (unhibernate_workspace_container key succeeds s).1
  end_pause :
      (key : String) (id : ℕ) (unpaused : Bool) (now : ℕ) (s : Containers)
      → Step s (resumes key id unpaused now s)
  reap_one : (key : String) (now : ℕ) (s : Containers) → Step s (reap key now s)
  removal : (s : Containers) → Step s (removal_ends s)
  -- Filling and the like, which leave the number of sessions.
  pool_works :
      (p : WarmPool) (s : Containers)
      → p.active_terminal_sessions ≡ s.pool.active_terminal_sessions
      → Step s (record s { pool = p })

pub data Reach (s : Containers) : Containers → Type 0 where
  here : Reach s s
  next : {t u : Containers} → Reach s t → Step t u → Reach s u

Step-IsConsistent : {s s' : Containers} → Step s s' → IsConsistent s → IsConsistent s'
unfolding get_or_create prewarm_workspace_container release_workspace_container timer_fires
    touch_workspace_activity hibernate_workspace_container unhibernate_workspace_container reap
Step-IsConsistent (acquire key now s free) v =
    hit-IsConsistent key now (Dict.get key s.active) s refl free v
Step-IsConsistent (prewarm key now s free) v =
    prewarm-IsConsistent key now (Dict.get key s.active) s refl free v
Step-IsConsistent (enter key id now s) v = enter-IsConsistent key id now s v
Step-IsConsistent (fail key s) v = fail-IsConsistent key s v
Step-IsConsistent (release key s) v = release-IsConsistent key (Dict.get key s.active) s refl v
Step-IsConsistent (expire t s) v = fire-IsConsistent t (pending t s.timers) s refl v
Step-IsConsistent (touch key now s) v = touch-IsConsistent key now (Dict.get key s.active) s refl v
Step-IsConsistent (hibernate key ok s) v =
    pause-IsConsistent key true ok (Dict.get key s.active) s refl v
Step-IsConsistent (unhibernate key ok s) v =
    pause-IsConsistent key false ok (Dict.get key s.active) s refl v
Step-IsConsistent (end_pause key id unpaused now s) v = resumes-IsConsistent key id unpaused now s v
Step-IsConsistent (reap_one key now s) v =
    reap-IsConsistent key now (Dict.get key s.active) s refl v
Step-IsConsistent (removal s) v = removal-IsConsistent s v
Step-IsConsistent (pool_works p s same) v = record {
  owned = λ t k. v.owned t k;
  absent = λ k. v.absent k;
  single = λ k. v.single k;
}

pub Reach-IsConsistent : {s s' : Containers} → Reach s s' → IsConsistent s → IsConsistent s'
Reach-IsConsistent here v = v
Reach-IsConsistent (next r st) v = Step-IsConsistent st (Reach-IsConsistent r v)

-- The process when it starts.
abbrev pub start : WarmPool → Containers
start p = record {
  active = [];
  timers = [];
  next_timer = 0;
  in_flight = [];
  resuming = [];
  removed = [];
  removing = 0;
  pool = p;
}

pub start-IsConsistent : (p : WarmPool) → IsConsistent (start p)
unfolding Dict.get pending flights
start-IsConsistent p = record {
  owned = λ t k e. cc;
  absent = λ k f. refl;
  single = λ k. omega arith;
}

-- In every run in which no two calls set up a container for one workspace at a time, whatever fails and
-- whatever happens while a call waits for Docker, a pending timer is the current timeout of the container
-- that is in the map for its workspace. So a workspace has one timer at most, and none is left behind by a
-- container that is gone.
pub Reach-owned :
    (p : WarmPool) (s : Containers) (t : ℕ) (key : String)
    → Reach (start p) s
    → pending t s.timers ≡ some key
    → OwnedBy t (Dict.get key s.active)
Reach-owned p s t key r e = (Reach-IsConsistent r (start-IsConsistent p)).owned t key e
