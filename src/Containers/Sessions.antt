-- ===== src/Containers/Sessions.antt =====
-- The pool's count of sessions: one for every container in the map, every call in flight and every set-up
-- that failed.
use nexus_ide.Containers.Counts.{
  removal-IsCounted, IsCounted, hit-IsCounted, release-IsCounted, enter-IsCounted, fire-IsCounted,
  reap-IsCounted, touch-IsCounted, pause-IsCounted, resumes-IsCounted, prewarm-IsCounted,
  fail-IsCounted, more,
}
use nexus_ide.Containers.Timers.{
  removal, Step, acquire, prewarm, enter, fail, release, expire, touch, hibernate, unhibernate,
  end_pause, reap_one, pool_works, Reach, here, next, start, Reach-IsConsistent, start-IsConsistent,
}
use nexus_ide.Containers.{
  removal_ends, Containers, pending, get_or_create, is_in_flight, set_up,
  release_workspace_container, timer_fires, touch_workspace_activity, hibernate_workspace_container,
  resumes, unhibernate_workspace_container, prewarm_workspace_container, reap,
}
use nexus_ide.Common.Dict
use nexus_ide.Common.Dict.{Dict}
use nexus_ide.Common.{ℕ, ◌+◌, ◌≡◌, refl, sym, true, false, arith, if◌then◌else◌, length}
use nexus_ide.WarmPool.{WarmPool}
use nexus_ide.Containers.Entries.{IsConsistent}

-- The set-ups that failed in a step, and in a run.
abbrev pub failed : {t u : Containers} → Step t u → ℕ
failed (fail key s) = if is_in_flight key s.in_flight then 1 else 0
failed (acquire key now s free) = 0
failed (prewarm key now s free) = 0
failed (enter key id now s) = 0
failed (release key s) = 0
failed (expire t s) = 0
failed (touch key now s) = 0
failed (hibernate key ok s) = 0
failed (unhibernate key ok s) = 0
failed (end_pause key id unpaused now s) = 0
failed (reap_one key now s) = 0
failed (removal s) = 0
failed (pool_works p s same) = 0

abbrev pub failures : {s t : Containers} → Reach s t → ℕ
failures here = 0
failures (next run st) = failures run + failed st

Step-IsCounted :
    (n : ℕ) {s s' : Containers} (st : Step s s')
    → IsConsistent s
    → IsCounted n s
    → IsCounted (n + failed st) s'
unfolding get_or_create prewarm_workspace_container release_workspace_container timer_fires
    touch_workspace_activity hibernate_workspace_container unhibernate_workspace_container reap
Step-IsCounted n (acquire key now s free) c v =
    more n (get_or_create key now s) (hit-IsCounted n key now (Dict.get key s.active) s refl v)
Step-IsCounted n (prewarm key now s free) c v =
    more n (prewarm_workspace_container key now s)
      (prewarm-IsCounted n key now (Dict.get key s.active) s v)
Step-IsCounted n (enter key id now s) c v =
    more n (set_up key id now s) (enter-IsCounted n key id now s c v)
Step-IsCounted n (fail key s) c v = fail-IsCounted n key s v
Step-IsCounted n (release key s) c v =
    more n (release_workspace_container key s)
      (release-IsCounted n key (Dict.get key s.active) s refl v)
Step-IsCounted n (expire t s) c v =
    more n (timer_fires t s) (fire-IsCounted n t (pending t s.timers) s v)
Step-IsCounted n (touch key now s) c v =
    more n (touch_workspace_activity key now s)
      (touch-IsCounted n key now (Dict.get key s.active) s refl v)
Step-IsCounted n (hibernate key ok s) c v =
    more n (hibernate_workspace_container key ok s).1
      (pause-IsCounted n key true ok (Dict.get key s.active) s refl v)
Step-IsCounted n (unhibernate key ok s) c v =
    more n (unhibernate_workspace_container key ok s).1
      (pause-IsCounted n key false ok (Dict.get key s.active) s refl v)
Step-IsCounted n (end_pause key id unpaused now s) c v =
    more n (resumes key id unpaused now s) (resumes-IsCounted n key id unpaused now s v)
Step-IsCounted n (reap_one key now s) c v =
    more n (reap key now s) (reap-IsCounted n key now (Dict.get key s.active) s refl v)
Step-IsCounted n (removal s) c v = more n (removal_ends s) (removal-IsCounted n s v)
Step-IsCounted n (pool_works p s same) c v = (omega (arith, v.0, same), v.1)

Reach-IsCounted :
    (p : WarmPool) (s : Containers) (run : Reach (start p) s)
    → p.active_terminal_sessions ≡ 0
    → IsCounted (failures run) s
Reach-IsCounted p s here none_yet = (omega (arith, none_yet), tt)
Reach-IsCounted p s (next {t = t} run st) none_yet =
    Step-IsCounted (failures run) st (Reach-IsConsistent run (start-IsConsistent p))
      (Reach-IsCounted p t run none_yet)

-- In every run in which no two calls set up a container for one workspace at a time, over a pool that
-- starts without sessions, the pool counts exactly one session for each container in the map, one for
-- each call in flight, one for each removal that is awaited, and one for each set-up that failed: those
-- are never given back.
pub Reach-counted :
    (p : WarmPool) (s : Containers) (run : Reach (start p) s)
    → p.active_terminal_sessions ≡ 0
    → s.pool.active_terminal_sessions
      ≡ length s.active + length s.in_flight + s.removing + failures run
Reach-counted p s run none_yet = sym (Reach-IsCounted p s run none_yet).0
