-- ===== src/Containers/Leaks.antt =====
-- Where containers are lost.
use nexus_ide.Common.Dict
use nexus_ide.Common.Dict.{get-put}
use nexus_ide.Common.{
  ℕ, ◌+◌, String, ◌≡◌, refl, Bool, true, not, none, some, List, [], ◌∷◌, ◌++◌, arith, eq_refl,
  eq_self,
}
use nexus_ide.WarmPool.Sessions.{pop_sessions}
use nexus_ide.Containers.{
  ContainerRef, Containers, pending, reused, is_resuming, resume_ref, resumes, schedule_cleanup,
  release_ref, release_workspace_container, cleanup_callback, fire, timer_fires, hit, get_or_create,
  remove_key, is_in_flight, fresh, set_up, set_up_fails,
}

resuming-last :
    (key : String) (id : ℕ) (l : List (String × ℕ))
    → is_resuming key id (l ++ (key, id) ∷ []) ≡ true
unfolding is_resuming
resuming-last key id [] = rw (eq_refl key, eq_self id) refl
resuming-last key id ((k, i) ∷ l) = ground (arith, resuming-last key id l)

-- Two users open a workspace that has no container, and both calls pop one: the second container
-- that is set up takes the place of the first in the map. The first is not removed, and of the two
-- users only one is counted.
pub second_set_up_overwrites :
    (key : String) (first second now later : ℕ) (s : Containers)
    → Dict.get key s.active ≡ none
    → s.in_flight ≡ []
    → (Dict.get key
          (set_up key second later
            (set_up key first now (get_or_create key later (get_or_create key now s)))).active
        ≡ some (fresh second later))
      × ((set_up key second later
            (set_up key first now (get_or_create key later (get_or_create key now s)))).removed
          ≡ s.removed)
unfolding get_or_create hit set_up is_in_flight remove_key
second_set_up_overwrites key first second now later s g none_yet =
    simp (g, none_yet, eq_refl, get-put) (refl, refl)

-- Where the set-up of a container fails, the pool's count of sessions stays one too high, and the
-- container that was popped is neither in the map nor removed.
pub failed_set_up_leaks :
    (key : String) (now : ℕ) (s : Containers)
    → Dict.get key s.active ≡ none
    → ((set_up_fails key (get_or_create key now s)).pool.active_terminal_sessions
        ≡ s.pool.active_terminal_sessions + 1)
      × ((set_up_fails key (get_or_create key now s)).active ≡ s.active)
      × ((set_up_fails key (get_or_create key now s)).removed ≡ s.removed)
unfolding get_or_create hit set_up_fails
failed_set_up_leaks key now s g = rw g (pop_sessions s.pool, refl, refl)

-- A call finds a paused container without users, and its user leaves before Docker has resumed it: the
-- release is lost. In the end the container counts one user, and the timer that the release has set does
-- not remove it.
pub early_release_lost :
    (key : String) (unpaused : Bool) (now later : ℕ) (ref : ContainerRef) (s : Containers)
    → Dict.get key s.active ≡ some ref
    → ref.is_paused ≡ true
    → ref.ref_count ≡ 0
    → (Dict.get key
          (timer_fires s.next_timer (
            resumes key ref.id unpaused later
              (release_workspace_container key (get_or_create key now s)))).active
        ≡ some (record ref {
          is_paused = not unpaused;
          ref_count = 1;
          cleanup_timeout = some s.next_timer;
          last_activity_ms = later;
        }))
      × (pending s.next_timer (release_workspace_container key (get_or_create key now s)).timers
          ≡ some key)
      × ((timer_fires s.next_timer (
            resumes key ref.id unpaused later
              (release_workspace_container key (get_or_create key now s)))).removed
          ≡ s.removed)
unfolding get_or_create hit release_workspace_container release_ref schedule_cleanup resumes
    resume_ref reused is_resuming timer_fires fire cleanup_callback pending
early_release_lost key unpaused now later ref s g paused idle =
    simp (g, paused, idle, eq_refl, eq_self, get-put, resuming-last)
      (unfold reused in (refl, refl, refl))
