-- ===== src/Containers/Examples.antt =====
-- A workspace opened, left and removed.
use nexus_ide.Common.Dict
use nexus_ide.Common.{◌≡◌, ◌+◌, length, refl, true, false, some, [], ◌∷◌}
use nexus_ide.WarmPool.{WarmPool}
use nexus_ide.Containers.{
  ContainerRef, Containers, set_up_fails, resumes, fresh, get_or_create, set_up,
  release_workspace_container, timer_fires, pending, is_in_flight, hibernate_workspace_container,
  reap,
}
use nexus_ide.Containers.Entries.{OwnedBy}
use nexus_ide.Containers.Timers.{
  Reach, here, next, acquire, enter, fail, release, start, Reach-owned,
}
use nexus_ide.Containers.Sessions.{failures, Reach-counted}
use nexus_ide.Containers.Leaks.{early_release_lost, second_set_up_overwrites}

abbrev pool : WarmPool
pool = record {
  is_demo_mode = false;
  terminal_pool_size = 2;
  terminal_pool = 0 ∷ 1 ∷ [];
  active_terminal_sessions = 0;
  replenishing_terminal = false;
  fillers = 0;
  on_demand = 0;
  created = 2;
  delivered = [];
  removed = [];
}

abbrev opened : Containers
opened = set_up "w" 0 200 (get_or_create "w" 100 (start pool))

abbrev left : Containers
left = release_workspace_container "w" opened

removed_after_grace : (timer_fires 0 left).removed ≡ 0 ∷ []
unfolding timer_fires release_workspace_container set_up get_or_create
removed_after_grace = refl

reaped : (reap "w" 2000000 opened).active ≡ []
unfolding reap set_up get_or_create
reaped = refl

paused : (hibernate_workspace_container "w" true opened).0 ≡ true
unfolding hibernate_workspace_container set_up get_or_create
paused = refl

abbrev Reach-left : Reach (start pool) left
unfolding is_in_flight
Reach-left =
    next
      (next (next here (acquire "w" 100 (start pool) refl))
        (enter "w" 0 200 (get_or_create "w" 100 (start pool))))
      (release "w" opened)

Reach-owned_example : OwnedBy 0 (Dict.get "w" left.active)
unfolding pending release_workspace_container set_up get_or_create
Reach-owned_example = Reach-owned pool left 0 "w" Reach-left refl

-- Then a second workspace, whose set-up fails.
abbrev failed_once : Containers
failed_once = set_up_fails "v" (get_or_create "v" 300 left)

abbrev Reach-failed_once : Reach (start pool) failed_once
unfolding is_in_flight get_or_create set_up release_workspace_container
Reach-failed_once =
    next (next Reach-left (acquire "v" 300 left refl)) (fail "v" (get_or_create "v" 300 left))

Reach-counted_example :
    failed_once.pool.active_terminal_sessions
    ≡ length failed_once.active
      + length failed_once.in_flight
      + failed_once.removing
      + failures Reach-failed_once
Reach-counted_example = Reach-counted pool failed_once Reach-failed_once refl

-- One container in the map, and a session that is lost.
one_lost : failed_once.pool.active_terminal_sessions ≡ 2
unfolding set_up_fails get_or_create set_up release_workspace_container
one_lost = refl

abbrev paused_ref : ContainerRef
paused_ref = record {
  id = 4;
  ref_count = 0;
  cleanup_timeout = some 0;
  is_paused = true;
  last_activity_ms = 50;
}

abbrev paused_once : Containers
paused_once = record (start pool) {
  active = ("w", paused_ref) ∷ [];
  timers = (0, "w") ∷ [];
  next_timer = 1;
}

early_release_lost_example :
    (Dict.get "w"
        (timer_fires 1 (
          resumes "w" 4 true 300
            (release_workspace_container "w" (get_or_create "w" 200 paused_once)))).active
      ≡ some (record paused_ref {
        is_paused = false;
        ref_count = 1;
        cleanup_timeout = some 1;
        last_activity_ms = 300;
      }))
    × (pending 1 (release_workspace_container "w" (get_or_create "w" 200 paused_once)).timers
        ≡ some "w")
    × ((timer_fires 1 (
          resumes "w" 4 true 300
            (release_workspace_container "w" (get_or_create "w" 200 paused_once)))).removed
        ≡ [])
unfolding Dict.get
early_release_lost_example =
    early_release_lost "w" true 200 300 paused_ref paused_once refl refl refl

second_set_up_overwrites_example :
    (Dict.get "w"
        (set_up "w" 1 400
          (set_up "w" 0 300 (get_or_create "w" 400 (get_or_create "w" 300 (start pool))))).active
      ≡ some (fresh 1 400))
    × ((set_up "w" 1 400
          (set_up "w" 0 300 (get_or_create "w" 400 (get_or_create "w" 300 (start pool))))).removed
        ≡ [])
unfolding Dict.get
second_set_up_overwrites_example = second_set_up_overwrites "w" 0 1 300 400 (start pool) refl refl
