-- ===== src/Containers.antt =====
-- backend/src/sandbox/workspaceContainer.ts: one container for each workspace, counted by its users,
-- over the warm pool (WarmPool). A call that finds no container pops one from the pool and waits for
-- its files; it is in flight until `set_up` or `set_up_fails`. A call that finds a paused container waits
-- for Docker until `resumes`, and a removal until `removal_ends`. Any other call, a pending timer and what the reaper does at one entry run as
-- one step. `removed` lists the containers that Docker was told to remove. The removal of all containers
-- at shutdown is not modelled.
pub mod Entries
pub mod Operations
pub mod Timers
pub mod Sizes
pub mod Counts
pub mod Sessions
pub mod Leaks
mod Examples
use nexus_ide.Common.Dict
use nexus_ide.Common.Dict.{Dict}
use nexus_ide.Common.{
  ℕ, ◌+◌, ◌-◌, ◌*◌, String, Bool, true, false, not, ◌&&◌, ◌||◌, Option, none, some, List, [], ◌∷◌,
  ◌++◌, map, ltb, ◌==◌, str_eq, if◌then◌else◌,
}
use nexus_ide.WarmPool.{WarmPool, pop_terminal_container, release_terminal_container}

pub record ContainerRef : Type 0 where
  pub id : ℕ
  pub ref_count : ℕ
  pub cleanup_timeout : Option ℕ
  pub is_paused : Bool
  pub last_activity_ms : ℕ

-- `timers` are the pending `setTimeout`s, each with the workspace that its callback closes over, and
-- `resuming` the calls that await `unpause`, each with its workspace and the container.
pub record Containers : Type 0 where
  pub active : Dict ContainerRef
  pub timers : List (ℕ × String)
  pub next_timer : ℕ
  pub in_flight : List String
  pub resuming : List (String × ℕ)
  pub removed : List ℕ
  -- Removals that are awaited; then the container is given back to the pool.
  pub removing : ℕ
  pub pool : WarmPool

-- `clearTimeout`
unfoldable pub clear_timer : ℕ → List (ℕ × String) → List (ℕ × String)
clear_timer t [] = []
clear_timer t ((u, k) ∷ ts) = let rest = clear_timer t ts in if u == t then rest else (u, k) ∷ rest

unfoldable pub clear_timeout : Option ℕ → List (ℕ × String) → List (ℕ × String)
unfolding clear_timer
clear_timeout none ts = ts
clear_timeout (some t) ts = clear_timer t ts

-- The workspace of a pending timer.
unfoldable pub pending : ℕ → List (ℕ × String) → Option String
pending t [] = none
pending t ((u, k) ∷ ts) = if u == t then some k else pending t ts

-- A container is used again, after an `unpause` that succeeded, that failed, or that was not needed.
unfoldable pub reused : Bool → ℕ → ContainerRef → ContainerRef
reused unpaused now ref = record ref {
  is_paused = ref.is_paused && not unpaused;
  ref_count = ref.ref_count + 1;
  last_activity_ms = now;
}

-- The call up to its end, or to its first wait.
pub hit : String → ℕ → Option ContainerRef → Containers → Containers
unfolding reused clear_timeout Dict.put pop_terminal_container
hit key now none s = record s {
  in_flight = s.in_flight ++ key ∷ [];
  pool = pop_terminal_container s.pool;
}
hit key now (some ref) s =
    let kept : ContainerRef = record ref { cleanup_timeout = none } in
    record s {
      active = Dict.put key (if ref.is_paused then kept else reused false now kept) s.active;
      timers = clear_timeout ref.cleanup_timeout s.timers;
      resuming = if ref.is_paused then s.resuming ++ (key, ref.id) ∷ [] else s.resuming;
    }

unfoldable pub get_or_create : String → ℕ → Containers → Containers
unfolding hit Dict.get
get_or_create key now s = hit key now (Dict.get key s.active) s

unfoldable pub is_resuming : String → ℕ → List (String × ℕ) → Bool
is_resuming key id [] = false
is_resuming key id ((k, i) ∷ l) = (str_eq k key && i == id) || is_resuming key id l

unfoldable pub remove_resuming : String → ℕ → List (String × ℕ) → List (String × ℕ)
remove_resuming key id [] = []
remove_resuming key id ((k, i) ∷ l) =
    let rest = remove_resuming key id l in if str_eq k key && i == id then l else (k, i) ∷ rest

-- What is done to an entry that has left the map shows nowhere.
pub resume_ref : String → ℕ → Bool → ℕ → Option ContainerRef → Containers → Containers
unfolding reused Dict.put
resume_ref key id unpaused now none s = s
resume_ref key id unpaused now (some ref) s =
    if ref.id == id
    then record s { active = Dict.put key (reused unpaused now ref) s.active }
    else s

-- `unpause` ends, and with it the call that awaits it.
unfoldable pub resumes : String → ℕ → Bool → ℕ → Containers → Containers
unfolding is_resuming remove_resuming resume_ref Dict.get
resumes key id unpaused now s =
    if is_resuming key id s.resuming
    then resume_ref key id unpaused now (Dict.get key s.active)
        (record s { resuming = remove_resuming key id s.resuming })
    else s

unfoldable pub remove_key : String → List String → List String
remove_key key [] = []
remove_key key (k ∷ ks) = if str_eq k key then ks else k ∷ remove_key key ks

unfoldable pub is_in_flight : String → List String → Bool
is_in_flight key [] = false
is_in_flight key (k ∷ ks) = str_eq k key || is_in_flight key ks

abbrev pub fresh : ℕ → ℕ → ContainerRef
fresh id now = record {
  id = id;
  ref_count = 1;
  cleanup_timeout = none;
  is_paused = false;
  last_activity_ms = now;
}

-- The end of a call that popped a container: it is entered, whatever the map holds by now.
unfoldable pub set_up : String → ℕ → ℕ → Containers → Containers
unfolding is_in_flight remove_key Dict.put
set_up key id now s =
    if is_in_flight key s.in_flight
    then record s {
      active = Dict.put key (fresh id now) s.active;
      in_flight = remove_key key s.in_flight;
    }
    else s

-- The query or the copying of the files throws, or the pool does.
unfoldable pub set_up_fails : String → Containers → Containers
unfolding remove_key
set_up_fails key s = record s { in_flight = remove_key key s.in_flight }

-- No user is left: the container gets a new timer in place of the old one.
pub schedule_cleanup : String → ContainerRef → Containers → Containers
unfolding clear_timeout Dict.put
schedule_cleanup key ref s = record s {
  active =
      Dict.put key (record ref { ref_count = 0; cleanup_timeout = some s.next_timer }) s.active;
  timers = (s.next_timer, key) ∷ clear_timeout ref.cleanup_timeout s.timers;
  next_timer = s.next_timer + 1;
}

pub release_ref : String → Option ContainerRef → Containers → Containers
unfolding schedule_cleanup Dict.put
release_ref key none s = s
release_ref key (some ref) s =
    if ltb 0 (ref.ref_count - 1)
    then record s { active = Dict.put key (record ref { ref_count = ref.ref_count - 1 }) s.active }
    else schedule_cleanup key ref s

unfoldable pub release_workspace_container : String → Containers → Containers
unfolding release_ref Dict.get
release_workspace_container key s = release_ref key (Dict.get key s.active) s

-- Out of the map, and Docker is told to remove it.
unfoldable pub remove_container : String → ContainerRef → Containers → Containers
unfolding Dict.delete
remove_container key ref s = record s {
  active = Dict.delete key s.active;
  removed = s.removed ++ ref.id ∷ [];
  removing = s.removing + 1;
}

-- Docker has done so, or has failed to.
unfoldable pub removal_ends : Containers → Containers
unfolding release_terminal_container
removal_ends s =
    if ltb 0 s.removing
    then record s { removing = s.removing - 1; pool = release_terminal_container s.pool }
    else s

cleanup_callback : String → Option ContainerRef → Containers → Containers
unfolding remove_container
cleanup_callback key none s = s
cleanup_callback key (some ref) s = if ltb 0 ref.ref_count then s else remove_container key ref s

pub fire : ℕ → Option String → Containers → Containers
unfolding clear_timer cleanup_callback Dict.get
fire t none s = s
fire t (some key) s =
    cleanup_callback key (Dict.get key s.active) (record s { timers = clear_timer t s.timers })

unfoldable pub timer_fires : ℕ → Containers → Containers
unfolding fire pending
timer_fires t s = fire t (pending t s.timers) s

pub touch_ref : String → ℕ → Option ContainerRef → Containers → Containers
unfolding Dict.put
touch_ref key now none s = s
touch_ref key now (some ref) s = record s {
  active = Dict.put key (record ref { last_activity_ms = now }) s.active;
}

unfoldable pub touch_workspace_activity : String → ℕ → Containers → Containers
unfolding touch_ref Dict.get
touch_workspace_activity key now s = touch_ref key now (Dict.get key s.active) s

-- Pausing and resuming; a call of Docker that throws gives false.
pub pause_ref : String → Bool → Bool → Option ContainerRef → Containers → Bool × Containers
unfolding Dict.put
pause_ref key paused succeeds none s = (false, s)
pause_ref key paused succeeds (some ref) s =
    if (if paused then not ref.is_paused else ref.is_paused) && succeeds
    then (true, record s { active = Dict.put key (record ref { is_paused = paused }) s.active })
    else (false, s)

unfoldable pub hibernate_workspace_container : String → Bool → Containers → Bool × Containers
unfolding pause_ref Dict.get
hibernate_workspace_container key succeeds s = pause_ref key true succeeds (Dict.get key s.active) s

unfoldable pub unhibernate_workspace_container : String → Bool → Containers → Bool × Containers
unfolding pause_ref Dict.get
unhibernate_workspace_container key succeeds s =
    pause_ref key false succeeds (Dict.get key s.active) s

pub prewarm_ref : String → ℕ → Option ContainerRef → Containers → Containers
unfolding get_or_create
prewarm_ref key now none s = get_or_create key now s
prewarm_ref key now (some ref) s = s

unfoldable pub prewarm_workspace_container : String → ℕ → Containers → Containers
unfolding prewarm_ref Dict.get
prewarm_workspace_container key now s = prewarm_ref key now (Dict.get key s.active) s

abbrev pub afk_limit_ms : ℕ
afk_limit_ms = 30 * 60 * 1000

-- What the reaper does at one entry of the map: a container idle for longer than the limit goes, whoever uses it.
pub reap_ref : String → ℕ → Option ContainerRef → Containers → Containers
unfolding clear_timeout remove_container
reap_ref key now none s = s
reap_ref key now (some ref) s =
    if ltb 0 ref.last_activity_ms && ltb afk_limit_ms (now - ref.last_activity_ms)
    then remove_container key ref (record s { timers = clear_timeout ref.cleanup_timeout s.timers })
    else s

unfoldable pub reap : String → ℕ → Containers → Containers
unfolding reap_ref Dict.get
reap key now s = reap_ref key now (Dict.get key s.active) s
