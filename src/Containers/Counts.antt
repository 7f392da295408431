-- ===== src/Containers/Counts.antt =====
-- What each operation does to the count of sessions.
use nexus_ide.Containers.{
  removal_ends, ContainerRef, Containers, clear_timer, clear_timeout, hit, get_or_create,
  remove_key, is_in_flight, fresh, set_up, set_up_fails, schedule_cleanup, release_ref,
  remove_container, cleanup_callback, fire, touch_ref, pause_ref, resume_ref, resumes, prewarm_ref,
  reap_ref, is_resuming, remove_resuming, afk_limit_ms,
}
use nexus_ide.Common.Dict
use nexus_ide.Common.Dict.{Dict}
use nexus_ide.Common.{
  ℕ, ◌+◌, ◌-◌, String, ◌≡◌, refl, Bool, false, Option, none, some, List, [], ◌∷◌, arith, ltb, not,
  ◌&&◌, ◌==◌, Bool-cases, inl, inr, if◌then◌else◌, length, length-append,
}
use nexus_ide.WarmPool.Sessions.{pop_sessions, release_sessions}
use nexus_ide.Containers.Entries.{IsConsistent, in_flight-flights}
use nexus_ide.Containers.Sizes.{
  IsKeyed, put-IsKeyed, delete-IsKeyed, length-put_new, length-put_old, length-delete,
  length-remove_key_in,
}

-- With `n` set-ups that failed.
abbrev pub IsCounted : ℕ → Containers → Type 0
IsCounted n s =
    (length s.active + length s.in_flight + s.removing + n ≡ s.pool.active_terminal_sessions)
    × IsKeyed s.active

-- An entry is replaced.
put-IsCounted :
    (n : ℕ) (key : String) (ref ref' : ContainerRef) (s : Containers)
    → Dict.get key s.active ≡ some ref
    → IsCounted n s
    → (length (Dict.put key ref' s.active) + length s.in_flight + s.removing + n
        ≡ s.pool.active_terminal_sessions)
      × IsKeyed (Dict.put key ref' s.active)
put-IsCounted n key ref ref' s g v =
    (omega (arith, v.0, length-put_old key ref' ref s.active g), put-IsKeyed key ref' s.active v.1)

remove-IsCounted :
    (n : ℕ) (key : String) (ref : ContainerRef) (s : Containers)
    → Dict.get key s.active ≡ some ref
    → IsCounted n s
    → IsCounted n (remove_container key ref s)
unfolding remove_container
remove-IsCounted n key ref s g v =
    (omega (arith, v.0, length-delete key ref s.active g v.1), delete-IsKeyed key s.active v.1)

pub hit-IsCounted :
    (n : ℕ) (key : String) (now : ℕ) (o : Option ContainerRef) (s : Containers)
    → Dict.get key s.active ≡ o
    → IsCounted n s
    → IsCounted n (hit key now o s)
unfolding hit
hit-IsCounted n key now none s g v =
    (omega (arith, v.0, pop_sessions s.pool, length-append s.in_flight (key ∷ [])), v.1)
hit-IsCounted n key now (some ref) s g v = put-IsCounted n key ref _ s g v

pub release-IsCounted :
    (n : ℕ) (key : String) (o : Option ContainerRef) (s : Containers)
    → Dict.get key s.active ≡ o
    → IsCounted n s
    → IsCounted n (release_ref key o s)
unfolding release_ref schedule_cleanup
release-IsCounted n key none s g v = v
release-IsCounted n key (some ref) s g v = elim (Bool-cases (ltb 0 (ref.ref_count - 1))) [
  | inl used ↦ rw used (put-IsCounted n key ref _ s g v)
  | inr last ↦ rw last (put-IsCounted n key ref _ s g v)
]

pub enter-IsCounted :
    (n : ℕ) (key : String) (id now : ℕ) (s : Containers)
    → IsConsistent s
    → IsCounted n s
    → IsCounted n (set_up key id now s)
unfolding set_up
enter-IsCounted n key id now s c v = elim (Bool-cases (is_in_flight key s.in_flight)) [
  | inr out ↦ rw out v
  | inl flying ↦
      let missing : Dict.get key s.active ≡ none =
        c.absent key (ground (arith, flying, in_flight-flights key s.in_flight)) in
      rw flying (
        omega (
          arith,
          v.0,
          length-put_new key (fresh id now) s.active missing,
          length-remove_key_in key s.in_flight flying,
        ),
        put-IsKeyed key (fresh id now) s.active v.1,
      )
]

callback-IsCounted :
    (n : ℕ) (key : String) (o : Option ContainerRef) (s : Containers)
    → Dict.get key s.active ≡ o
    → IsCounted n s
    → IsCounted n (cleanup_callback key o s)
unfolding cleanup_callback
callback-IsCounted n key none s g v = v
callback-IsCounted n key (some ref) s g v = elim (Bool-cases (ltb 0 ref.ref_count)) [
  | inl used ↦ rw used v
  | inr idle ↦ rw idle (remove-IsCounted n key ref s g v)
]

pub fire-IsCounted :
    (n t : ℕ) (o : Option String) (s : Containers) → IsCounted n s → IsCounted n (fire t o s)
unfolding fire
fire-IsCounted n t none s v = v
fire-IsCounted n t (some key) s v =
    callback-IsCounted n key (Dict.get key s.active) (record s { timers = clear_timer t s.timers })
      refl v

pub reap-IsCounted :
    (n : ℕ) (key : String) (now : ℕ) (o : Option ContainerRef) (s : Containers)
    → Dict.get key s.active ≡ o
    → IsCounted n s
    → IsCounted n (reap_ref key now o s)
unfolding reap_ref
reap-IsCounted n key now none s g v = v
reap-IsCounted n key now (some ref) s g v =
    elim (Bool-cases
      (ltb 0 ref.last_activity_ms && ltb afk_limit_ms (now - ref.last_activity_ms))) [
        | inl afk ↦ rw afk (
            remove-IsCounted n key ref
              (record s { timers = clear_timeout ref.cleanup_timeout s.timers }) g v)
        | inr busy ↦ rw busy v
      ]

pub touch-IsCounted :
    (n : ℕ) (key : String) (now : ℕ) (o : Option ContainerRef) (s : Containers)
    → Dict.get key s.active ≡ o
    → IsCounted n s
    → IsCounted n (touch_ref key now o s)
unfolding touch_ref
touch-IsCounted n key now none s g v = v
touch-IsCounted n key now (some ref) s g v = put-IsCounted n key ref _ s g v

pub pause-IsCounted :
    (n : ℕ) (key : String) (paused succeeds : Bool) (o : Option ContainerRef) (s : Containers)
    → Dict.get key s.active ≡ o
    → IsCounted n s
    → IsCounted n (pause_ref key paused succeeds o s).1
unfolding pause_ref
pause-IsCounted n key paused succeeds none s g v = v
pause-IsCounted n key paused succeeds (some ref) s g v =
    elim (Bool-cases ((if paused then not ref.is_paused else ref.is_paused) && succeeds)) [
      | inl done ↦ rw done (put-IsCounted n key ref _ s g v)
      | inr not_done ↦ rw not_done v
    ]

resume-IsCounted :
    (n : ℕ) (key : String) (id : ℕ) (unpaused : Bool) (now : ℕ) (o : Option ContainerRef)
    (s : Containers)
    → Dict.get key s.active ≡ o
    → IsCounted n s
    → IsCounted n (resume_ref key id unpaused now o s)
unfolding resume_ref
resume-IsCounted n key id unpaused now none s g v = v
resume-IsCounted n key id unpaused now (some ref) s g v = elim (Bool-cases (ref.id == id)) [
  | inl same ↦ rw same (put-IsCounted n key ref _ s g v)
  | inr other ↦ rw other v
]

pub resumes-IsCounted :
    (n : ℕ) (key : String) (id : ℕ) (unpaused : Bool) (now : ℕ) (s : Containers)
    → IsCounted n s
    → IsCounted n (resumes key id unpaused now s)
unfolding resumes
resumes-IsCounted n key id unpaused now s v = elim (Bool-cases (is_resuming key id s.resuming)) [
  | inr gone ↦ rw gone v
  | inl awaited ↦ rw awaited (
      resume-IsCounted n key id unpaused now (Dict.get key s.active)
        (record s { resuming = remove_resuming key id s.resuming }) refl v)
]

pub prewarm-IsCounted :
    (n : ℕ) (key : String) (now : ℕ) (o : Option ContainerRef) (s : Containers)
    → IsCounted n s
    → IsCounted n (prewarm_ref key now o s)
unfolding prewarm_ref get_or_create
prewarm-IsCounted n key now none s v = hit-IsCounted n key now (Dict.get key s.active) s refl v
prewarm-IsCounted n key now (some ref) s v = v

absent_stays : (k : String) (ks : List String) → is_in_flight k ks ≡ false → remove_key k ks ≡ ks
unfolding is_in_flight remove_key
absent_stays k [] h = refl
absent_stays k (j ∷ js) h = ground (arith, h, absent_stays k js)

pub fail-IsCounted :
    (n : ℕ) (key : String) (s : Containers)
    → IsCounted n s
    → IsCounted (n + (if is_in_flight key s.in_flight then 1 else 0)) (set_up_fails key s)
unfolding set_up_fails
fail-IsCounted n key s v = elim (Bool-cases (is_in_flight key s.in_flight)) [
  | inl flying ↦ rw flying (omega (arith, v.0, length-remove_key_in key s.in_flight flying), v.1)
  | inr out ↦ rw out (rw (absent_stays key s.in_flight out) (omega (arith, v.0)), v.1)
]

pub more : (n : ℕ) (s : Containers) → IsCounted n s → IsCounted (n + 0) s
more n s v = (omega (arith, v.0), v.1)

pub removal-IsCounted : (n : ℕ) (s : Containers) → IsCounted n s → IsCounted n (removal_ends s)
unfolding removal_ends
removal-IsCounted n s v = elim (Bool-cases (ltb 0 s.removing)) [
  | inl awaited ↦ rw awaited (ground (arith, v.0, awaited, release_sessions s.pool), v.1)
  | inr idle ↦ rw idle v
]
