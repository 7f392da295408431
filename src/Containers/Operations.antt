-- ===== src/Containers/Operations.antt =====
-- What each operation does to the map of containers and the timers.
use nexus_ide.Containers.{
  removal_ends, ContainerRef, Containers, clear_timer, clear_timeout, pending, reused, hit,
  get_or_create, is_in_flight, fresh, set_up, set_up_fails, release_ref, remove_container,
  cleanup_callback, fire, touch_ref, pause_ref, prewarm_ref, reap_ref, afk_limit_ms, is_resuming,
  remove_resuming, resume_ref, resumes,
}
use nexus_ide.Common.{
  ◌+◌, ℕ, ◌-◌, String, ◌≡◌, refl, sym, ap, subst, ◌∙◌, Bool, false, not, ◌&&◌, Option, none, some,
  [], ◌∷◌, ◌++◌, arith, ltb, ◌==◌, Bool-cases, inl, inr, str_eq, eq_iff, if◌then◌else◌,
}
use nexus_ide.Common.Dict
use nexus_ide.Common.Dict.{Dict, get-put, get-delete}
use nexus_ide.Containers.Entries.{
  OwnedBy, IsConsistent, flights, pending-clear_timeout, flights-append, flights-remove,
  in_flight-flights, put_same, put_cleared, schedule-IsConsistent, delete-IsConsistent, same_get,
  fewer-IsConsistent,
}

pub hit-IsConsistent :
    (key : String) (now : ℕ) (o : Option ContainerRef) (s : Containers)
    → Dict.get key s.active ≡ o
    → is_in_flight key s.in_flight ≡ false
    → IsConsistent s
    → IsConsistent (hit key now o s)
unfolding hit
hit-IsConsistent key now (some ref) s g free v =
    let kept : ContainerRef = record ref { cleanup_timeout = none } in
    let w = put_cleared key ref (if ref.is_paused then kept else reused false now kept) s g v in
    record {
      owned = λ t k e. w.owned t k e;
      absent = λ k f. w.absent k f;
      single = λ k. w.single k;
    }
hit-IsConsistent key now none s g free v = record {
  owned = λ t k e. v.owned t k e;
  absent = λ k f. elim (Bool-cases (str_eq key k)) [
    | inl mine ↦ sym (same_get key k s.active mine) ∙ g
    | inr other ↦ v.absent k (ground (arith, other, f, flights-append k key s.in_flight))
  ];
  single = λ k. elim (Bool-cases (str_eq key k)) [
    | inl mine ↦ ground (
      arith,
      mine,
      free,
      in_flight-flights key s.in_flight,
      flights-append k key s.in_flight,
      ap (λ j. flights j s.in_flight) ((eq_iff key k).0 mine),
    )
    | inr other ↦ ground (arith, other, v.single k, flights-append k key s.in_flight)
  ];
}

pub resume-IsConsistent :
    (key : String) (id : ℕ) (unpaused : Bool) (now : ℕ) (o : Option ContainerRef) (s : Containers)
    → Dict.get key s.active ≡ o
    → IsConsistent s
    → IsConsistent (resume_ref key id unpaused now o s)
unfolding resume_ref reused
resume-IsConsistent key id unpaused now none s g v = v
resume-IsConsistent key id unpaused now (some ref) s g v = elim (Bool-cases (ref.id == id)) [
  | inl same ↦ rw same (put_same key ref (reused unpaused now ref) s g refl v)
  | inr other ↦ rw other v
]

pub resumes-IsConsistent :
    (key : String) (id : ℕ) (unpaused : Bool) (now : ℕ) (s : Containers)
    → IsConsistent s
    → IsConsistent (resumes key id unpaused now s)
unfolding resumes
resumes-IsConsistent key id unpaused now s v = elim (Bool-cases (is_resuming key id s.resuming)) [
  | inr gone ↦ rw gone v
  | inl awaited ↦ rw awaited (
      resume-IsConsistent key id unpaused now (Dict.get key s.active)
        (record s { resuming = remove_resuming key id s.resuming }) refl
        (record {
          owned = λ t k e. v.owned t k e;
          absent = λ k f. v.absent k f;
          single = λ k. v.single k;
        }))
]

pub prewarm-IsConsistent :
    (key : String) (now : ℕ) (o : Option ContainerRef) (s : Containers)
    → Dict.get key s.active ≡ o
    → is_in_flight key s.in_flight ≡ false
    → IsConsistent s
    → IsConsistent (prewarm_ref key now o s)
unfolding prewarm_ref get_or_create
prewarm-IsConsistent key now none s g free v =
    hit-IsConsistent key now (Dict.get key s.active) s refl free v
prewarm-IsConsistent key now (some ref) s g free v = v

pub enter-IsConsistent :
    (key : String) (id now : ℕ) (s : Containers)
    → IsConsistent s
    → IsConsistent (set_up key id now s)
unfolding set_up
enter-IsConsistent key id now s v = elim (Bool-cases (is_in_flight key s.in_flight)) [
  | inr out ↦ rw out v
  | inl flying ↦
      let missing : Dict.get key s.active ≡ none =
        v.absent key (ground (arith, flying, in_flight-flights key s.in_flight)) in
      rw flying (record {
        owned = λ t k e.
            rw (get-put key k (fresh id now) s.active) (elim (Bool-cases (str_eq key k)) [
              | inl mine ↦
                  elim (subst (OwnedBy t) (sym (same_get key k s.active mine) ∙ missing)
                    (v.owned t k e)) [ ]
              | inr other ↦ rw other (v.owned t k e)
            ]);
        absent = λ k f. elim (Bool-cases (str_eq key k)) [
          | inl mine ↦
              absurd (ground (arith, mine, f, v.single k, flights-remove k key s.in_flight))
          | inr other ↦
              rw (get-put key k (fresh id now) s.active)
                (rw other (v.absent k (ground (arith, other, f, flights-remove k key s.in_flight))))
        ];
        single = λ k. ground (arith, v.single k, flights-remove k key s.in_flight);
      })
]

pub fail-IsConsistent :
    (key : String) (s : Containers) → IsConsistent s → IsConsistent (set_up_fails key s)
unfolding set_up_fails
fail-IsConsistent key s v = record {
  owned = λ t k e. v.owned t k e;
  absent = λ k f. v.absent k (ground (arith, f, flights-remove k key s.in_flight));
  single = λ k. ground (arith, v.single k, flights-remove k key s.in_flight);
}

pub release-IsConsistent :
    (key : String) (o : Option ContainerRef) (s : Containers)
    → Dict.get key s.active ≡ o
    → IsConsistent s
    → IsConsistent (release_ref key o s)
unfolding release_ref
release-IsConsistent key none s g v = v
release-IsConsistent key (some ref) s g v = elim (Bool-cases (ltb 0 (ref.ref_count - 1))) [
  | inl used ↦ rw used (put_same key ref (record ref { ref_count = ref.ref_count - 1 }) s g refl v)
  | inr last ↦ rw last (schedule-IsConsistent key ref s g v)
]

pub fire-IsConsistent :
    (t : ℕ) (o : Option String) (s : Containers)
    → pending t s.timers ≡ o
    → IsConsistent s
    → IsConsistent (fire t o s)
unfolding fire cleanup_callback remove_container clear_timeout
fire-IsConsistent t none s e v = v
fire-IsConsistent t (some key) s e v = go (Dict.get key s.active) refl
  where
    go :
        (o : Option ContainerRef)
        → Dict.get key s.active ≡ o
        → IsConsistent (cleanup_callback key o (record s { timers = clear_timer t s.timers }))
    go none g = elim (subst (OwnedBy t) g (v.owned t key e)) [ ]
    go (some ref) g =
        let own : OwnedBy t (some ref) = subst (OwnedBy t) g (v.owned t key e) in
        elim (Bool-cases (ltb 0 ref.ref_count)) [
          | inl used ↦ rw used (
              fewer-IsConsistent (clear_timer t s.timers) s
                (λ u k h. (pending-clear_timeout u (some t) s.timers k h).0) v)
          | inr idle ↦ rw idle (
              subst
                (λ c. IsConsistent (record s {
                  active = Dict.delete key s.active;
                  timers = clear_timeout c s.timers;
                  removed = s.removed ++ ref.id ∷ [];
                  removing = s.removing + 1;
                }))
                own (delete-IsConsistent key ref (s.removed ++ ref.id ∷ []) (s.removing + 1) s g v))
        ]

pub reap-IsConsistent :
    (key : String) (now : ℕ) (o : Option ContainerRef) (s : Containers)
    → Dict.get key s.active ≡ o
    → IsConsistent s
    → IsConsistent (reap_ref key now o s)
unfolding reap_ref remove_container
reap-IsConsistent key now none s g v = v
reap-IsConsistent key now (some ref) s g v =
    elim (Bool-cases
      (ltb 0 ref.last_activity_ms && ltb afk_limit_ms (now - ref.last_activity_ms))) [
        | inl afk ↦
            rw afk (delete-IsConsistent key ref (s.removed ++ ref.id ∷ []) (s.removing + 1) s g v)
        | inr busy ↦ rw busy v
      ]

pub touch-IsConsistent :
    (key : String) (now : ℕ) (o : Option ContainerRef) (s : Containers)
    → Dict.get key s.active ≡ o
    → IsConsistent s
    → IsConsistent (touch_ref key now o s)
unfolding touch_ref
touch-IsConsistent key now none s g v = v
touch-IsConsistent key now (some ref) s g v =
    put_same key ref (record ref { last_activity_ms = now }) s g refl v

pub pause-IsConsistent :
    (key : String) (paused succeeds : Bool) (o : Option ContainerRef) (s : Containers)
    → Dict.get key s.active ≡ o
    → IsConsistent s
    → IsConsistent (pause_ref key paused succeeds o s).1
unfolding pause_ref
pause-IsConsistent key paused succeeds none s g v = v
pause-IsConsistent key paused succeeds (some ref) s g v =
    elim (Bool-cases ((if paused then not ref.is_paused else ref.is_paused) && succeeds)) [
      | inl done ↦ rw done (put_same key ref (record ref { is_paused = paused }) s g refl v)
      | inr not_done ↦ rw not_done v
    ]

pub removal-IsConsistent : (s : Containers) → IsConsistent s → IsConsistent (removal_ends s)
unfolding removal_ends
removal-IsConsistent s v = elim (Bool-cases (ltb 0 s.removing)) [
  | inl awaited ↦ rw awaited (record {
    owned = λ t k e. v.owned t k e;
    absent = λ k f. v.absent k f;
    single = λ k. v.single k;
  })
  | inr idle ↦ rw idle v
]
