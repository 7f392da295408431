-- ===== src/Containers/Entries.antt =====
-- What changes of one entry of the map leave of the timers.
use nexus_ide.Common.Dict
use nexus_ide.Common.Dict.{Dict, get-put, get-delete}
use nexus_ide.Common.{
  ℕ, ◌+◌, ◌-◌, ◌≤◌, ◌<◌, String, ◌≡◌, refl, sym, ap, subst, ◌∙◌, true, false, Option, none, some,
  List, [], ◌∷◌, ◌++◌, arith, ltb, ◌==◌, Bool-cases, ◌⊎◌, inl, inr, str_eq, eq_iff, eq_refl,
  if◌then◌else◌,
}
use nexus_ide.Containers.{
  ContainerRef, Containers, clear_timer, clear_timeout, pending, remove_key, is_in_flight,
  schedule_cleanup,
}

pub pending-clear :
    (t u : ℕ) (ts : List (ℕ × String))
    → pending t (clear_timer u ts) ≡ (if u == t then none else pending t ts)
unfolding pending clear_timer
pending-clear t u [] = ground arith
pending-clear t u ((v, k) ∷ ts) = ground (arith, pending-clear t u ts)

-- A timeout that is cleared is not pending, and nothing starts to be.
pub pending-clear_timeout :
    (t : ℕ) (o : Option ℕ) (ts : List (ℕ × String)) (k : String)
    → pending t (clear_timeout o ts) ≡ some k
    → (pending t ts ≡ some k) × ((o ≡ some t) → ⊥)
unfolding clear_timeout
pending-clear_timeout t none ts k e = (e, λ h. cc)
pending-clear_timeout t (some u) ts k e =
    (ground (arith, pending-clear t u ts), λ h. ground (arith, pending-clear t u ts, h))

-- How often a workspace is in flight.
unfoldable pub flights : String → List String → ℕ
flights k [] = 0
flights k (j ∷ js) = (if str_eq j k then 1 else 0) + flights k js

pub flights-append :
    (k j : String) (js : List String)
    → flights k (js ++ j ∷ []) ≡ flights k js + (if str_eq j k then 1 else 0)
unfolding flights
flights-append k j [] = omega arith
flights-append k j (i ∷ js) = omega (arith, flights-append k j js)

pub flights-remove :
    (k j : String) (js : List String)
    → flights k (remove_key j js) ≡ (if str_eq j k then flights k js - 1 else flights k js)
unfolding flights remove_key
flights-remove k j [] = ground arith
flights-remove k j (i ∷ js) =
    ground (arith, flights-remove k j js, eq_iff i j, eq_iff i k, eq_iff j k)

pub in_flight-flights : (k : String) (js : List String) → is_in_flight k js ≡ ltb 0 (flights k js)
unfolding flights is_in_flight
in_flight-flights k [] = refl
in_flight-flights k (i ∷ js) = ground (arith, in_flight-flights k js)

abbrev pub OwnedBy : ℕ → Option ContainerRef → Type 0
OwnedBy t none = ⊥
OwnedBy t (some ref) = ref.cleanup_timeout ≡ some t

pub record IsConsistent (s : Containers) : Type 0 where
  pub owned : (t : ℕ) (k : String) → pending t s.timers ≡ some k → OwnedBy t (Dict.get k s.active)
  pub absent : (k : String) → 0 < flights k s.in_flight → Dict.get k s.active ≡ none
  pub single : (k : String) → flights k s.in_flight ≤ 1

pub same_get {ℓ} :
    {V : Type ℓ} (j k : String) (m : Dict V) → str_eq j k ≡ true → Dict.get j m ≡ Dict.get k m
same_get j k m e = ap (λ i. Dict.get i m) ((eq_iff j k).0 e)

-- What is in the map is not in flight.
entered_absent :
    (key k : String) (ref : ContainerRef) (s : Containers)
    → Dict.get key s.active ≡ some ref
    → IsConsistent s
    → 0 < flights k s.in_flight
    → str_eq key k ≡ false
entered_absent key k ref s g v f = elim (Bool-cases (str_eq key k)) [
  | inl here_ ↦ cc (v.absent k f, same_get key k s.active here_, g)
  | inr other ↦ other
]

-- A pending timer of an entry is the entry's timeout.
owned_entry :
    (t : ℕ) (key k : String) (ref : ContainerRef) (s : Containers)
    → Dict.get key s.active ≡ some ref
    → IsConsistent s
    → pending t s.timers ≡ some k
    → str_eq key k ≡ true
    → OwnedBy t (some ref)
owned_entry t key k ref s g v e same =
    subst (OwnedBy t) (sym (same_get key k s.active same) ∙ g) (v.owned t k e)

-- The timers `ts` that are of a workspace are those of its entry; the others were pending before.
abbrev OwnTimers : String → ContainerRef → List (ℕ × String) → Containers → Type 0
OwnTimers key ref ts s =
    (t : ℕ) (k : String)
    → pending t ts ≡ some k
    → ((str_eq key k ≡ true) × OwnedBy t (some ref))
      ⊎ ((str_eq key k ≡ false) × (pending t s.timers ≡ some k))

-- An entry is replaced, and timers with it: of the timers left, those of the entry are its own.
put-IsConsistent :
    (key : String) (ref ref' : ContainerRef) (ts : List (ℕ × String)) (n : ℕ) (s : Containers)
    → Dict.get key s.active ≡ some ref
    → OwnTimers key ref' ts s
    → IsConsistent s
    → IsConsistent (record s { active = Dict.put key ref' s.active; timers = ts; next_timer = n })
put-IsConsistent key ref ref' ts n s g own v = record {
  owned = λ t k e. elim (own t k e) [
    | inl (mine, o) ↦ rw (get-put key k ref' s.active) (rw mine o)
    | inr (other, o) ↦ rw (get-put key k ref' s.active) (rw other (v.owned t k o))
  ];
  absent = λ k f.
      rw (get-put key k ref' s.active) (rw (entered_absent key k ref s g v f) (v.absent k f));
  single = λ k. v.single k;
}

-- The users and the timeout stay.
pub put_same :
    (key : String) (ref ref' : ContainerRef) (s : Containers)
    → Dict.get key s.active ≡ some ref
    → ref'.cleanup_timeout ≡ ref.cleanup_timeout
    → IsConsistent s
    → IsConsistent (record s { active = Dict.put key ref' s.active })
put_same key ref ref' s g same v = put-IsConsistent key ref ref' s.timers s.next_timer s g own v
  where
    own : OwnTimers key ref' s.timers s
    own t k e = elim (Bool-cases (str_eq key k)) [
      | inl mine ↦ let o = owned_entry t key k ref s g v e mine in inl (mine, same ∙ o)
      | inr other ↦ inr (other, e)
    ]

-- Its timeout is cleared.
pub put_cleared :
    (key : String) (ref ref' : ContainerRef) (s : Containers)
    → Dict.get key s.active ≡ some ref
    → IsConsistent s
    → IsConsistent (record s {
      active = Dict.put key ref' s.active;
      timers = clear_timeout ref.cleanup_timeout s.timers;
    })
put_cleared key ref ref' s g v =
    put-IsConsistent key ref ref' (clear_timeout ref.cleanup_timeout s.timers) s.next_timer s g own
      v
  where
    own : OwnTimers key ref' (clear_timeout ref.cleanup_timeout s.timers) s
    own t k e = elim (Bool-cases (str_eq key k)) [
      | inl mine ↦
          let c = pending-clear_timeout t ref.cleanup_timeout s.timers k e in
          absurd (c.1 (owned_entry t key k ref s g v c.0 mine))
      | inr other ↦ inr (other, (pending-clear_timeout t ref.cleanup_timeout s.timers k e).0)
    ]

pub schedule-IsConsistent :
    (key : String) (ref : ContainerRef) (s : Containers)
    → Dict.get key s.active ≡ some ref
    → IsConsistent s
    → IsConsistent (schedule_cleanup key ref s)
unfolding schedule_cleanup pending
schedule-IsConsistent key ref s g v =
    put-IsConsistent key ref (record ref { ref_count = 0; cleanup_timeout = some s.next_timer })
      ((s.next_timer, key) ∷ clear_timeout ref.cleanup_timeout s.timers) (s.next_timer + 1) s g own
      v
  where
    own :
        OwnTimers key
          (record ref { ref_count = 0; cleanup_timeout = some s.next_timer })
          ((s.next_timer, key) ∷ clear_timeout ref.cleanup_timeout s.timers)
          s
    own t k e = elim (Bool-cases (s.next_timer == t)) [
      | inl now ↦ inl (ground (arith, now, e, eq_refl key), ground (arith, now))
      | inr old ↦
          let rest : pending t (clear_timeout ref.cleanup_timeout s.timers) ≡ some k =
            (rw old at e) in
          let c = pending-clear_timeout t ref.cleanup_timeout s.timers k rest in
          elim (Bool-cases (str_eq key k)) [
            | inl mine ↦ absurd (c.1 (owned_entry t key k ref s g v c.0 mine))
            | inr other ↦ inr (other, c.0)
          ]
    ]

-- An entry goes, with its timeout.
pub delete-IsConsistent :
    (key : String) (ref : ContainerRef) (rest : List ℕ) (n : ℕ) (s : Containers)
    → Dict.get key s.active ≡ some ref
    → IsConsistent s
    → IsConsistent (record s {
      active = Dict.delete key s.active;
      timers = clear_timeout ref.cleanup_timeout s.timers;
      removed = rest;
      removing = n;
    })
delete-IsConsistent key ref rest n s g v = record {
  owned = λ t k e.
      let c = pending-clear_timeout t ref.cleanup_timeout s.timers k e in
      rw (get-delete key k s.active) (elim (Bool-cases (str_eq key k)) [
        | inl mine ↦ absurd (c.1 (owned_entry t key k ref s g v c.0 mine))
        | inr other ↦ rw other (v.owned t k c.0)
      ]);
  absent = λ k f. ground (arith, get-delete key k s.active, v.absent k f);
  single = λ k. v.single k;
}

-- Fewer timers leave the rest as it was.
pub fewer-IsConsistent :
    (ts : List (ℕ × String)) (s : Containers)
    → ((t : ℕ) (k : String) → pending t ts ≡ some k → pending t s.timers ≡ some k)
    → IsConsistent s
    → IsConsistent (record s { timers = ts })
fewer-IsConsistent ts s fewer v = record {
  owned = λ t k e. v.owned t k (fewer t k e);
  absent = λ k. v.absent k;
  single = λ k. v.single k;
}
