-- ===== src/DocRoom/OneDocument.antt =====
-- A room has one document at a time, where sockets close once and final saves do not overlap.
use nexus_ide.Common.{
  ℕ, ◌+◌, ◌<◌, ◌≡◌, ◌≢◌, refl, sym, ap, subst, ◌∙◌, true, Option, none, some, List, [], ◌∷◌, ◌++◌,
  arith, Bool-cases, eq_self, inl, inr, length, length-append,
}
use nexus_ide.DocRoom.{
  Room, has_pair, has_number, remove_pair, remove_number, register, arrive, join, is_unused, leave,
  save_ends,
}
use nexus_ide.DocRoom.Connections.{
  AllOf, AllDead, AtMostOne, AllOf-append, AllOf-remove, AllOf-pair, length-remove, AllOf-none,
  no_conns, no_length, AllDead-later, AllDead-none,
}

-- A close handler may run for any socket and document, also for a socket whose handler ran before, and
-- the final saves that are awaited end in any order.
pub data Step : Room → Room → Type 0 where
  arrives : (s : ℕ) (r : Room) → Step r (arrive s r)
  joins : (d s : ℕ) (r : Room) → Step r (join d s r)
  leaves : (d s : ℕ) (r : Room) → Step r (leave d s r)
  saved : (d : ℕ) (r : Room) → has_number d r.saving ≡ true → Step r (save_ends d r)

pub data Reach (r : Room) : Room → Type 0 where
  here : Reach r r
  next : {t u : Room} → Reach r t → Step t u → Reach r u

-- The close handler runs for a socket that is still connected, and starts a final save only while no
-- other one is awaited.
abbrev pub IsOrderlyStep : {t u : Room} → Step t u → Type 0
IsOrderlyStep (arrives s r) = Unit
IsOrderlyStep (joins d s r) = Unit
IsOrderlyStep (leaves d s r) =
    (has_pair d s r.conns ≡ true) × ((leave d s r).saving ≢ r.saving → r.saving ≡ [])
IsOrderlyStep (saved d r awaited) = Unit

abbrev pub IsOrderly : {r t : Room} → Reach r t → Type 0
IsOrderly here = Unit
IsOrderly (next run st) = IsOrderly run × IsOrderlyStep st

pub record IsWhole (r : Room) : Type 0 where
  pub connected : AllOf r.registered r.conns
  pub arriving : AllOf r.registered r.awaiting
  pub counted : r.pending_conns ≡ length r.awaiting
  pub saves : AtMostOne r.registered r.saving
  pub born : (d : ℕ) → r.registered ≡ some d → d < r.next_document
  pub dead : AllDead r.next_document r.registered r.destroyed

arrive-IsWhole :
    (s : ℕ) (o : Option ℕ) (r : Room) → r.registered ≡ o → IsWhole r → IsWhole (arrive s r)
unfolding arrive register
arrive-IsWhole s (some d) r e v = rw e (record {
  connected = rw e at v.connected;
  arriving = AllOf-append (some d) r.awaiting d s (rw e at v.arriving) refl;
  counted = omega (arith, v.counted, length-append r.awaiting ((d, s) ∷ []));
  saves = rw e at v.saves;
  born = λ c q. v.born c (e ∙ q);
  dead = rw e at v.dead;
})
arrive-IsWhole s none r e v =
    let nobody : r.awaiting ≡ [] = AllOf-none r.awaiting r.registered e v.arriving in
    let nothing : r.conns ≡ [] = AllOf-none r.conns r.registered e v.connected in
    rw e (record {
      connected = subst (AllOf (some r.next_document)) (sym nothing) tt;
      arriving =
          subst (λ l. AllOf (some r.next_document) (l ++ (r.next_document, s) ∷ [])) (sym nobody)
            (refl, tt);
      counted = omega (arith, v.counted, length-append r.awaiting ((r.next_document, s) ∷ []));
      saves = none_saved r.saving (rw e at v.saves);
      born = λ c q. ground (arith, q);
      dead =
          AllDead-later r.next_document (r.next_document + 1) (some r.next_document) r.destroyed
            (omega arith) (λ c lt q. ground (arith, lt, q)) (rw e at v.dead);
    })
  where
    none_saved : (l : List ℕ) → AtMostOne none l → AtMostOne (some r.next_document) l
    none_saved [] a = tt
    none_saved (c ∷ []) a = cc
    none_saved (c ∷ b ∷ l) a = a

join-IsWhole : (d s : ℕ) (r : Room) → IsWhole r → IsWhole (join d s r)
unfolding join
join-IsWhole d s r v = elim (Bool-cases (has_pair d s r.awaiting)) [
  | inr absent ↦ rw absent v
  | inl h ↦ rw h (record {
    connected =
        AllOf-append r.registered r.conns d s v.connected
          (AllOf-pair r.registered r.awaiting d s v.arriving h);
    arriving = AllOf-remove r.registered r.awaiting d s v.arriving;
    counted = omega (arith, v.counted, length-remove r.awaiting d s h);
    saves = v.saves;
    born = λ c q. v.born c q;
    dead = v.dead;
  })
]

longer : (l : List ℕ) (d : ℕ) → l ++ d ∷ [] ≢ l
longer l d e = absurd (omega (arith, ap length e, length-append l (d ∷ [])))

leave-IsWhole :
    (d s : ℕ) (r : Room)
    → has_pair d s r.conns ≡ true
    → ((leave d s r).saving ≢ r.saving → r.saving ≡ [])
    → IsWhole r
    → IsWhole (leave d s r)
unfolding leave
leave-IsWhole d s r h one v =
    elim (Bool-cases (is_unused d (record r { conns = remove_pair d s r.conns }))) [
      | inr used ↦ rw used (record {
        connected = AllOf-remove r.registered r.conns d s v.connected;
        arriving = v.arriving;
        counted = v.counted;
        saves = v.saves;
        born = λ c q. v.born c q;
        dead = v.dead;
      })
      | inl unused ↦
          let idle : r.saving ≡ [] = one (rw unused (longer r.saving d)) in
          rw unused (record {
            connected = AllOf-remove r.registered r.conns d s v.connected;
            arriving = v.arriving;
            counted = v.counted;
            saves =
                subst (λ l. AtMostOne r.registered (l ++ d ∷ [])) (sym idle)
                  (AllOf-pair r.registered r.conns d s v.connected h);
            born = λ c q. v.born c q;
            dead = v.dead;
          })
    ]

only_save :
    (o : Option ℕ) (d : ℕ) (l : List ℕ)
    → AtMostOne o l
    → has_number d l ≡ true
    → (l ≡ d ∷ []) × (o ≡ some d)
unfolding has_number
only_save o d [] a h = cc
only_save o d (c ∷ []) a h =
    let same : c ≡ d = ground (arith, h) in (ap (λ x. x ∷ []) same, a ∙ ap some same)
only_save o d (c ∷ b ∷ l) a h = elim a [ ]

save_ends-IsWhole :
    (d : ℕ) (r : Room) → has_number d r.saving ≡ true → IsWhole r → IsWhole (save_ends d r)
unfolding save_ends remove_number
save_ends-IsWhole d r h v =
    let (e, mine) = only_save r.registered d r.saving v.saves h in
    let gone : remove_number d r.saving ≡ [] = ap (remove_number d) e ∙ rw (eq_self d) refl in
    elim (Bool-cases (is_unused d r)) [
      | inr used ↦ rw used (record {
        connected = v.connected;
        arriving = v.arriving;
        counted = v.counted;
        saves = subst (AtMostOne r.registered) (sym gone) tt;
        born = λ c q. v.born c q;
        dead = v.dead;
      })
      | inl unused ↦
          let nothing : r.conns ≡ [] =
            no_conns r.conns r.registered d mine v.connected (ground (arith, unused)) in
          let nobody : r.awaiting ≡ [] = no_length r.awaiting (ground (arith, unused, v.counted)) in
          rw unused (record {
            connected = subst (AllOf none) (sym nothing) tt;
            arriving = subst (AllOf none) (sym nobody) tt;
            counted = v.counted;
            saves = subst (AtMostOne none) (sym gone) tt;
            born = λ c q. cc;
            dead = AllDead-none r.next_document d r.registered r.destroyed (v.born d mine) v.dead;
          })
    ]

Step-IsWhole : {r r' : Room} (st : Step r r') → IsOrderlyStep st → IsWhole r → IsWhole r'
Step-IsWhole (arrives s r) o v = arrive-IsWhole s r.registered r refl v
Step-IsWhole (joins d s r) o v = join-IsWhole d s r v
Step-IsWhole (leaves d s r) o v = leave-IsWhole d s r o.0 o.1 v
Step-IsWhole (saved d r h) o v = save_ends-IsWhole d r h v

Reach-IsWhole : {r r' : Room} (run : Reach r r') → IsOrderly run → IsWhole r → IsWhole r'
Reach-IsWhole here o v = v
Reach-IsWhole (next run st) o v = Step-IsWhole st o.1 (Reach-IsWhole run o.0 v)

abbrev pub empty_room : Room
empty_room = record {
  registered = none;
  next_document = 0;
  pending_conns = 0;
  awaiting = [];
  conns = [];
  saving = [];
  destroyed = [];
}

-- In every run in which no close handler runs for a socket that is not connected (as it does a second
-- time for a socket that was closing when its document came) and a final save ends before the next one
-- starts, each socket of the room, connected or waiting, is at the document that is registered, which was
-- not destroyed; so all of them are at the same one. The pending connections are those that wait.
pub one_document :
    (r : Room) (run : Reach empty_room r)
    → IsOrderly run
    → AllOf r.registered r.conns
      × AllOf r.registered r.awaiting
      × (r.pending_conns ≡ length r.awaiting)
      × AllDead r.next_document r.registered r.destroyed
one_document r run orderly =
    let v = Reach-IsWhole run orderly (record {
      connected = tt;
      arriving = tt;
      counted = refl;
      saves = tt;
      born = λ d e. cc;
      dead = tt;
    }) in
    (v.connected, v.arriving, v.counted, v.dead)
