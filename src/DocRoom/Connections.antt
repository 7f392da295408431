-- ===== src/DocRoom/Connections.antt =====
-- Connections of one document, and documents that are gone.
use nexus_ide.Common.{
  ℕ, ◌+◌, ◌<◌, ◌≤◌, ◌≡◌, ◌≢◌, refl, ap, ◌∙◌, true, false, ◌&&◌, Option, none, some, List, [], ◌∷◌,
  ◌++◌, arith, ◌==◌, Bool-cases, inl, inr, length,
}
use nexus_ide.DocRoom.{has_pair, remove_pair, has_conns}

-- Every pair has the document that is registered.
abbrev pub AllOf : Option ℕ → List (ℕ × ℕ) → Type 0
AllOf o [] = Unit
AllOf o ((d, s) ∷ l) = (o ≡ some d) × AllOf o l

abbrev pub AllDead : ℕ → Option ℕ → List ℕ → Type 0
AllDead n o [] = Unit
AllDead n o (d ∷ l) = (d < n) × (o ≢ some d) × AllDead n o l

abbrev pub AtMostOne : Option ℕ → List ℕ → Type 0
AtMostOne o [] = Unit
AtMostOne o (d ∷ []) = o ≡ some d
AtMostOne o (d ∷ e ∷ l) = ⊥

pub AllOf-append :
    (o : Option ℕ) (l : List (ℕ × ℕ)) (d s : ℕ)
    → AllOf o l
    → o ≡ some d
    → AllOf o (l ++ (d, s) ∷ [])
AllOf-append o [] d s v e = (e, tt)
AllOf-append o ((c, t) ∷ l) d s v e = (v.0, AllOf-append o l d s v.1 e)

pub AllOf-remove :
    (o : Option ℕ) (l : List (ℕ × ℕ)) (d s : ℕ) → AllOf o l → AllOf o (remove_pair d s l)
unfolding remove_pair
AllOf-remove o [] d s v = tt
AllOf-remove o ((c, t) ∷ l) d s v = elim (Bool-cases (c == d && t == s)) [
  | inl hit ↦ rw hit v.1
  | inr miss ↦ rw miss (v.0, AllOf-remove o l d s v.1)
]

pub AllOf-pair :
    (o : Option ℕ) (l : List (ℕ × ℕ)) (d s : ℕ) → AllOf o l → has_pair d s l ≡ true → o ≡ some d
unfolding has_pair
AllOf-pair o [] d s v h = cc
AllOf-pair o ((c, t) ∷ l) d s v h = elim (Bool-cases (c == d && t == s)) [
  | inl hit ↦ let same : c ≡ d = ground (arith, hit) in v.0 ∙ ap some same
  | inr miss ↦ AllOf-pair o l d s v.1 (rw miss at h)
]

pub length-remove :
    (l : List (ℕ × ℕ)) (d s : ℕ) → has_pair d s l ≡ true → length l ≡ length (remove_pair d s l) + 1
unfolding has_pair remove_pair
length-remove [] d s h = cc
length-remove ((c, t) ∷ l) d s h = elim (Bool-cases (c == d && t == s)) [
  | inl hit ↦ rw hit (omega arith)
  | inr miss ↦ rw miss (omega (arith, length-remove l d s (rw miss at h)))
]

-- With nothing registered the room is empty.
pub AllOf-none : (l : List (ℕ × ℕ)) (o : Option ℕ) → o ≡ none → AllOf o l → l ≡ []
AllOf-none [] o e v = refl
AllOf-none ((c, t) ∷ l) o e v = cc (e, v.0)

pub no_conns :
    (l : List (ℕ × ℕ)) (o : Option ℕ) (d : ℕ)
    → o ≡ some d
    → AllOf o l
    → has_conns d l ≡ false
    → l ≡ []
unfolding has_conns
no_conns [] o d e v h = refl
no_conns ((c, t) ∷ l) o d e v h = ground (arith, e, v.0, h)

pub no_length : (l : List (ℕ × ℕ)) → length l ≡ 0 → l ≡ []
no_length [] e = refl
no_length (p ∷ l) e = absurd (omega (arith, e))

pub AllDead-later :
    (n m : ℕ) (o : Option ℕ) (l : List ℕ)
    → n ≤ m
    → ((d : ℕ) → d < n → o ≢ some d)
    → AllDead n none l
    → AllDead m o l
AllDead-later n m o [] h k v = tt
AllDead-later n m o (d ∷ l) h k v = (omega (arith, v.0), k d v.0, AllDead-later n m o l h k v.2)

pub AllDead-none :
    (n d : ℕ) (o : Option ℕ) (l : List ℕ) → d < n → AllDead n o l → AllDead n none (l ++ d ∷ [])
AllDead-none n d o [] h v = (h, (λ e. cc), tt)
AllDead-none n d o (c ∷ l) h v = (v.0, (λ e. cc), AllDead-none n d o l h v.2)
