-- ===== src/Conflict/Text.antt =====
-- Splitting the text of joined lines gives the lines back.
use nexus_ide.Common.{◌≡◌, refl, ap, ◌∙◌, false, List, [], ◌∷◌, ◌++◌, ◌==◌}
use nexus_ide.Conflict.{Line, split, join}

-- No line feed in the line.
abbrev pub IsOneLine : Line → Type 0
IsOneLine [] = Unit
IsOneLine (c ∷ cs) = ((c == 10) ≡ false) × IsOneLine cs

abbrev pub AllOneLine : List Line → Type 0
AllOneLine [] = Unit
AllOneLine (l ∷ ls) = IsOneLine l × AllOneLine ls

split_one : (l : Line) → IsOneLine l → split l ≡ l ∷ []
unfolding split
split_one [] h = refl
split_one (c ∷ cs) h = rw (h.0, split_one cs h.1) refl

split_first : (l rest : Line) → IsOneLine l → split (l ++ (10 ∷ rest)) ≡ l ∷ split rest
unfolding split
split_first [] rest h = refl
split_first (c ∷ cs) rest h = rw (h.0, split_first cs rest h.1) refl

pub split-join : (l : Line) (ls : List Line) → AllOneLine (l ∷ ls) → split (join (l ∷ ls)) ≡ l ∷ ls
unfolding join
split-join l [] h = split_one l h.0
split-join l (m ∷ ls) h = split_first l (join (m ∷ ls)) h.0 ∙ ap (λ t. l ∷ t) (split-join m ls h.1)
