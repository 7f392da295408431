-- ===== src/Conflict/RoundTrip.antt =====
-- A file written from its sections is parsed back into them.
use nexus_ide.Common.{◌≡◌, sym, ap, ◌∙◌, List, [], ◌∷◌, ◌++◌, map, append_assoc, append-nil}
use nexus_ide.Conflict.{
  Line, ConflictBlock, unchanged, conflict, in_unchanged, in_ours, in_theirs, opening, separator,
  closing, join, flush_blocks, parse_lines_from, finish, parse_lines, parse_conflicts,
}
use nexus_ide.Conflict.Text.{AllOneLine, split-join}
use nexus_ide.Conflict.Lines.{
  AllPlain, IsLabel, state, feed_unchanged, feed_ours, feed_theirs, feed_opening, feed_separator,
  feed_closing,
}

-- At least one line of common text, or a conflict: our lines, their lines and the two labels.
pub data Section : Type 0 where
  common : Line → List Line → Section
  clash : List Line → List Line → Line → Line → Section

-- The lines of a section, with what follows it.
pub print : Section → List Line → List Line
print (common l ls) rest = (l ∷ ls) ++ rest
print (clash ours theirs k l) rest =
    (opening ++ k) ∷ (ours ++ (separator ∷ (theirs ++ ((closing ++ l) ∷ rest))))

unfoldable pub print_all : List Section → List Line
unfolding print
print_all [] = []
print_all (s ∷ ss) = print s (print_all ss)

abbrev pub block : Section → ConflictBlock
block (common l ls) = unchanged (join (l ∷ ls))
block (clash ours theirs k l) = conflict (join ours) (join theirs) k l

abbrev pub IsSection : Section → Type 0
IsSection (common l ls) = AllPlain (l ∷ ls)
IsSection (clash ours theirs k l) = AllPlain ours × AllPlain theirs × IsLabel k × IsLabel l

abbrev pub StartsClash : List Section → Type 0
StartsClash [] = Unit
StartsClash (common l ls ∷ ss) = ⊥
StartsClash (clash ours theirs k l ∷ ss) = Unit

-- Sections of plain lines; no two common ones next to each other.
abbrev pub AllSections : List Section → Type 0
AllSections [] = Unit
AllSections (common l ls ∷ ss) = IsSection (common l ls) × StartsClash ss × AllSections ss
AllSections (clash ours theirs k l ∷ ss) = IsSection (clash ours theirs k l) × AllSections ss

clash_lines :
    (bs : List ConflictBlock) (u ours theirs : List Line) (k l : Line) (rest : List Line)
    → IsSection (clash ours theirs k l)
    → parse_lines_from (state bs in_unchanged u [] [] []) (print (clash ours theirs k l) rest)
      ≡ parse_lines_from
          (state (flush_blocks bs u ++ block (clash ours theirs k l) ∷ []) in_unchanged [] [] [] [])
          rest
unfolding print
clash_lines bs u ours theirs k l rest (ho, ht, hk, hl) =
    let cs = flush_blocks bs u in
    feed_opening bs in_unchanged u [] [] [] k _ hk
    ∙ feed_ours cs [] [] [] k ours _ ho
    ∙ feed_separator cs in_ours [] ours [] k _
    ∙ feed_theirs cs [] ours [] k theirs _ ht
    ∙ feed_closing cs in_theirs [] ours theirs k l rest hl

-- A section may follow pending common lines only if it is a conflict.
abbrev Fits : List Line → List Section → Type 0
Fits [] ss = Unit
Fits (x ∷ xs) ss = StartsClash ss

parse_sections :
    (ss : List Section) (bs : List ConflictBlock) (u : List Line)
    → AllSections ss
    → Fits u ss
    → finish (parse_lines_from (state bs in_unchanged u [] [] []) (print_all ss))
      ≡ flush_blocks bs u ++ map block ss
unfolding print_all print finish parse_lines_from
parse_sections [] bs u h f = sym (append-nil (flush_blocks bs u))
parse_sections (common l ls ∷ ss) bs [] h f =
    ap finish (feed_unchanged bs [] [] [] [] (l ∷ ls) (print_all ss) h.0)
    ∙ parse_sections ss bs (l ∷ ls) h.2 h.1
    ∙ append_assoc bs (unchanged (join (l ∷ ls)) ∷ []) (map block ss)
parse_sections (common l ls ∷ ss) bs (x ∷ xs) h f = absurd f
parse_sections (clash ours theirs k l ∷ ss) bs u h f =
    let b : ConflictBlock = block (clash ours theirs k l) in
    ap finish (clash_lines bs u ours theirs k l (print_all ss) h.0)
    ∙ parse_sections ss (flush_blocks bs u ++ b ∷ []) [] h.1 tt
    ∙ append_assoc (flush_blocks bs u) (b ∷ []) (map block ss)

-- The lines of any sections of plain lines, no two common ones adjacent and the labels trimmed, parse
-- to exactly one block for each section, in order, with its lines joined.
pub parse_lines-print_all :
    (ss : List Section) → AllSections ss → parse_lines (print_all ss) ≡ map block ss
unfolding parse_lines
parse_lines-print_all ss h = parse_sections ss [] [] h tt

-- The same for a whole text: the printed lines, none of which holds a line feed, joined by line feeds.
pub parse_conflicts-join :
    (s : Section) (ss : List Section)
    → AllSections (s ∷ ss)
    → AllOneLine (print_all (s ∷ ss))
    → parse_conflicts (join (print_all (s ∷ ss))) ≡ map block (s ∷ ss)
unfolding parse_conflicts print_all print
parse_conflicts-join (common l ls) ss h one =
    ap parse_lines (split-join l (ls ++ print_all ss) one)
    ∙ parse_lines-print_all (common l ls ∷ ss) h
parse_conflicts-join (clash ours theirs k l) ss h one =
    ap parse_lines (split-join (opening ++ k) _ one)
    ∙ parse_lines-print_all (clash ours theirs k l ∷ ss) h
