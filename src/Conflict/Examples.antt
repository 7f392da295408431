-- ===== src/Conflict/Examples.antt =====
-- Runs of the conflict parser.
use nexus_ide.Common.{◌≡◌, refl, List, [], ◌∷◌, map, arith}
use nexus_ide.Conflict.{
  Line, unchanged, conflict, parse_lines, parse_conflicts, split, join, strip_cr, trim,
}
use nexus_ide.Conflict.Lines.{IsPlain, IsLabel}
use nexus_ide.Conflict.Text.{AllOneLine}
use nexus_ide.Conflict.RoundTrip.{
  Section, common, clash, print_all, block, AllSections, parse_lines-print_all,
  parse_conflicts-join,
}

-- "a" and "main".
abbrev letter : Line
letter = 97 ∷ []

abbrev main : Line
main = 109 ∷ 97 ∷ 105 ∷ 110 ∷ []

letter-IsPlain : IsPlain letter
unfolding strip_cr
letter-IsPlain = record { no_cr = refl; no_opening = refl; no_separator = refl; no_closing = refl }

main-IsLabel : IsLabel main
unfolding strip_cr trim
main-IsLabel = record { trimmed = refl; opens = refl; closes = refl }

abbrev sections : List Section
sections = clash (letter ∷ letter ∷ []) (letter ∷ []) main main ∷ common letter [] ∷ []

sections_parsed :
    parse_conflicts (join (print_all sections))
    ≡ conflict (97 ∷ 10 ∷ 97 ∷ []) letter main main ∷ unchanged letter ∷ []
unfolding parse_conflicts print_all split join strip_cr trim
sections_parsed = refl

-- A carriage return before the line feed is dropped, also within a block.
crlf_parsed : parse_conflicts (97 ∷ 13 ∷ 10 ∷ 97 ∷ []) ≡ unchanged (97 ∷ 10 ∷ 97 ∷ []) ∷ []
unfolding parse_conflicts split join strip_cr
crlf_parsed = refl

sections-AllSections : AllSections sections
sections-AllSections = (
  ((letter-IsPlain, (letter-IsPlain, tt)), (letter-IsPlain, tt), main-IsLabel, main-IsLabel),
  ((letter-IsPlain, tt), tt, tt),
)

sections-AllOneLine : AllOneLine (print_all sections)
unfolding print_all
sections-AllOneLine = ground arith

parse_lines-print_all_example : parse_lines (print_all sections) ≡ map block sections
parse_lines-print_all_example = parse_lines-print_all sections sections-AllSections

parse_conflicts-join_example : parse_conflicts (join (print_all sections)) ≡ map block sections
parse_conflicts-join_example =
    parse_conflicts-join (clash (letter ∷ letter ∷ []) (letter ∷ []) main main)
      (common letter [] ∷ []) sections-AllSections sections-AllOneLine
