-- ===== src/Conflict/Loss.antt =====
-- Text that the parser drops: an unfinished conflict, and a separator outside one.
use nexus_ide.Common.{◌≡◌, sym, ap, ◌∙◌, List, [], ◌∷◌, ◌++◌, append-nil}
use nexus_ide.Conflict.{
  Line, in_unchanged, in_ours, in_theirs, opening, separator, flush_blocks, parse_lines_from,
  finish, parse_lines, start,
}
use nexus_ide.Conflict.Lines.{
  AllPlain, IsLabel, state, feed_unchanged, feed_ours, feed_theirs, feed_opening, feed_separator,
}

-- Where a conflict is opened and never closed, the plain lines after the opening, with or without a
-- separator among them, appear in no block: only the text before it is left.
pub unfinished_conflict_dropped :
    (before ours theirs : List Line) (label : Line)
    → AllPlain before
    → AllPlain ours
    → AllPlain theirs
    → IsLabel label
    → (parse_lines (before ++ ((opening ++ label) ∷ ours)) ≡ flush_blocks [] before)
      × (parse_lines (before ++ ((opening ++ label) ∷ (ours ++ (separator ∷ theirs))))
          ≡ flush_blocks [] before)
unfolding parse_lines finish parse_lines_from
unfinished_conflict_dropped before ours theirs label hb ho ht hl =
    let bs = flush_blocks [] before in
    let opened = λ (rest : List Line).
      feed_unchanged [] [] [] [] [] before ((opening ++ label) ∷ rest) hb
      ∙ feed_opening [] in_unchanged before [] [] [] label rest hl in
    (
      ap finish (
          ap (λ t. parse_lines_from start (before ++ ((opening ++ label) ∷ t)))
            (sym (append-nil ours))
          ∙ opened (ours ++ [])
          ∙ feed_ours bs [] [] [] label ours [] ho),
      ap finish (
          opened (ours ++ (separator ∷ theirs))
          ∙ feed_ours bs [] [] [] label ours (separator ∷ theirs) ho
          ∙ feed_separator bs in_ours [] ours [] label theirs
          ∙ ap (parse_lines_from (state bs in_theirs [] ours [] label)) (sym (append-nil theirs))
          ∙ feed_theirs bs [] ours [] label theirs [] ht),
    )

-- A line `=======` outside every conflict, such as the underline of a heading, hides all plain lines
-- after it: the file parses to the block of the lines before it.
pub stray_separator_drops :
    (before after : List Line)
    → AllPlain before
    → AllPlain after
    → parse_lines (before ++ (separator ∷ after)) ≡ flush_blocks [] before
unfolding parse_lines finish parse_lines_from
stray_separator_drops before after hb ha = ap finish (
    feed_unchanged [] [] [] [] [] before (separator ∷ after) hb
    ∙ feed_separator [] in_unchanged before [] [] [] after
    ∙ ap (parse_lines_from (state [] in_theirs before [] [] [])) (sym (append-nil after))
    ∙ feed_theirs [] before [] [] [] after [] ha)
