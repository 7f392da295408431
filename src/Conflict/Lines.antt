-- ===== src/Conflict/Lines.antt =====
-- One line after another: what the parser's state becomes under each kind of line.
use nexus_ide.Common.{◌≡◌, refl, sym, ap, ◌∙◌, false, List, [], ◌∷◌, ◌++◌, append_assoc, append-nil}
use nexus_ide.Conflict.{
  Line, ConflictBlock, conflict, BlockType, in_unchanged, in_ours, in_theirs, opening, separator,
  closing, starts_with, line_eq, join, strip_cr, trim, Parser, flush_blocks, add_line, parse_line,
  parse_lines_from,
}

-- A line of text: no marker, and no carriage return at its end.
pub record IsPlain (l : Line) : Type 0 where
  pub no_cr : strip_cr l ≡ l
  pub no_opening : starts_with opening l ≡ false
  pub no_separator : line_eq l separator ≡ false
  pub no_closing : starts_with closing l ≡ false

abbrev pub AllPlain : List Line → Type 0
AllPlain [] = Unit
AllPlain (l ∷ ls) = IsPlain l × AllPlain ls

-- A label that `trim` leaves alone, and whose marker lines do not end in a carriage return.
pub record IsLabel (l : Line) : Type 0 where
  pub trimmed : trim l ≡ l
  pub opens : strip_cr (opening ++ l) ≡ opening ++ l
  pub closes : strip_cr (closing ++ l) ≡ closing ++ l

abbrev pub state :
    List ConflictBlock → BlockType → List Line → List Line → List Line → Line → Parser
state bs m u o t l = record {
  blocks = bs;
  current_block_type = m;
  unchanged_buffer = u;
  ours_buffer = o;
  theirs_buffer = t;
  our_label = l;
  their_label = [];
}

parse_line-plain :
    (p : Parser) (l : Line) → IsPlain l → parse_line p l ≡ add_line p.current_block_type p l
unfolding parse_line
parse_line-plain p l h = rw (h.no_cr, h.no_opening, h.no_separator, h.no_closing) refl

snoc_shift : (xs : List Line) (y : Line) (ys : List Line) → (xs ++ y ∷ []) ++ ys ≡ xs ++ (y ∷ ys)
snoc_shift xs y ys = append_assoc xs (y ∷ []) ys

module _ (bs : List ConflictBlock) where
  pub feed_unchanged :
      (u o t : List Line) (l : Line) (ls rest : List Line)
      → AllPlain ls
      → parse_lines_from (state bs in_unchanged u o t l) (ls ++ rest)
        ≡ parse_lines_from (state bs in_unchanged (u ++ ls) o t l) rest
  unfolding parse_lines_from add_line
  feed_unchanged u o t l [] rest h =
      ap (λ v. parse_lines_from (state bs in_unchanged v o t l) rest) (sym (append-nil u))
  feed_unchanged u o t l (x ∷ xs) rest h =
      ap (λ p. parse_lines_from p (xs ++ rest))
        (parse_line-plain (state bs in_unchanged u o t l) x h.0)
      ∙ feed_unchanged (u ++ x ∷ []) o t l xs rest h.1
      ∙ ap (λ v. parse_lines_from (state bs in_unchanged v o t l) rest) (snoc_shift u x xs)

  pub feed_ours :
      (u o t : List Line) (l : Line) (ls rest : List Line)
      → AllPlain ls
      → parse_lines_from (state bs in_ours u o t l) (ls ++ rest)
        ≡ parse_lines_from (state bs in_ours u (o ++ ls) t l) rest
  unfolding parse_lines_from add_line
  feed_ours u o t l [] rest h =
      ap (λ v. parse_lines_from (state bs in_ours u v t l) rest) (sym (append-nil o))
  feed_ours u o t l (x ∷ xs) rest h =
      ap (λ p. parse_lines_from p (xs ++ rest)) (parse_line-plain (state bs in_ours u o t l) x h.0)
      ∙ feed_ours u (o ++ x ∷ []) t l xs rest h.1
      ∙ ap (λ v. parse_lines_from (state bs in_ours u v t l) rest) (snoc_shift o x xs)

  pub feed_theirs :
      (u o t : List Line) (l : Line) (ls rest : List Line)
      → AllPlain ls
      → parse_lines_from (state bs in_theirs u o t l) (ls ++ rest)
        ≡ parse_lines_from (state bs in_theirs u o (t ++ ls) l) rest
  unfolding parse_lines_from add_line
  feed_theirs u o t l [] rest h =
      ap (λ v. parse_lines_from (state bs in_theirs u o v l) rest) (sym (append-nil t))
  feed_theirs u o t l (x ∷ xs) rest h =
      ap (λ p. parse_lines_from p (xs ++ rest))
        (parse_line-plain (state bs in_theirs u o t l) x h.0)
      ∙ feed_theirs u o (t ++ x ∷ []) l xs rest h.1
      ∙ ap (λ v. parse_lines_from (state bs in_theirs u o v l) rest) (snoc_shift t x xs)

  pub feed_opening :
      (m : BlockType) (u o t : List Line) (k l : Line) (rest : List Line)
      → IsLabel l
      → parse_lines_from (state bs m u o t k) ((opening ++ l) ∷ rest)
        ≡ parse_lines_from (state (flush_blocks bs u) in_ours [] o t l) rest
  unfolding parse_lines_from parse_line
  feed_opening m u o t k l rest h = rw (h.opens, h.trimmed) refl

  pub feed_separator :
      (m : BlockType) (u o t : List Line) (k : Line) (rest : List Line)
      → parse_lines_from (state bs m u o t k) (separator ∷ rest)
        ≡ parse_lines_from (state bs in_theirs u o t k) rest
  unfolding parse_lines_from parse_line strip_cr
  feed_separator m u o t k rest = refl

  pub feed_closing :
      (m : BlockType) (u o t : List Line) (k l : Line) (rest : List Line)
      → IsLabel l
      → parse_lines_from (state bs m u o t k) ((closing ++ l) ∷ rest)
        ≡ parse_lines_from
            (state (bs ++ conflict (join o) (join t) k l ∷ []) in_unchanged u [] [] [])
            rest
  unfolding parse_lines_from parse_line
  feed_closing m u o t k l rest h = rw (h.closes, h.trimmed) refl
