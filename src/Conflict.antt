-- ===== src/Conflict.antt =====
-- backend/src/utils/conflictParser.ts: a file with merge conflict markers as a list of blocks. Text
-- is a list of UTF-16 code units.
pub mod Text
pub mod Lines
pub mod RoundTrip
pub mod Loss
mod Examples
use nexus_ide.Common.{
  ℕ, zero, suc, ◌≤◌, Bool, true, false, ◌&&◌, ◌||◌, List, [], ◌∷◌, ◌++◌, leb, ◌==◌, if◌then◌else◌,
  drop,
}

abbrev pub Line : Type 0
Line = List ℕ

pub data ConflictBlock : Type 0 where
  unchanged : Line → ConflictBlock
  conflict : Line → Line → Line → Line → ConflictBlock

pub data BlockType : Type 0 where
  in_unchanged in_ours in_theirs : BlockType

-- `'<<<<<<< '`, `'======='` and `'>>>>>>> '`
abbrev pub opening : Line
opening = 60 ∷ 60 ∷ 60 ∷ 60 ∷ 60 ∷ 60 ∷ 60 ∷ 32 ∷ []

abbrev pub separator : Line
separator = 61 ∷ 61 ∷ 61 ∷ 61 ∷ 61 ∷ 61 ∷ 61 ∷ []

abbrev pub closing : Line
closing = 62 ∷ 62 ∷ 62 ∷ 62 ∷ 62 ∷ 62 ∷ 62 ∷ 32 ∷ []

-- `line.startsWith(prefix)`
abbrev pub starts_with : Line → Line → Bool
starts_with [] line = true
starts_with (p ∷ ps) [] = false
starts_with (p ∷ ps) (c ∷ cs) = p == c && starts_with ps cs

-- `line === other`
abbrev pub line_eq : Line → Line → Bool
line_eq [] [] = true
line_eq (x ∷ xs) (y ∷ ys) = x == y && line_eq xs ys
line_eq _ _ = false

-- `fileContent.split('\n')`
cons_first : ℕ → List Line → List Line
cons_first c [] = (c ∷ []) ∷ []
cons_first c (l ∷ ls) = (c ∷ l) ∷ ls

unfoldable pub split : Line → List Line
unfolding cons_first
split [] = [] ∷ []
split (c ∷ cs) = let rest = split cs in if c == 10 then [] ∷ rest else cons_first c rest

-- `lines.join('\n')`
unfoldable pub join : List Line → Line
join [] = []
join (l ∷ []) = l
join (l ∷ m ∷ ls) = l ++ (10 ∷ join (m ∷ ls))

-- `line.replace(/\r$/, '')`
unfoldable pub strip_cr : Line → Line
strip_cr [] = []
strip_cr (c ∷ []) = if c == 13 then [] else c ∷ []
strip_cr (c ∷ d ∷ cs) = c ∷ strip_cr (d ∷ cs)

-- The white space and line terminators that `trim` removes.
is_space : ℕ → Bool
is_space c =
    (leb 9 c && leb c 13)
    || (c == 32)
    || (c == 0xa0)
    || (c == 0x1680)
    || (leb 0x2000 c && leb c 0x200a)
    || (c == 0x2028)
    || (c == 0x2029)
    || (c == 0x202f)
    || (c == 0x205f)
    || (c == 0x3000)
    || (c == 0xfeff)

trim_start : Line → Line
unfolding is_space
trim_start [] = []
trim_start (c ∷ cs) = let rest = trim_start cs in if is_space c then rest else c ∷ cs

cons_unless_blank : ℕ → Line → Line
unfolding is_space
cons_unless_blank c [] = if is_space c then [] else c ∷ []
cons_unless_blank c (d ∷ ds) = c ∷ d ∷ ds

trim_end : Line → Line
unfolding cons_unless_blank
trim_end [] = []
trim_end (c ∷ cs) = cons_unless_blank c (trim_end cs)

unfoldable pub trim : Line → Line
unfolding trim_start trim_end
trim line = trim_end (trim_start line)

pub record Parser : Type 0 where
  pub blocks : List ConflictBlock
  pub current_block_type : BlockType
  pub unchanged_buffer : List Line
  pub ours_buffer : List Line
  pub theirs_buffer : List Line
  pub our_label : Line
  pub their_label : Line

abbrev pub start : Parser
start = record {
  blocks = [];
  current_block_type = in_unchanged;
  unchanged_buffer = [];
  ours_buffer = [];
  theirs_buffer = [];
  our_label = [];
  their_label = [];
}

-- `if (unchangedBuffer.length > 0) blocks.push({ type: 'unchanged', … })`
abbrev pub flush_blocks : List ConflictBlock → List Line → List ConflictBlock
flush_blocks blocks [] = blocks
flush_blocks blocks (l ∷ ls) = blocks ++ unchanged (join (l ∷ ls)) ∷ []

open_ours : Parser → Line → Parser
open_ours p label = record p {
  blocks = flush_blocks p.blocks p.unchanged_buffer;
  unchanged_buffer = [];
  current_block_type = in_ours;
  our_label = label;
}

close_conflict : Parser → Line → Parser
close_conflict p label = record p {
  blocks = p.blocks ++ conflict (join p.ours_buffer) (join p.theirs_buffer) p.our_label label ∷ [];
  ours_buffer = [];
  theirs_buffer = [];
  our_label = [];
  their_label = [];
  current_block_type = in_unchanged;
}

add_line : BlockType → Parser → Line → Parser
add_line in_unchanged p line = record p { unchanged_buffer = p.unchanged_buffer ++ line ∷ [] }
add_line in_ours p line = record p { ours_buffer = p.ours_buffer ++ line ∷ [] }
add_line in_theirs p line = record p { theirs_buffer = p.theirs_buffer ++ line ∷ [] }

dispatch : Parser → Line → Parser
unfolding open_ours close_conflict add_line
dispatch p line =
    if starts_with opening line
    then open_ours p (trim (drop 8 line))
    else if line_eq line separator
    then record p { current_block_type = in_theirs }
    else if starts_with closing line
    then close_conflict p (trim (drop 8 line))
    else add_line p.current_block_type p line

parse_line : Parser → Line → Parser
unfolding dispatch
parse_line p line = dispatch p (strip_cr line)

pub parse_lines_from : Parser → List Line → Parser
unfolding parse_line
parse_lines_from p [] = p
parse_lines_from p (l ∷ ls) = parse_lines_from (parse_line p l) ls

pub finish : Parser → List ConflictBlock
finish p = flush_blocks p.blocks p.unchanged_buffer

unfoldable pub parse_lines : List Line → List ConflictBlock
unfolding parse_lines_from finish
parse_lines ls = finish (parse_lines_from start ls)

unfoldable pub parse_conflicts : Line → List ConflictBlock
unfolding parse_lines
parse_conflicts content = parse_lines (split content)
