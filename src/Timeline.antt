-- ===== src/Timeline.antt =====
-- backend/src/services/workspaceFile.service.ts: the text of a document with the author of each part.
-- Texts are lists of UTF-16 code units; the linked items of a Y.Text are a list.
pub mod Refinement
pub mod Runs
mod Examples
use nexus_ide.Common.{
  ℕ, ◌+◌, Bool, true, false, not, ◌&&◌, Option, none, some, List, [], ◌∷◌, ◌++◌, ltb, ◌==◌,
  if◌then◌else◌, length,
}

-- `node.content.getContent()`: an array of texts, one text, or neither.
pub data Content : Type 0 where
  parts : List (List ℕ) → Content
  whole : List ℕ → Content
  other : Content

pub record Item : Type 0 where
  pub deleted : Bool
  pub content : Content
  pub client : ℕ

pub record AuthorRange : Type 0 where
  pub start : ℕ
  pub end : ℕ
  pub client_id : ℕ

join : List (List ℕ) → List ℕ
join [] = []
join (t ∷ ts) = t ++ join ts

unfoldable pub text_of : Content → List ℕ
unfolding join
text_of (parts ts) = join ts
text_of (whole t) = t
text_of other = []

-- The variables of the loop; none is the client -1.
pub record Scan : Type 0 where
  pub text : List ℕ
  pub ranges : List AuthorRange
  pub run_start : ℕ
  pub run_client : Option ℕ

push_run : Option ℕ → ℕ → ℕ → List AuthorRange → List AuthorRange
push_run none start end ranges = ranges
push_run (some c) start end ranges =
    ranges ++ record { start = start; end = end; client_id = c } ∷ []

is_client : ℕ → Option ℕ → Bool
is_client c none = false
is_client c (some d) = c == d

unfoldable pub scan_char : ℕ → ℕ → Scan → Scan
unfolding push_run is_client
scan_char client ch s =
    let offset = length s.text in
    if ch == 10
    then record {
      ranges = push_run s.run_client s.run_start offset s.ranges;
      run_client = none;
      text = s.text ++ ch ∷ [];
      run_start = length (s.text ++ ch ∷ []);
    }
    else if is_client client s.run_client
    then record s { text = s.text ++ ch ∷ [] }
    else record {
      ranges = push_run s.run_client s.run_start offset s.ranges;
      run_start = offset;
      run_client = some client;
      text = s.text ++ ch ∷ [];
    }

scan_text : ℕ → List ℕ → Scan → Scan
unfolding scan_char
scan_text client [] s = s
scan_text client (ch ∷ chs) s = scan_text client chs (scan_char client ch s)

scan_items : List Item → Scan → Scan
unfolding scan_text text_of
scan_items [] s = s
scan_items (item ∷ items) s =
    scan_items items
      (if not item.deleted then scan_text item.client (text_of item.content) s else s)

last_run : Option ℕ → ℕ → ℕ → List AuthorRange → List AuthorRange
unfolding push_run
last_run client start end ranges =
    if ltb start end then push_run client start end ranges else ranges

finish : Scan → List ℕ × List AuthorRange
unfolding last_run
finish s = (s.text, last_run s.run_client s.run_start (length s.text) s.ranges)

unfoldable pub extract_snapshot_from_ytext : List Item → List ℕ × List AuthorRange
unfolding scan_items finish
extract_snapshot_from_ytext items =
    finish (scan_items items (record { text = []; ranges = []; run_start = 0; run_client = none }))
