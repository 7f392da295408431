-- ===== src/Timeline/Refinement.antt =====
-- The loop over code units, against the runs and the authors.
use nexus_ide.Common.{
  ℕ, ◌+◌, ◌<◌, ◌≡◌, refl, sym, ap, subst, ◌∙◌, Bool, true, false, ◌&&◌, Option, none, some, List,
  [], ◌∷◌, ◌++◌, append_assoc, append-nil, map, arith, ltb, ◌==◌, Bool-cases, inl, inr,
  if◌then◌else◌, length, length-append, lt→ltb,
}
use nexus_ide.Timeline.{
  Item, AuthorRange, text_of, Scan, push_run, is_client, scan_char, scan_text, scan_items, last_run,
  finish, extract_snapshot_from_ytext,
}
use nexus_ide.Timeline.Runs.{
  with_client, visible, author_at, author_in, IsChained, cons_run, runs, runs-IsChained,
  chain_first, author_in-runs,
}

scan_chars : List (ℕ × ℕ) → Scan → Scan
unfolding scan_char
scan_chars [] s = s
scan_chars ((ch, c) ∷ cs) s = scan_chars cs (scan_char c ch s)

scan_chars-with_client :
    (c : ℕ) (chs : List ℕ) (cs : List (ℕ × ℕ)) (s : Scan)
    → scan_chars (with_client c chs ++ cs) s ≡ scan_chars cs (scan_text c chs s)
unfolding scan_chars scan_text
scan_chars-with_client c [] cs s = refl
scan_chars-with_client c (ch ∷ chs) cs s = scan_chars-with_client c chs cs (scan_char c ch s)

scan_items-chars :
    (items : List Item) (s : Scan) → scan_items items s ≡ scan_chars (visible items) s
unfolding scan_items scan_chars
scan_items-chars [] s = refl
scan_items-chars (item ∷ items) s = elim (Bool-cases item.deleted) [
  | inl gone ↦ rw gone (scan_items-chars items s)
  | inr here ↦ rw here (
      scan_items-chars items (scan_text item.client (text_of item.content) s)
      ∙ sym (scan_chars-with_client item.client (text_of item.content) (visible items) s))
]

open_run : Option ℕ → ℕ → ℕ → List AuthorRange → List AuthorRange
open_run none start n rs = rs
open_run (some c) start n rs = cons_run start n c rs

abbrev IsOpen : Scan → Type 0
IsOpen s = (c : ℕ) → s.run_client ≡ some c → s.run_start < length s.text

abbrev pub texts : List (ℕ × ℕ) → List ℕ
texts = map λ p. p.0

cons_run_first :
    (start n c : ℕ) (rs : List AuthorRange)
    → IsChained (n + 1) rs
    → cons_run start n c rs ≡ record { start = start; end = n; client_id = c } ∷ rs
unfolding cons_run
cons_run_first start n c [] h = refl
cons_run_first start n c (r ∷ rs) h = ground (arith, chain_first (n + 1) r rs h)

cons_run-cons_run :
    (start n c d : ℕ) (rs : List AuthorRange)
    → cons_run start n c (cons_run n (n + 1) d rs) ≡ (
        if d == c
        then cons_run start (n + 1) c rs
        else record { start = start; end = n; client_id = c } ∷ cons_run n (n + 1) d rs)
unfolding cons_run
cons_run-cons_run start n c d [] = ground arith
cons_run-cons_run start n c d (r ∷ rs) = elim (Bool-cases (r.start == n + 1 && r.client_id == d)) [
  | inl joined ↦ rw joined (ground (arith, joined))
  | inr apart ↦ rw apart (ground (arith, apart))
]

push-open :
    (o : Option ℕ) (start n : ℕ) (ranges rs : List AuthorRange)
    → IsChained (n + 1) rs
    → push_run o start n ranges ++ rs ≡ ranges ++ open_run o start n rs
unfolding push_run open_run
push-open none start n ranges rs h = refl
push-open (some c) start n ranges rs h =
    append_assoc ranges (record { start = start; end = n; client_id = c } ∷ []) rs
    ∙ ap (λ q. ranges ++ q) (sym (cons_run_first start n c rs h))

push-open_other :
    (o : Option ℕ) (start n d : ℕ) (ranges rs : List AuthorRange)
    → is_client d o ≡ false
    → push_run o start n ranges ++ cons_run n (n + 1) d rs
      ≡ ranges ++ open_run o start n (cons_run n (n + 1) d rs)
unfolding push_run open_run is_client
push-open_other none start n d ranges rs h = refl
push-open_other (some c) start n d ranges rs h =
    append_assoc ranges (record { start = start; end = n; client_id = c } ∷ [])
      (cons_run n (n + 1) d rs)
    ∙ ap (λ q. ranges ++ q) (sym (cons_run-cons_run start n c d rs ∙ rw h refl))

open_same :
    (o : Option ℕ) (start n d : ℕ) (rs : List AuthorRange)
    → is_client d o ≡ true
    → open_run o start n (cons_run n (n + 1) d rs) ≡ open_run o start (n + 1) rs
unfolding open_run is_client
open_same none start n d rs h = cc
open_same (some c) start n d rs h = cons_run-cons_run start n c d rs ∙ rw h refl

length-snoc : (text : List ℕ) (ch : ℕ) → length (text ++ ch ∷ []) ≡ length text + 1
length-snoc text ch = length-append text (ch ∷ [])

scan_char-IsOpen : (d ch : ℕ) (s : Scan) → IsOpen s → IsOpen (scan_char d ch s)
unfolding scan_char
scan_char-IsOpen d ch s h = elim (Bool-cases (ch == 10)) [
  | inl newline ↦ rw newline (λ c e. cc)
  | inr char ↦ rw char (elim (Bool-cases (is_client d s.run_client)) [
    | inl same ↦ rw same (λ c e. omega (arith, h c e, length-snoc s.text ch))
    | inr new ↦ rw new (λ c e. omega (arith, length-snoc s.text ch))
  ])
]

-- What the loop gives for its variables and what is left.
whole_of : List (ℕ × ℕ) → Scan → List ℕ × List AuthorRange
unfolding runs open_run
whole_of cs s = (
  s.text ++ texts cs,
  s.ranges ++ open_run s.run_client s.run_start (length s.text) (runs (length s.text) cs),
)

scan_char-whole :
    (ch d : ℕ) (rest : List (ℕ × ℕ)) (s : Scan)
    → whole_of rest (scan_char d ch s) ≡ whole_of ((ch, d) ∷ rest) s
unfolding whole_of scan_char
scan_char-whole ch d rest s =
    let tail = runs-IsChained (length s.text + 1) rest in
    let text = append_assoc s.text (ch ∷ []) (texts rest) in
    elim (Bool-cases (ch == 10)) [
      | inl newline ↦ rw newline (
          rw (length-snoc s.text ch) (λ i. (
            text i,
            push-open s.run_client s.run_start (length s.text) s.ranges
                (runs (length s.text + 1) rest) tail i,
          )))
      | inr char ↦ rw char (elim (Bool-cases (is_client d s.run_client)) [
        | inl same ↦ rw same (
            rw (length-snoc s.text ch) (λ i. (
              text i,
              s.ranges
                  ++ sym
                      (open_same s.run_client s.run_start (length s.text) d
                        (runs (length s.text + 1) rest) same)
                      i,
            )))
        | inr new ↦ rw new (
            rw (length-snoc s.text ch) (λ i. (
              text i,
              push-open_other s.run_client s.run_start (length s.text) d s.ranges
                  (runs (length s.text + 1) rest) new i,
            )))
      ])
    ]

if_same {ℓ} : {A : Type ℓ} (b : Bool) (x : A) → (if b then x else x) ≡ x
if_same true x = refl
if_same false x = refl

finish-whole : (o : Option ℕ) (s : Scan) → s.run_client ≡ o → IsOpen s → finish s ≡ whole_of [] s
unfolding finish whole_of last_run push_run open_run runs cons_run
finish-whole none s e h = rw e (λ i. (
  sym (append-nil s.text) i,
  (if_same (ltb s.run_start (length s.text)) s.ranges ∙ sym (append-nil s.ranges)) i,
))
finish-whole (some c) s e h =
    rw (lt→ltb s.run_start (length s.text) (h c e), e)
      (λ i. (sym (append-nil s.text) i, push_run (some c) s.run_start (length s.text) s.ranges))

finish-scan_chars :
    (cs : List (ℕ × ℕ)) (s : Scan) → IsOpen s → finish (scan_chars cs s) ≡ whole_of cs s
unfolding scan_chars
finish-scan_chars [] s h = finish-whole s.run_client s refl h
finish-scan_chars ((ch, d) ∷ rest) s h =
    finish-scan_chars rest (scan_char d ch s) (scan_char-IsOpen d ch s h)
    ∙ scan_char-whole ch d rest s

extract-whole :
    (items : List Item)
    → extract_snapshot_from_ytext items ≡ (texts (visible items), runs 0 (visible items))
unfolding extract_snapshot_from_ytext whole_of open_run
extract-whole items =
    ap finish
      (scan_items-chars items (record { text = []; ranges = []; run_start = 0; run_client = none }))
    ∙ finish-scan_chars (visible items)
        (record { text = []; ranges = []; run_start = 0; run_client = none }) (λ c e. cc)

-- The text is the code units that are not deleted, in order. A code unit has the author that its
-- range names: the client that wrote it, and none for a newline. The ranges are in order
-- and not empty, and as few as that allows: two that touch are of different clients.
pub extract_refines :
    (items : List Item)
    → ((extract_snapshot_from_ytext items).0 ≡ texts (visible items))
      × ((i : ℕ) → author_in (extract_snapshot_from_ytext items).1 i ≡ author_at (visible items) i)
      × IsChained 0 (extract_snapshot_from_ytext items).1
extract_refines items =
    subst
      (λ r.
        (r.0 ≡ texts (visible items))
        × ((i : ℕ) → author_in r.1 i ≡ author_at (visible items) i)
        × IsChained 0 r.1)
      (sym (extract-whole items))
      (
        refl,
        λ i.
            ap (author_in (runs 0 (visible items))) (let e : i ≡ 0 + i = omega arith in e)
            ∙ author_in-runs 0 (visible items) i,
        runs-IsChained 0 (visible items),
      )
