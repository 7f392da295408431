-- ===== src/Cursor/Bytes.antt =====
-- Reads and writes of big-endian 16-bit words in a buffer with a prefix.
use nexus_ide.Common.{
  ℕ, ◌+◌, ◌*◌, ◌/◌, ◌%◌, ◌<◌, ◌≡◌, refl, ap, ◌∙◌, List, [], ◌∷◌, ◌++◌, arith, length, set,
  get_or-append_right, set-append_right,
}
use nexus_ide.Common.Int.{ℤ, pos, negsuc}
use nexus_ide.Cursor.{
  CursorPosition, low16, clamp16, or_zero, set_uint16, get_uint16, write_frame, read_frame,
}

-- The eight bytes of a frame.
abbrev pub frame8 : ℕ → ℕ → ℕ → ℕ → List ℕ
frame8 a b c d =
    a / 256 % 256
    ∷ a % 256
    ∷ b / 256 % 256
    ∷ b % 256
    ∷ c / 256 % 256
    ∷ c % 256
    ∷ d / 256 % 256
    ∷ d % 256
    ∷ []

abbrev pub frame_of : CursorPosition → List ℕ
frame_of c =
    frame8 (low16 c.user_hash) (clamp16 c.line_number) (clamp16 c.column)
      (clamp16 (or_zero c.selection_length))

pub set_uint16-append :
    (p q : List ℕ) (k j v : ℕ) → j ≡ length p + k → set_uint16 (p ++ q) j v ≡ p ++ set_uint16 q k v
unfolding set_uint16
set_uint16-append p q k j v e =
    ap (λ t. set t (j + 1) (v % 256)) (set-append_right p q k j (v / 256 % 256) e)
    ∙ set-append_right p (set q k (v / 256 % 256)) (k + 1) (j + 1) (v % 256) (omega arith)

pub get_uint16-append :
    (p q : List ℕ) (k j : ℕ) → j ≡ length p + k → get_uint16 (p ++ q) j ≡ get_uint16 q k
unfolding get_uint16
get_uint16-append p q k j e = omega (
  arith,
  get_or-append_right p q k j 0 e,
  get_or-append_right p q (k + 1) (j + 1) 0 (omega arith),
)

pub write_frame-append :
    (p q : List ℕ) (k j : ℕ) (c : CursorPosition)
    → j ≡ length p + k
    → write_frame (p ++ q) j c ≡ p ++ write_frame q k c
unfolding write_frame
write_frame-append p q k j c e = rw (set_uint16-append p q k j _ e) (
    rw (set_uint16-append p _ (k + 2) (j + 2) _ (omega arith)) (
      rw (set_uint16-append p _ (k + 4) (j + 4) _ (omega arith))
        (set_uint16-append p _ (k + 6) (j + 6) _ (omega arith))))

pub read_frame-append :
    (p q : List ℕ) (k j : ℕ) → j ≡ length p + k → read_frame (p ++ q) j ≡ read_frame q k
unfolding read_frame
read_frame-append p q k j e = cc (
  get_uint16-append p q k j e,
  get_uint16-append p q (k + 2) (j + 2) (omega arith),
  get_uint16-append p q (k + 4) (j + 4) (omega arith),
  get_uint16-append p q (k + 6) (j + 6) (omega arith),
)

-- A frame written over any eight bytes at the head of a buffer replaces exactly those.
pub write_frame_head :
    (a0 a1 a2 a3 a4 a5 a6 a7 : ℕ) (rest : List ℕ) (c : CursorPosition)
    → write_frame (a0 ∷ a1 ∷ a2 ∷ a3 ∷ a4 ∷ a5 ∷ a6 ∷ a7 ∷ rest) 0 c ≡ frame_of c ++ rest
unfolding write_frame
write_frame_head a0 a1 a2 a3 a4 a5 a6 a7 rest c = refl

pub low16-lt : (n : ℤ) → low16 n < 65536
unfolding low16
low16-lt (pos n) = omega arith
low16-lt (negsuc n) = omega arith

pub clamp16-lt : (n : ℤ) → clamp16 n < 65536
unfolding clamp16
clamp16-lt (pos n) = omega arith
clamp16-lt (negsuc n) = omega arith

-- The two bytes of a 16-bit word give it back.
pub word_bytes : (v : ℕ) → v < 65536 → v / 256 % 256 * 256 + v % 256 ≡ v
word_bytes v h = omega arith
