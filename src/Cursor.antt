-- ===== src/Cursor.antt =====
-- backend/src/services/cursorCodec.service.ts: cursor positions as 8-byte frames. A byte array is a
-- list of numbers below 256; a DataView is a buffer with an offset and a length into it.
pub mod Bytes
pub mod Frames
pub mod Hash
mod Examples
use nexus_ide.Common.Int.{ℤ, pos, negsuc}
use nexus_ide.Common.{
  ℕ, zero, suc, ◌+◌, ◌-◌, ◌*◌, ◌/◌, ◌%◌, min, Option, none, some, List, [], ◌∷◌, ◌++◌, Bool, true,
  false, leb, if◌then◌else◌, length, get_or, set, replicate,
}

pub record CursorPosition : Type 0 where
  pub user_hash : ℤ
  pub line_number : ℤ
  pub column : ℤ
  pub selection_length : Option ℤ

abbrev pub cursor_frame_bytes : ℕ
cursor_frame_bytes = 8

-- `n & 0xFFFF` of a two's complement integer.
unfoldable pub low16 : ℤ → ℕ
low16 (pos n) = n % 65536
low16 (negsuc n) = 65535 - n % 65536

-- `Math.min(65535, Math.max(0, n))`
unfoldable pub clamp16 : ℤ → ℕ
clamp16 (pos n) = min 65535 n
clamp16 (negsuc n) = 0

-- `selectionLength = 0` and `c.selectionLength || 0`
unfoldable pub or_zero : Option ℤ → ℤ
or_zero none = pos 0
or_zero (some n) = n

-- `view.setUint16(off, v, false)` and `view.getUint16(off, false)`
unfoldable pub set_uint16 : List ℕ → ℕ → ℕ → List ℕ
set_uint16 buf off v = set (set buf off (v / 256 % 256)) (off + 1) (v % 256)

unfoldable pub get_uint16 : List ℕ → ℕ → ℕ
get_uint16 buf off = get_or buf off 0 * 256 + get_or buf (off + 1) 0

unfoldable pub write_frame : List ℕ → ℕ → CursorPosition → List ℕ
unfolding set_uint16 low16 clamp16 or_zero
write_frame buf off c =
    let b1 = set_uint16 buf off (low16 c.user_hash) in
    let b2 = set_uint16 b1 (off + 2) (clamp16 c.line_number) in
    let b3 = set_uint16 b2 (off + 4) (clamp16 c.column) in
    set_uint16 b3 (off + 6) (clamp16 (or_zero c.selection_length))

unfoldable pub read_frame : List ℕ → ℕ → CursorPosition
unfolding get_uint16
read_frame buf off = record {
  user_hash = pos (get_uint16 buf off);
  line_number = pos (get_uint16 buf (off + 2));
  column = pos (get_uint16 buf (off + 4));
  selection_length = some (pos (get_uint16 buf (off + 6)));
}

-- A Uint8Array: a window into an ArrayBuffer. An ArrayBuffer itself is the whole window.
pub record Window : Type 0 where
  pub buffer : List ℕ
  pub byte_offset : ℕ
  pub byte_length : ℕ

abbrev pub whole : List ℕ → Window
whole buf = record { buffer = buf; byte_offset = 0; byte_length = length buf }

-- The frame is written at offset 0 of a new array of 8 bytes.
unfoldable pub encode_bit_packed_cursor : CursorPosition → List ℕ
unfolding write_frame
encode_bit_packed_cursor c = write_frame (replicate cursor_frame_bytes 0) 0 c

-- The DataView of 8 bytes is a RangeError (`none`) where the underlying buffer ends before it.
unfoldable pub decode_bit_packed_cursor : Window → Option CursorPosition
unfolding read_frame
decode_bit_packed_cursor w =
    if leb (w.byte_offset + cursor_frame_bytes) (length w.buffer)
    then some (read_frame w.buffer w.byte_offset)
    else none

write_frames : List ℕ → ℕ → List CursorPosition → List ℕ
unfolding write_frame
write_frames buf i [] = buf
write_frames buf i (c ∷ cs) = write_frames (write_frame buf (i * cursor_frame_bytes) c) (i + 1) cs

unfoldable pub encode_cursor_batch : List CursorPosition → List ℕ
unfolding write_frames
encode_cursor_batch cs = write_frames (replicate (length cs * cursor_frame_bytes) 0) 0 cs

-- Reads `n` frames from frame `i` on.
read_frames : ℕ → List ℕ → ℕ → ℕ → List CursorPosition
unfolding read_frame
read_frames zero buf base i = []
read_frames (suc n) buf base i =
    read_frame buf (base + i * cursor_frame_bytes) ∷ read_frames n buf base (i + 1)

unfoldable pub decode_cursor_batch : Window → List CursorPosition
unfolding read_frames
decode_cursor_batch w = read_frames (w.byte_length / cursor_frame_bytes) w.buffer w.byte_offset 0

-- `((hash << 5) - hash + code) & 0xFFFF`; the hash is below 2^16, so the shift stays within 32 bits.
unfoldable pub hash_step : ℕ → ℕ → ℕ
hash_step hash code = (hash * 32 - hash + code) % 65536

hash_from : ℕ → List ℕ → ℕ
unfolding hash_step
hash_from hash [] = hash
hash_from hash (code ∷ codes) = hash_from (hash_step hash code) codes

-- The argument lists the string's UTF-16 code units.
unfoldable pub hash_user_id_to_uint16 : List ℕ → ℕ
unfolding hash_from
hash_user_id_to_uint16 codes = hash_from 0 codes
