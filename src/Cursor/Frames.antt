-- ===== src/Cursor/Frames.antt =====
-- What the cursor codec keeps: single frames and batches come back clamped to 16 bits.
use nexus_ide.Common.Int.{pos}
use nexus_ide.Common.{
  ℕ, suc, ◌+◌, ◌*◌, ◌/◌, ◌≡◌, refl, sym, ap, ◌∙◌, List, [], ◌∷◌, ◌++◌, map, arith, length,
  replicate, replicate-add, length-append, append_assoc, some,
}
use nexus_ide.Cursor.{
  CursorPosition, whole, low16, clamp16, or_zero, write_frame, read_frame, write_frames,
  read_frames, encode_bit_packed_cursor, decode_bit_packed_cursor, encode_cursor_batch,
  decode_cursor_batch,
}
use nexus_ide.Cursor.Bytes.{
  frame_of, write_frame-append, read_frame-append, write_frame_head, low16-lt, clamp16-lt,
  word_bytes,
}

-- What the wire keeps of a position: each field in 16 bits, a selection always present.
abbrev pub wire : CursorPosition → CursorPosition
wire c = record {
  user_hash = pos (low16 c.user_hash);
  line_number = pos (clamp16 c.line_number);
  column = pos (clamp16 c.column);
  selection_length = some (pos (clamp16 (or_zero c.selection_length)));
}

read_frame-frame_of :
    (c : CursorPosition) (rest : List ℕ) → read_frame (frame_of c ++ rest) 0 ≡ wire c
unfolding read_frame
read_frame-frame_of c rest = cc (
  word_bytes (low16 c.user_hash) (low16-lt c.user_hash),
  word_bytes (clamp16 c.line_number) (clamp16-lt c.line_number),
  word_bytes (clamp16 c.column) (clamp16-lt c.column),
  word_bytes (clamp16 (or_zero c.selection_length)) (clamp16-lt (or_zero c.selection_length)),
)

encode-frame_of : (c : CursorPosition) → encode_bit_packed_cursor c ≡ frame_of c
unfolding encode_bit_packed_cursor
encode-frame_of c = refl

-- Decoding an encoded cursor gives every field back, the hash modulo 2^16 and the coordinates
-- clamped to 0..65535; a missing selection comes back as 0.
pub decode-encode :
    (c : CursorPosition)
    → decode_bit_packed_cursor (whole (encode_bit_packed_cursor c)) ≡ some (wire c)
unfolding decode_bit_packed_cursor
decode-encode c = rw (encode-frame_of c) (ap some (read_frame-frame_of c []))

-- The single frames one after the other.
pub frames_of : List CursorPosition → List ℕ
frames_of [] = []
frames_of (c ∷ cs) = encode_bit_packed_cursor c ++ frames_of cs

length-frames_of : (cs : List CursorPosition) → length (frames_of cs) ≡ length cs * 8
unfolding frames_of encode_bit_packed_cursor
length-frames_of [] = omega arith
length-frames_of (c ∷ cs) = omega (arith, length-frames_of cs)

zeros : ℕ → List ℕ
zeros n = replicate n 0

zeros-suc : (n : ℕ) → zeros (suc n * 8) ≡ zeros 8 ++ zeros (n * 8)
unfolding zeros
zeros-suc n =
    ap zeros (let e : suc n * 8 ≡ 8 + n * 8 = omega arith in e) ∙ replicate-add 8 (n * 8) 0

write_frames-append :
    (p : List ℕ) (i : ℕ) (cs : List CursorPosition)
    → length p ≡ i * 8
    → write_frames (p ++ zeros (length cs * 8)) i cs ≡ p ++ frames_of cs
unfolding write_frames frames_of zeros
write_frames-append p i [] h = ap (λ t. p ++ replicate t 0) (let e : 0 * 8 ≡ 0 = omega arith in e)
write_frames-append p i (c ∷ cs) h =
    let z : List ℕ = zeros (length cs * 8) in
    let frame : List ℕ = frame_of c in
    let first : write_frame (p ++ (zeros 8 ++ z)) (i * 8) c ≡ (p ++ frame) ++ z =
      write_frame-append p (zeros 8 ++ z) 0 (i * 8) c (omega arith)
      ∙ ap (λ t. p ++ t) (write_frame_head 0 0 0 0 0 0 0 0 z c)
      ∙ sym (append_assoc p frame z) in
    rw (zeros-suc (length cs), first)
      (write_frames-append (p ++ frame) (i + 1) cs (omega (arith, length-append p frame))
        ∙ append_assoc p frame (frames_of cs)
        ∙ ap (λ t. p ++ (t ++ frames_of cs)) (sym (encode-frame_of c)))

read_frames-frames_of :
    (p : List ℕ) (i : ℕ) (cs : List CursorPosition)
    → length p ≡ i * 8
    → read_frames (length cs) (p ++ frames_of cs) 0 i ≡ map wire cs
unfolding read_frames frames_of
read_frames-frames_of p i [] h = refl
read_frames-frames_of p i (c ∷ cs) h =
    let frame : List ℕ = frame_of c in
    let first : read_frame (p ++ (frame ++ frames_of cs)) (0 + i * 8) ≡ wire c =
      read_frame-append p (frame ++ frames_of cs) 0 (0 + i * 8) (omega arith)
      ∙ read_frame-frame_of c (frames_of cs) in
    let later =
      read_frames-frames_of (p ++ frame) (i + 1) cs (omega (arith, length-append p frame)) in
    rw (encode-frame_of c, first)
      (ap (λ t. wire c ∷ t) (rw (append_assoc p frame (frames_of cs)) at later))

-- A batch is the concatenation of the single frames, in order.
pub encode_cursor_batch-frames_of :
    (cs : List CursorPosition) → encode_cursor_batch cs ≡ frames_of cs
unfolding encode_cursor_batch zeros
encode_cursor_batch-frames_of cs = write_frames-append [] 0 cs (omega arith)

-- Decoding an encoded batch gives every position back in order, clamped as a single frame clamps it.
pub decode_batch-encode_batch :
    (cs : List CursorPosition) → decode_cursor_batch (whole (encode_cursor_batch cs)) ≡ map wire cs
unfolding decode_cursor_batch
decode_batch-encode_batch cs =
    let count : length (frames_of cs) / 8 ≡ length cs = omega (arith, length-frames_of cs) in
    rw (encode_cursor_batch-frames_of cs, count) (read_frames-frames_of [] 0 cs (omega arith))
