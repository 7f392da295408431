-- ===== src/Cursor/Examples.antt =====
-- Runs of the cursor codec.
use nexus_ide.Common.Int.{pos, negsuc}
use nexus_ide.Common.{◌≡◌, refl, none, some, [], ◌∷◌}
use nexus_ide.Cursor.{
  CursorPosition, whole, encode_bit_packed_cursor, encode_cursor_batch, decode_cursor_batch,
  hash_user_id_to_uint16,
}
use nexus_ide.Cursor.Frames.{wire, decode_batch-encode_batch}

abbrev far_down : CursorPosition
far_down = record {
  user_hash = negsuc 0;
  line_number = pos 70000;
  column = negsuc 4;
  selection_length = none;
}

abbrev near : CursorPosition
near = record {
  user_hash = pos 258;
  line_number = pos 12;
  column = pos 300;
  selection_length = some (pos 5);
}

near_bytes : encode_bit_packed_cursor near ≡ 1 ∷ 2 ∷ 0 ∷ 12 ∷ 1 ∷ 44 ∷ 0 ∷ 5 ∷ []
unfolding encode_bit_packed_cursor
near_bytes = refl

far_down_bytes : encode_bit_packed_cursor far_down ≡ 255 ∷ 255 ∷ 255 ∷ 255 ∷ 0 ∷ 0 ∷ 0 ∷ 0 ∷ []
unfolding encode_bit_packed_cursor
far_down_bytes = refl

-- 'ab': 31 * 97 + 98
hash_ab : hash_user_id_to_uint16 (97 ∷ 98 ∷ []) ≡ 3105
unfolding hash_user_id_to_uint16
hash_ab = refl

decode_batch-encode_batch_example :
    decode_cursor_batch (whole (encode_cursor_batch (near ∷ far_down ∷ [])))
    ≡ wire near ∷ wire far_down ∷ []
decode_batch-encode_batch_example = decode_batch-encode_batch (near ∷ far_down ∷ [])
