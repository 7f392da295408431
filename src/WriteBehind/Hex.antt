-- ===== src/WriteBehind/Hex.antt =====
-- The hexadecimal text of an update gives its bytes back.
use nexus_ide.Common.{
  ℕ, suc, length, ◌/◌, ◌%◌, ◌<◌, ◌≡◌, refl, ap, ap₂, some, List, [], ◌∷◌, map, arith,
}
use nexus_ide.WriteBehind.{Bytes, hex_digit, to_hex, digit_value, from_hex}

abbrev pub AllBytes : Bytes → Type 0
AllBytes [] = Unit
AllBytes (b ∷ bs) = (b < 256) × AllBytes bs

abbrev pub AllUpdates : List Bytes → Type 0
AllUpdates [] = Unit
AllUpdates (u ∷ us) = AllBytes u × AllUpdates us

digit_value-hex_digit : (n : ℕ) → n < 16 → digit_value (hex_digit n) ≡ some n
unfolding digit_value hex_digit
digit_value-hex_digit n h = ground arith

from_hex-to_hex : (bs : Bytes) → AllBytes bs → from_hex (to_hex bs) ≡ bs
unfolding from_hex to_hex
from_hex-to_hex [] h = refl
from_hex-to_hex (b ∷ bs) h = rw (digit_value-hex_digit (b / 16) (omega arith)) (
    rw (digit_value-hex_digit (b % 16) (omega arith))
      (ap₂ ◌∷◌ (omega arith) (from_hex-to_hex bs h.1)))

pub map-from_hex-to_hex : (us : List Bytes) → AllUpdates us → map from_hex (map to_hex us) ≡ us
map-from_hex-to_hex [] h = refl
map-from_hex-to_hex (u ∷ us) h = ap₂ ◌∷◌ (from_hex-to_hex u h.0) (map-from_hex-to_hex us h.1)

pub length-to_hex : (us : List Bytes) → length (map to_hex us) ≡ length us
length-to_hex [] = refl
length-to_hex (u ∷ us) = ap suc (length-to_hex us)
