-- ===== src/Util/Hex/Tests.antt =====
-- Hexadecimal conversions at concrete texts.
use libsxe.Base.{ℕ, ◌≡◌, refl, List, [], ◌∷◌, ◌++◌, true, arith}
use libsxe.Util.Hex.{hex_to_bytes, hex_from_bytes, nibble_to_character, hex_to_bytes-hex_from_bytes}

abbrev bytes : List ℕ
bytes = 0xde ∷ 0xad ∷ []

from_bytes_dead : hex_from_bytes bytes ≡ b'd' ∷ b'e' ∷ b'a' ∷ b'd' ∷ []
unfolding hex_from_bytes nibble_to_character
from_bytes_dead = refl

hex_to_bytes-hex_from_bytes_example :
    hex_to_bytes (hex_from_bytes bytes ++ 0 ∷ []) 4 ≡ (true, bytes)
hex_to_bytes-hex_from_bytes_example = hex_to_bytes-hex_from_bytes bytes (0 ∷ []) (omega arith)
