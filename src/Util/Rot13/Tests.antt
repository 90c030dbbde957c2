-- ===== src/Util/Rot13/Tests.antt =====
-- Rot13 of a short text.
use libsxe.Base.{ℕ, ◌≡◌, refl, List, [], ◌∷◌, some, ◌++◌}
use libsxe.Util.Rot13.{in_place, rot13, hex_to_unsigned, hex_scan, hex_nibble}

abbrev hello : List ℕ
hello = b'H' ∷ b'i' ∷ b'!' ∷ []

hello_rotated : in_place (hello ++ 0 ∷ []) 9 ≡ b'U' ∷ b'v' ∷ b'!' ∷ 0 ∷ []
unfolding in_place rot13
hello_rotated = refl

hex_rotated : hex_to_unsigned (b'N' ∷ b'1' ∷ []) 2 ≡ some 0xa1
unfolding hex_to_unsigned hex_scan hex_nibble
hex_rotated = refl
