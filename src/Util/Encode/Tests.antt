-- ===== src/Util/Encode/Tests.antt =====
-- Encodings of short texts, with the C locale's character classes.
use libsxe.Base.{
  ℕ, ◌+◌, ◌≤◌, ◌<◌, ◌≡◌, refl, Bool, true, false, ◌&&◌, ◌||◌, List, [], ◌∷◌, ◌==◌, leb, arith,
  length,
}
use libsxe.Util.Encode.{
  strn_encode, encode_loop, code, codes, special, no_room, escaped, strn_encode_bound,
  strn_encode_lem,
}

abbrev isspace : ℕ → Bool
isspace c = c == b' ' || (leb 9 c && leb c 13)

abbrev isprint : ℕ → Bool
isprint c = leb 32 c && leb c 126

-- "a b="
abbrev text : List ℕ
text = b'a' ∷ b' ' ∷ b'b' ∷ b'=' ∷ []

-- "a_b=3D"
codes-text : codes isspace isprint text ≡ b'a' ∷ b'_' ∷ b'b' ∷ b'=' ∷ b'3' ∷ b'D' ∷ []
unfolding codes code escaped special libsxe.Util.Encode.upper_digit
codes-text = refl

-- It would fit in seven bytes, with its NUL, and is refused there.
exact_fit : (strn_encode isspace isprint 7 text 4).1 ≡ false
unfolding strn_encode encode_loop no_room code escaped special libsxe.Util.Encode.upper_digit
exact_fit = refl

strn_encode_bound_example : length (strn_encode isspace isprint 4 text 4).0 < 4
strn_encode_bound_example = strn_encode_bound isspace isprint 4 text 4 (omega arith)

strn_encode_lem_example :
    (length (codes isspace isprint text) + 1 < 8
      → strn_encode isspace isprint 8 text (length text) ≡ (codes isspace isprint text, true))
    × (8 ≤ length (codes isspace isprint text) + 1
        → (strn_encode isspace isprint 8 text (length text)).1 ≡ false)
strn_encode_lem_example = strn_encode_lem isspace isprint 8 text (omega arith) (omega arith)
