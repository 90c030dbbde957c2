-- ===== src/Util/Search/Tests.antt =====
-- Searches in "a key=b=c", whose NUL is followed by more bytes.
use libsxe.Base.{ℕ, ◌≡◌, refl, List, [], ◌∷◌, ◌==◌, some, none, get_or, bytes_eq}
use libsxe.Util.Search.{
  Found, FoundLast, reach, strnchr, rstrnchr, strnstr, rstrnstr, strnstr_loop, rstrnstr_loop,
  strnchr-Found, rstrnchr-FoundLast,
}

abbrev text : List ℕ
text = b'a' ∷ b'=' ∷ b'b' ∷ b'=' ∷ 0 ∷ b'=' ∷ []

abbrev pattern : List ℕ
pattern = b'=' ∷ b'b' ∷ []

chr_values :
    (strnchr text b'=' 6 ≡ some 1) × (rstrnchr text b'=' 6 ≡ some 5) × (strnchr text b'x' 6 ≡ none)
unfolding strnchr rstrnchr
chr_values = (refl, refl, refl)

str_values :
    (strnstr text pattern 6 ≡ some 1)
    × (rstrnstr text pattern 6 ≡ some 1)
    × (strnstr text pattern 1 ≡ none)
unfolding strnstr rstrnstr strnstr_loop rstrnstr_loop bytes_eq
str_values = (refl, refl, refl)

strnchr-Found_example : Found (λ i. get_or text i 0 == b'=') (reach 6 text) (strnchr text b'=' 6)
strnchr-Found_example = strnchr-Found text b'=' 6

rstrnchr-FoundLast_example : FoundLast (λ i. get_or text i 0 == b'=') 6 (rstrnchr text b'=' 6)
rstrnchr-FoundLast_example = rstrnchr-FoundLast text b'=' 6
