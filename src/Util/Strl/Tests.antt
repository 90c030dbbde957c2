-- ===== src/Util/Strl/Tests.antt =====
-- Copies into four bytes.
use libsxe.Base.{ℕ, ◌≡◌, List, [], ◌∷◌, ◌++◌, arith}
use libsxe.Util.Strl.{strlcpy, strlcpy_lem}

abbrev room : List ℕ
room = 1 ∷ 2 ∷ 3 ∷ 4 ∷ []

abbrev hello : List ℕ
hello = b'h' ∷ b'e' ∷ b'l' ∷ b'l' ∷ b'o' ∷ []

strlcpy_lem_example : strlcpy room (hello ++ 0 ∷ []) 4 ≡ (b'h' ∷ b'e' ∷ b'l' ∷ 0 ∷ [], 5)
strlcpy_lem_example = strlcpy_lem room hello [] 4 (omega arith) (omega arith)
