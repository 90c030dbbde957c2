-- ===== src/Base/Bytes.antt =====
-- Comparison of byte strings, and C strings in memory: a list holds the bytes from a pointer on.
use Prim.Native.Nat.{ℕ, suc, ◌+◌, ◌≤◌, ◌<◌}
use mathlib.Core.Path.{◌≡◌, refl}
use mathlib.Core.Bool.{Bool, true, false, ◌&&◌}
use mathlib.Core.List.{List, [], ◌∷◌, ◌++◌}
use native.Mathlib.Omega.{arith}
use libsxe.Base.Tests.{◌==◌, if◌then◌else◌}
use libsxe.Base.Lists.{length, take, drop}

-- memcmp(a, b, n) == 0 over the n bytes that each list holds.
unfoldable pub bytes_eq : List ℕ → List ℕ → Bool
bytes_eq [] [] = true
bytes_eq [] (b ∷ bs) = false
bytes_eq (a ∷ as') [] = false
bytes_eq (a ∷ as') (b ∷ bs) = a == b && bytes_eq as' bs

pub bytes_eq→eq : (a b : List ℕ) → bytes_eq a b ≡ true → a ≡ b
unfolding bytes_eq
bytes_eq→eq [] [] h = refl
bytes_eq→eq [] (y ∷ ys) h = cc
bytes_eq→eq (x ∷ xs) [] h = cc
bytes_eq→eq (x ∷ xs) (y ∷ ys) h = ground (arith, bytes_eq→eq xs ys)

pub bytes_eq_refl : (a : List ℕ) → bytes_eq a a ≡ true
unfolding bytes_eq
bytes_eq_refl [] = refl
bytes_eq_refl (x ∷ xs) = ground (arith, bytes_eq_refl xs)

-- strlen: the bytes in front of the first NUL, or all of them where there is none.
unfoldable pub strlen : List ℕ → ℕ
strlen [] = 0
strlen (c ∷ s) = if c == 0 then 0 else suc (strlen s)

pub strlen-le-length : (s : List ℕ) → strlen s ≤ length s
unfolding strlen
strlen-le-length [] = omega arith
strlen-le-length (c ∷ s) = ground (arith, strlen-le-length s)

-- A text with no NUL in it.
abbrev pub NulFree : List ℕ → Type 0
NulFree [] = Unit {0}
NulFree (c ∷ s) = (0 < c) × NulFree s

pub strlen-append : (s rest : List ℕ) → NulFree s → strlen (s ++ 0 ∷ rest) ≡ length s
unfolding strlen
strlen-append [] rest h = refl
strlen-append (c ∷ s) rest h = ground (arith, strlen-append s rest h.1)

-- The C memcpy into memory from an offset on.
unfoldable pub copy_at : List ℕ → ℕ → List ℕ → List ℕ
copy_at space at bytes = take at space ++ bytes ++ drop (at + length bytes) space
