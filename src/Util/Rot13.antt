-- ===== src/Util/Rot13.antt =====
-- lib-sxe-util/sxe-rot13.c: rot13 of a text in place or into a buffer, and hex digits in rot13.
mod Tests
use libsxe.Base.{
  ℕ, zero, suc, ◌+◌, ◌-◌, ◌*◌, ◌%◌, ◌^◌, ◌≤◌, ◌<◌, ◌≡◌, refl, ap, Bool, true, List, [], ◌∷◌, ◌++◌,
  Option, none, some, ◌==◌, ==_iff, ltb, ltb→lt, ◌&&◌, if◌then◌else◌, Bool-cases, inl, inr, arith,
  length, get_or, replicate, take, drop, entries_pass, entries_pass-entry, NulFree, take_all,
}

abbrev from_to : ℕ → ℕ → List ℕ
from_to first zero = []
from_to first (suc n) = first ∷ from_to (first + 1) n

-- sxe_rot13_char: the letters' two halves are swapped.
unfoldable pub rot13_char : List ℕ
rot13_char =
    from_to 0 b'A'
    ++ from_to b'N' 13
    ++ from_to b'A' 13
    ++ from_to 0x5b 6
    ++ from_to b'n' 13
    ++ from_to b'a' 13
    ++ from_to 0x7b 133

-- SXE_ROT13_CHAR
unfoldable pub rot13 : ℕ → ℕ
unfolding rot13_char
rot13 c = get_or rot13_char c 0

-- sxe_rot13_hex_to_nibble; `none` is a read behind the table, which a `char` above 127 leads to, since
-- it is converted to a huge `unsigned`.
abbrev letter_row : List ℕ
letter_row = replicate 14 0xff ++ from_to 10 2

abbrev next_row : List ℕ
next_row = from_to 12 4 ++ replicate 12 0xff

unfoldable pub nibble_table : List ℕ
nibble_table =
    replicate 48 0xff
    ++ from_to 0 10
    ++ replicate 6 0xff
    ++ letter_row
    ++ next_row
    ++ letter_row
    ++ next_row
    ++ replicate 128 0xff

unfoldable pub hex_nibble : ℕ → Option ℕ
unfolding nibble_table
hex_nibble c = if ltb c 128 then some (get_or nibble_table c 0xff) else none

-- The text after sxe_strn_rot13_in_place.
unfoldable pub in_place : List ℕ → ℕ → List ℕ
in_place s zero = s
in_place [] (suc n) = []
in_place (c ∷ s) (suc n) = if c == 0 then c ∷ s else rot13 c ∷ in_place s n

-- What sxe_strn_rot13 writes to its buffer.
unfoldable pub copy : List ℕ → ℕ → List ℕ
copy s zero = []
copy [] (suc n) = 0 ∷ []
copy (c ∷ s) (suc n) = if c == 0 then 0 ∷ [] else rot13 c ∷ copy s n

-- The loop of sxe_rot13_hex_to_unsigned; `none` is the read behind the table.
unfoldable pub hex_scan : List ℕ → ℕ → ℕ → Option ℕ
hex_scan s zero result = some result
hex_scan [] (suc n) result = some result
hex_scan (c ∷ s) (suc n) result =
    let rest = λ (d : ℕ). hex_scan s n (result * 16 % 2 ^ 32 + d) in
    if c == 0 then some result else elim (hex_nibble c) [
      | none ↦ none
      | some d ↦ if d == 0xff then some (2 ^ 32 - 1) else rest d
    ]

unfoldable pub hex_to_unsigned : List ℕ → ℕ → Option ℕ
hex_to_unsigned text text_length = hex_scan text text_length 0

abbrev good : ℕ → Bool
good c = rot13 (rot13 c) == c && (if c == 0 then rot13 c == 0 else ltb 0 (rot13 c))

rot13_facts : (c : ℕ) → c < 256 → (rot13 (rot13 c) ≡ c) × ((c == 0) ≡ (rot13 c == 0))
rot13_facts c h = ground (arith, entries_pass-entry good 256 table c h)
  where
    table : entries_pass good 256 ≡ true
    table = unfold rot13 entries_pass in refl

abbrev pub Bytes : List ℕ → Type 0
Bytes [] = Unit {0}
Bytes (c ∷ s) = (c < 256) × Bytes s

-- Rotating a text of bytes in place a second time, with the same length limit, restores it.
pub in_place-in_place : (s : List ℕ) (n : ℕ) → Bytes s → in_place (in_place s n) n ≡ s
unfolding in_place
in_place-in_place s zero h = refl
in_place-in_place [] (suc n) h = refl
in_place-in_place (c ∷ s) (suc n) h = elim (Bool-cases (c == 0)) [
  | inl e ↦ rw (e, in_place) (ground arith)
  | inr e ↦ ground (arith, rot13_facts c h.0, in_place-in_place s n h.1)
]

-- sxe_strn_rot13 writes what the text in place would be, with its NUL where the limit reaches it.
pub copy-in_place :
    (s : List ℕ) (n : ℕ) → NulFree s → copy (s ++ 0 ∷ []) n ≡ take n (in_place (s ++ 0 ∷ []) n)
unfolding copy in_place
copy-in_place [] zero h = refl
copy-in_place [] (suc n) h = rw (take_all {A = ℕ} n [] (omega arith)) refl
copy-in_place (c ∷ s) zero h = refl
copy-in_place (c ∷ s) (suc n) h = ground (arith, copy-in_place s n h.1)
