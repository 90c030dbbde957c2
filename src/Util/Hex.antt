-- ===== src/Util/Hex.antt =====
-- lib-sxe-util/sxe-hex.c: numbers and bytes in hexadecimal.
mod Tests
use libsxe.Base.{
  ℕ, zero, suc, ◌+◌, ◌-◌, ◌*◌, ◌/◌, ◌%◌, ◌^◌, ◌≤◌, ◌<◌, ◌≡◌, ◌≢◌, refl, ap, ◌∙◌, ◌&&◌, ◌||◌, Bool,
  true, false, List, [], ◌∷◌, ◌++◌, Option, none, some, ◌==◌, ==_iff, ltb, ltb→lt, if◌then◌else◌,
  Bool-cases, inl, inr, arith, length, get_or, drop, replicate, entries_pass, entries_pass-entry,
}

abbrev na : ℕ
na = 0xff

abbrev na_row : List ℕ
na_row = replicate 16 na

abbrev digit_row : List ℕ
digit_row = 0 ∷ 1 ∷ 2 ∷ 3 ∷ 4 ∷ 5 ∷ 6 ∷ 7 ∷ 8 ∷ 9 ∷ replicate 6 na

abbrev letter_row : List ℕ
letter_row = na ∷ 10 ∷ 11 ∷ 12 ∷ 13 ∷ 14 ∷ 15 ∷ replicate 9 na

-- hex_character_to_nibble, 16 rows of 16
unfoldable pub nibble_table : List ℕ
nibble_table =
    na_row
    ++ na_row
    ++ na_row
    ++ digit_row
    ++ letter_row
    ++ na_row
    ++ letter_row
    ++ na_row
    ++ replicate 128 na

unfoldable pub nibble : ℕ → ℕ
unfolding nibble_table
nibble c = get_or nibble_table c na

-- "0123456789abcdef"
unfoldable pub nibble_to_character : ℕ → ℕ
nibble_to_character n =
    get_or (48 ∷ 49 ∷ 50 ∷ 51 ∷ 52 ∷ 53 ∷ 54 ∷ 55 ∷ 56 ∷ 57 ∷ 97 ∷ 98 ∷ 99 ∷ 100 ∷ 101 ∷ 102 ∷ []) n
      0

-- The loop of sxe_valid_hex_to_unsigned and sxe_hex_to_unsigned, with at most so many rounds; `none`
-- is the unexpected character.
unfoldable pub scan : ℕ → List ℕ → ℕ → Option ℕ
scan zero hex val = some val
scan (suc n) [] val = some val
scan (suc n) (c ∷ cs) val =
    let rest = scan n cs (val * 16 % 2 ^ 32 + nibble c) in
    if c == 0 then some val else if nibble c == na then none else rest

-- The new contents of `*value`, where it is written.
unfoldable pub valid_hex_to_unsigned : List ℕ → ℕ → Option ℕ
valid_hex_to_unsigned hex hex_length_maximum = scan hex_length_maximum hex 0

unfoldable pub hex_to_unsigned : List ℕ → ℕ → ℕ
hex_to_unsigned hex hex_length_maximum = elim (scan hex_length_maximum hex 0) [
  | none ↦ 2 ^ 32 - 1
  | some val ↦ val
]

-- One round of sxe_hex_to_bytes on the two characters in front: `none` is the unexpected character.
unfoldable pub byte_of : ℕ → ℕ → Option ℕ
byte_of high low =
    if nibble high == na || nibble low == na then none else some (nibble high * 16 + nibble low)

-- The result, and the bytes that are written. A round reads two characters, also where one is left.
unfoldable pub hex_to_bytes : List ℕ → ℕ → Bool × List ℕ
hex_to_bytes hex zero = (true, [])
hex_to_bytes hex (suc zero) = elim (byte_of (get_or hex 0 0) (get_or hex 1 0)) [
  | none ↦ (false, [])
  | some b ↦ (true, b ∷ [])
]
hex_to_bytes hex (suc (suc n)) =
    let (ok, bytes) = hex_to_bytes (drop 2 hex) n in
    elim (byte_of (get_or hex 0 0) (get_or hex 1 0)) [
      | none ↦ (false, [])
      | some b ↦ (ok, b ∷ bytes)
    ]

unfoldable pub hex_from_bytes : List ℕ → List ℕ
hex_from_bytes [] = []
hex_from_bytes (b ∷ bs) =
    nibble_to_character (b / 16) ∷ nibble_to_character (b % 16) ∷ hex_from_bytes bs

-- Each nibble's character is read back as the nibble.
abbrev reads_back : ℕ → Bool
reads_back n = nibble (nibble_to_character n) == n

nibble_lem : (n : ℕ) → n < 16 → nibble (nibble_to_character n) ≡ n
nibble_lem n h = (==_iff _ n).0 (entries_pass-entry reads_back 16 table n h)
  where
    table : entries_pass reads_back 16 ≡ true
    table = unfold nibble nibble_to_character entries_pass in refl

byte_of_characters :
    (b : ℕ)
    → b < 256
    → byte_of (nibble_to_character (b / 16)) (nibble_to_character (b % 16)) ≡ some b
unfolding byte_of
byte_of_characters b h =
    rw (nibble_lem (b / 16) (omega arith), nibble_lem (b % 16) (omega arith)) (ground arith)

abbrev pub Bytes : List ℕ → Type 0
Bytes [] = Unit {0}
Bytes (b ∷ bs) = (b < 256) × Bytes bs

double : ℕ → ℕ
double zero = zero
double (suc n) = suc (suc (double n))

double_lem : (n : ℕ) → double n ≡ 2 * n
unfolding double
double_lem zero = refl
double_lem (suc n) = omega (arith, double_lem n)

to_bytes_from :
    (bs rest : List ℕ)
    → Bytes bs
    → hex_to_bytes (hex_from_bytes bs ++ rest) (double (length bs)) ≡ (true, bs)
unfolding hex_to_bytes hex_from_bytes double
to_bytes_from [] rest h = refl
to_bytes_from (b ∷ bs) rest h = ground (arith, byte_of_characters b h.0, to_bytes_from bs rest h.1)

-- sxe_hex_to_bytes gets back, from twice as many characters, the bytes that sxe_hex_from_bytes wrote,
-- whatever follows them.
pub hex_to_bytes-hex_from_bytes :
    (bs rest : List ℕ)
    → Bytes bs
    → hex_to_bytes (hex_from_bytes bs ++ rest) (2 * length bs) ≡ (true, bs)
hex_to_bytes-hex_from_bytes bs rest h = rw (← double_lem (length bs)) (to_bytes_from bs rest h)

-- The number whose digits to the base 256 are the bytes, behind those of `acc`.
pub number : ℕ → List ℕ → ℕ
number acc [] = acc
number acc (b ∷ bs) = number (acc * 256 + b) bs

abbrev usable : ℕ → Bool
usable n = ltb 0 (nibble_to_character n)

nibble_to_character_pos : (n : ℕ) → n < 16 → 0 < nibble_to_character n
nibble_to_character_pos n h = ltb→lt 0 _ (entries_pass-entry usable 16 table n h)
  where
    table : entries_pass usable 16 ≡ true
    table = unfold nibble_to_character entries_pass in refl

scan_nibble :
    (k n val : ℕ) (cs : List ℕ)
    → n < 16
    → scan (suc k) (nibble_to_character n ∷ cs) val ≡ scan k cs (val * 16 % 2 ^ 32 + n)
unfolding scan
scan_nibble k n val cs h = ground (arith, nibble_lem n h, nibble_to_character_pos n h)

scan-number :
    (bs rest : List ℕ) (acc : ℕ)
    → Bytes bs
    → scan (double (length bs)) (hex_from_bytes bs ++ rest) (acc % 2 ^ 32)
      ≡ some (number acc bs % 2 ^ 32)
unfolding hex_from_bytes double number
scan-number [] rest acc h = unfold scan in refl
scan-number (b ∷ bs) rest acc h =
    scan_nibble (suc (double (length bs))) (b / 16) (acc % 2 ^ 32) _ (omega arith)
    ∙ scan_nibble (double (length bs)) (b % 16) _ _ (omega arith)
    ∙ ap (scan (double (length bs)) (hex_from_bytes bs ++ rest)) step
    ∙ scan-number bs rest (acc * 256 + b) h.1
  where
    step : (acc % 2 ^ 32 * 16 % 2 ^ 32 + b / 16) * 16 % 2 ^ 32 + b % 16 ≡ (acc * 256 + b) % 2 ^ 32
    step = omega (arith, h.0)

-- On the characters that sxe_hex_from_bytes writes for some bytes, sxe_valid_hex_to_unsigned and
-- sxe_hex_to_unsigned give the low 32 bits of the number with those bytes, the first the highest.
pub hex_to_unsigned-hex_from_bytes :
    (bs rest : List ℕ)
    → Bytes bs
    → (valid_hex_to_unsigned (hex_from_bytes bs ++ rest) (2 * length bs)
        ≡ some (number 0 bs % 2 ^ 32))
      × (hex_to_unsigned (hex_from_bytes bs ++ rest) (2 * length bs) ≡ number 0 bs % 2 ^ 32)
unfolding valid_hex_to_unsigned hex_to_unsigned
hex_to_unsigned-hex_from_bytes bs rest h =
    rw (← double_lem (length bs)) (same, rw (same, hex_to_unsigned) refl)
  where
    same : scan (double (length bs)) (hex_from_bytes bs ++ rest) 0 ≡ some (number 0 bs % 2 ^ 32)
    same = scan-number bs rest 0 h

-- An odd length does not stop sxe_hex_to_bytes: the digit that is left is read with the character
-- behind the text, so the call fails at a NUL, and writes a byte where a hex digit follows.
pub hex_to_bytes_odd :
    (c next : ℕ) (rest : List ℕ)
    → nibble c ≢ na
    → hex_to_bytes (c ∷ next ∷ rest) 1
      ≡ (if nibble next == na then (false, []) else (true, (nibble c * 16 + nibble next) ∷ []))
unfolding hex_to_bytes byte_of
hex_to_bytes_odd c next rest h = ground arith
