-- ===== src/Dict/Hash.antt =====
-- `meiyan`, the hash function of lib-sxe-dict/sxe-dict.c, on a little-endian machine with signed
-- `char`. Words are read byte by byte; a read past the list gives 0.
pub mod Prefix
use libsxe.Base.{
  ℕ, zero, suc, ◌+◌, ◌-◌, ◌*◌, ◌/◌, ◌%◌, ◌^◌, ◌≡◌, refl, bit_xor, List, [], ◌∷◌, ◌==◌, ltb,
  if◌then◌else◌, get_or, drop,
}

abbrev byte_at : List ℕ → ℕ → ℕ
byte_at key i = get_or key i 0

-- *(const uint16_t *)(key + i)
word16 : List ℕ → ℕ → ℕ
word16 key i = byte_at key i + 256 * byte_at key (i + 1)

-- *(const uint32_t *)(key + i)
word32 : List ℕ → ℕ → ℕ
word32 key i = word16 key i + 2 ^ 16 * word16 key (i + 2)

-- a `char` that is promoted to `uint32_t`
sign_extend : ℕ → ℕ
sign_extend c = if ltb c 128 then c else c + (2 ^ 32 - 256)

mix : ℕ → ℕ → ℕ
mix h w = bit_xor h w * 0xad3e7 % 2 ^ 32

-- (w << 5) | (w >> 27): the halves have no bit in common.
rotate_left_5 : ℕ → ℕ
rotate_left_5 w = w * 2 ^ 5 % 2 ^ 32 + w / 2 ^ 27

-- The `while (count >= 8)` loop, which goes round `count / 8` times.
blocks : ℕ → ℕ → List ℕ → ℕ
blocks zero h key = h
blocks (suc n) h key =
    blocks n (mix h (bit_xor (rotate_left_5 (word32 key 0)) (word32 key 4))) (drop 8 key)

-- `count & 4` is `count / 4 % 2`, up to the place of the bit: if (count & 4) { tmp tmp }
four : ℕ → ℕ → List ℕ → ℕ
four count h key = if count / 4 % 2 == 0 then h else mix (mix h (word16 key 0)) (word16 key 2)

-- if (count & 2) { tmp }
two : ℕ → ℕ → List ℕ → ℕ
two count h key = if count / 2 % 2 == 0 then h else mix h (word16 key 0)

-- if (count & 1) { ... }
one : ℕ → ℕ → List ℕ → ℕ
one count h key = if count % 2 == 0 then h else mix h (sign_extend (byte_at key 0))

-- `key` behind the bytes that these steps read
after_four : ℕ → List ℕ → List ℕ
after_four count key = if count / 4 % 2 == 0 then key else drop 4 key

after_two : ℕ → List ℕ → List ℕ
after_two count key = if count / 2 % 2 == 0 then key else drop 2 key

-- The three tests behind the loop.
rest : ℕ → ℕ → List ℕ → ℕ
rest count h key =
    one count (two count (four count h key) (after_four count key))
      (after_two count (after_four count key))

unfoldable pub meiyan : List ℕ → ℕ → ℕ
unfolding word16 word32 sign_extend mix rotate_left_5 blocks four two one after_four after_two rest
meiyan key count =
    let h = rest count (blocks (count / 8) 0x811c9dc5 key) (drop (count - count % 8) key) in
    bit_xor h (h / 2 ^ 16)

-- "ABC" and "DE" share bucket 0 of a table of two, as test-sxe-dict.c expects.
meiyan-abc : meiyan (65 ∷ 66 ∷ 67 ∷ []) 3 % 2 ≡ 0
unfolding meiyan
meiyan-abc = refl

meiyan-de : meiyan (68 ∷ 69 ∷ []) 2 % 2 ≡ 0
unfolding meiyan
meiyan-de = refl
