-- ===== src/Util/Log2.antt =====
-- lib-sxe-util/sxe-unsigned.c: binary logarithm and mask by tables; sxe-uint64.c: alignment.
mod Tests
use libsxe.Base.{
  ℕ, zero, suc, ◌+◌, ◌-◌, ◌*◌, ◌/◌, ◌%◌, ◌^◌, ◌≤◌, ◌<◌, ◌≡◌, refl, ap, ◌∙◌, ◌&&◌, Bool, true, false,
  List, [], ◌∷◌, ◌++◌, ◌==◌, ==_iff, ltb, ltb→lt, leb, if◌then◌else◌, Bool-cases, inl, inr, arith,
  get_or, replicate, entries_pass, entries_pass-entry, bit_and,
}
use native.Mathlib.Nat.{pow-suc, add-zero, add-suc, mul-one, mul_assoc}

-- sxe_log2_table, 32 words of eight nibbles
unfoldable pub log2_table : List ℕ
log2_table =
    (0x22221100 ∷ 0x33333333 ∷ 0x44444444 ∷ 0x44444444 ∷ replicate 4 0x55555555)
    ++ replicate 8 0x66666666
    ++ replicate 16 0x77777777

-- sxe_mask_table
unfoldable pub mask_table : List ℕ
mask_table =
    0x00000001 ∷ 0x00000003 ∷ 0x00000007 ∷ 0x0000000F ∷ 0x0000001F ∷ 0x0000003F ∷ 0x0000007F
    ∷ 0x000000FF ∷ 0x000001FF ∷ 0x000003FF ∷ 0x000007FF ∷ 0x00000FFF ∷ 0x00001FFF ∷ 0x00003FFF
    ∷ 0x00007FFF ∷ 0x0000FFFF ∷ 0x0001FFFF ∷ 0x0003FFFF ∷ 0x0007FFFF ∷ 0x000FFFFF ∷ 0x001FFFFF
    ∷ 0x003FFFFF ∷ 0x007FFFFF ∷ 0x00FFFFFF ∷ 0x01FFFFFF ∷ 0x03FFFFFF ∷ 0x07FFFFFF ∷ 0x0FFFFFFF
    ∷ 0x1FFFFFFF ∷ 0x3FFFFFFF ∷ 0x7FFFFFFF ∷ 0xFFFFFFFF ∷ []

-- (sxe_log2_table[n >> 3] >> ((n & 0x7) * 4)) & 0xF
unfoldable pub table_log2 : ℕ → ℕ
unfolding log2_table
table_log2 n = get_or log2_table (n / 8) 0 / 2 ^ (n % 8 * 4) % 16

unfoldable pub unsigned_log2 : ℕ → ℕ
unsigned_log2 number =
    if ltb 0xFFFF number
    then (if ltb 0xFFFFFF number
        then table_log2 (number / 2 ^ 24) + 24
        else table_log2 (number / 2 ^ 16) + 16)
    else if ltb 0xFF number
    then table_log2 (number / 2 ^ 8) + 8
    else table_log2 number

unfoldable pub unsigned_mask : ℕ → ℕ
unfolding mask_table
unsigned_mask number = get_or mask_table (unsigned_log2 number) 0

-- sxe_uint64_align; uint64_t arithmetic
unfoldable pub uint64_align : ℕ → ℕ → ℕ
uint64_align value multiple =
    let mod' =
      if bit_and multiple ((multiple + 2 ^ 64 - 1) % 2 ^ 64) == 0
      then bit_and value ((multiple + 2 ^ 64 - 1) % 2 ^ 64)
      else value % multiple in
    if mod' == 0 then value else (value + 2 ^ 64 - mod' + multiple) % 2 ^ 64

abbrev good_log2 : ℕ → Bool
good_log2 n =
    if n == 0
    then true
    else leb (2 ^ table_log2 n) n && ltb n (2 ^ (table_log2 n + 1)) && ltb (table_log2 n) 8

table_log2_bounds :
    (n : ℕ)
    → 0 < n
    → n < 256
    → (2 ^ table_log2 n ≤ n) × (n < 2 ^ (table_log2 n + 1)) × (table_log2 n < 8)
table_log2_bounds n p h = ground (arith, entries_pass-entry good_log2 256 table n h)
  where
    table : entries_pass good_log2 256 ≡ true
    table = unfold table_log2 entries_pass in refl

pow-add : (a b : ℕ) → 2 ^ (a + b) ≡ 2 ^ a * 2 ^ b
pow-add a zero = rw (add-zero, mul-one) refl
pow-add a (suc b) =
    rw (add-suc, pow-suc 2 (a + b), pow-suc 2 b, pow-add a b) (mul_assoc (2 ^ a) (2 ^ b) 2)

-- `k` is the place of the highest bit of `n`.
abbrev pub IsLog2 : ℕ → ℕ → Type 0
IsLog2 n k = (2 ^ k ≤ n) × (n < 2 ^ (k + 1)) × (k < 32)

-- The powers for a byte that stands `s` places up.
powers_up : (k s : ℕ) → (2 ^ (k + s) ≡ 2 ^ k * 2 ^ s) × (2 ^ (k + s + 1) ≡ 2 ^ (k + 1) * 2 ^ s)
powers_up k s = (pow-add k s, ap (λ e. 2 ^ e) (omega arith) ∙ pow-add (k + 1) s)

up_24 : (n : ℕ) → 0xFFFFFF < n → n < 2 ^ 32 → IsLog2 n (table_log2 (n / 2 ^ 24) + 24)
up_24 n p h =
    let b = table_log2_bounds (n / 2 ^ 24) (omega arith) (omega arith) in
    omega (arith, b, powers_up (table_log2 (n / 2 ^ 24)) 24)

up_16 : (n : ℕ) → 0xFFFF < n → n < 2 ^ 24 → IsLog2 n (table_log2 (n / 2 ^ 16) + 16)
up_16 n p h =
    let b = table_log2_bounds (n / 2 ^ 16) (omega arith) (omega arith) in
    omega (arith, b, powers_up (table_log2 (n / 2 ^ 16)) 16)

up_8 : (n : ℕ) → 0xFF < n → n < 2 ^ 16 → IsLog2 n (table_log2 (n / 2 ^ 8) + 8)
up_8 n p h =
    let b = table_log2_bounds (n / 2 ^ 8) (omega arith) (omega arith) in
    omega (arith, b, powers_up (table_log2 (n / 2 ^ 8)) 8)

up_0 : (n : ℕ) → 0 < n → n < 256 → IsLog2 n (table_log2 n)
up_0 n p h = omega (arith, table_log2_bounds n p h)

test→lt : (a b : ℕ) → (ltb a b ≡ true → a < b) × (ltb a b ≡ false → b ≤ a)
test→lt a b = ((λ e. ground arith), (λ e. ground arith))

-- For a number that is not zero, sxe_unsigned_log2 is the place of its highest bit.
pub unsigned_log2-IsLog2 : (n : ℕ) → 0 < n → n < 2 ^ 32 → IsLog2 n (unsigned_log2 n)
unfolding unsigned_log2
unsigned_log2-IsLog2 n p h = elim (Bool-cases (ltb 0xFFFF n)) [
  | inl e ↦ elim (Bool-cases (ltb 0xFFFFFF n)) [
    | inl e' ↦ rw (e, e') (up_24 n ((test→lt 0xFFFFFF n).0 e') h)
    | inr e' ↦
        rw (e, e') (up_16 n ((test→lt 0xFFFF n).0 e) (omega (arith, (test→lt 0xFFFFFF n).1 e')))
  ]
  | inr e ↦ elim (Bool-cases (ltb 0xFF n)) [
    | inl e' ↦ rw (e, e') (up_8 n ((test→lt 0xFF n).0 e') (omega (arith, (test→lt 0xFFFF n).1 e)))
    | inr e' ↦ rw (e, e') (up_0 n p (omega (arith, (test→lt 0xFF n).1 e')))
  ]
]

abbrev good_mask : ℕ → Bool
good_mask k = get_or mask_table k 0 + 1 == 2 ^ (k + 1)

mask_table_lem : (k : ℕ) → k < 32 → get_or mask_table k 0 + 1 ≡ 2 ^ (k + 1)
mask_table_lem k h = (==_iff _ _).0 (entries_pass-entry good_mask 32 table k h)
  where
    table : entries_pass good_mask 32 ≡ true
    table = unfold mask_table entries_pass in refl

-- sxe_unsigned_mask is the least number of the form 2 ^ k - 1 that is not below its argument.
pub unsigned_mask_lem :
    (n : ℕ)
    → 0 < n
    → n < 2 ^ 32
    → (unsigned_mask n + 1 ≡ 2 ^ (unsigned_log2 n + 1))
      × (n ≤ unsigned_mask n)
      × (unsigned_mask n < 2 * n)
unfolding unsigned_mask
unsigned_mask_lem n p h =
    let l = unsigned_log2-IsLog2 n p h in
    let e = mask_table_lem (unsigned_log2 n) l.2 in
    (
      e,
      omega (arith, e, l),
      omega (arith, e, l, pow-suc 2 (unsigned_log2 n), pow_one_more (unsigned_log2 n)),
    )
  where
    pow_one_more : (k : ℕ) → 2 ^ (k + 1) ≡ 2 ^ k * 2
    pow_one_more k = pow-add k 1
