-- ===== src/Util/Printable.antt =====
-- lib-sxe-util/sxe-str-to-printable.c: a printable form of a text in one of ten buffers, each of 1024
-- bytes. `isprint` is the C library's.
mod Tests
use libsxe.Base.{
  ℕ, zero, suc, ◌+◌, ◌-◌, ◌*◌, ◌/◌, ◌%◌, ◌≤◌, ◌<◌, ◌≡◌, refl, ap, Bool, true, false, not, ◌||◌,
  List, [], ◌∷◌, ◌++◌, Option, none, some, ◌==◌, ltb, ltb→lt, leb, if◌then◌else◌, Bool-cases, inl,
  inr, arith, length, length-append, take, drop, min, NulFree, length-take,
}

-- SXE_STR_PRINTABLE_LENGTH_MAXIMUM, and the size of a buffer: `sizeof("...")` is 4.
abbrev pub maximum : ℕ
maximum = 1020

abbrev pub buffer_size : ℕ
buffer_size = maximum + 4

unfoldable pub lower_digit : ℕ → ℕ
lower_digit n = if ltb n 10 then n + b'0' else n + 87

module _ (isprint : ℕ → Bool) where
  unfoldable pub printable : ℕ → Bool
  printable c = isprint c || c == b' '

  -- The first loop: how many characters in front are printable.
  unfoldable pub printable_front : List ℕ → ℕ
  printable_front [] = 0
  printable_front (c ∷ s) =
      let rest = suc (printable_front s) in if c == 0 then 0 else if printable c then rest else 0

  -- What the second loop writes, from `from` on, with `n` rounds left: the bytes, in order.
  unfoldable pub write_loop : ℕ → List ℕ → List ℕ
  unfolding lower_digit
  write_loop zero s = []
  write_loop (suc n) [] = 0 ∷ []
  write_loop (suc n) (c ∷ s) =
      let rest = write_loop n s in
      if c == 0
      then 0 ∷ []
      else if printable c
      then c ∷ rest
      else b'\\' ∷ b'x' ∷ lower_digit (c / 16) ∷ lower_digit (c % 16) ∷ rest

  -- `sxe_str_next`, and what the call writes to buffer number `sxe_str_next`, from its first byte on;
  -- `none` if it returns `str` itself. The "..." is not among the bytes.
  unfoldable pub str_to_printable : List ℕ → ℕ → Option (List ℕ) × ℕ
  str_to_printable str next =
      let from = printable_front str in
      if from == length str then (none, next) else (
        some (take (min from maximum) str ++ write_loop (maximum - from) (drop from str)),
        (next + 1) % 10,
      )

  -- No character of the text is printable.
  abbrev pub Unprintable : List ℕ → Type 0
  Unprintable [] = Unit {0}
  Unprintable (c ∷ s) = (0 < c) × (printable c ≡ false) × Unprintable s

  length-write_loop :
      (n : ℕ) (s : List ℕ)
      → Unprintable s
      → length s < n
      → length (write_loop n s) ≡ 4 * length s + 1
  unfolding write_loop
  length-write_loop zero s u h = absurd (omega arith)
  length-write_loop (suc n) [] u h = refl
  length-write_loop (suc n) (c ∷ s) u h = ground (arith, length-write_loop n s u.2)

  -- A text of 256 to 1019 unprintable characters is written behind the end of the buffer: each takes
  -- four bytes, and the loop bounds the characters that it reads, not the bytes that it writes.
  pub str_to_printable_overflow :
      (c : ℕ) (s : List ℕ) (next : ℕ)
      → Unprintable (c ∷ s)
      → 256 ≤ length (c ∷ s)
      → length (c ∷ s) < maximum
      → (written : List ℕ) × (str_to_printable (c ∷ s) next ≡ (some written, (next + 1) % 10))
        × (length written ≡ 4 * length (c ∷ s) + 1)
        × (buffer_size < length written)
  unfolding str_to_printable printable_front
  str_to_printable_overflow c s next u h k =
      (write_loop maximum (c ∷ s), ground arith, long, omega (arith, long))
    where
      long : length (write_loop maximum (c ∷ s)) ≡ 4 * length (c ∷ s) + 1
      long = length-write_loop maximum (c ∷ s) u k
