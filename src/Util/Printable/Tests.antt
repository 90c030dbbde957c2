-- ===== src/Util/Printable/Tests.antt =====
-- A text of 256 control characters.
use libsxe.Base.{
  ℕ, zero, suc, ◌+◌, ◌*◌, ◌<◌, ◌≡◌, refl, Bool, ◌&&◌, List, [], ◌∷◌, some, leb, arith, length,
  replicate,
}
use libsxe.Util.Printable.{
  Unprintable, maximum, buffer_size, str_to_printable, printable, printable_front, write_loop,
  str_to_printable_overflow,
}

abbrev isprint : ℕ → Bool
isprint c = leb 32 c && leb c 126

-- "a\n"
short_text :
    str_to_printable isprint (b'a' ∷ 10 ∷ []) 9
    ≡ (some (b'a' ∷ b'\\' ∷ b'x' ∷ b'0' ∷ b'a' ∷ 0 ∷ []), 0)
unfolding str_to_printable printable_front write_loop printable libsxe.Util.Printable.lower_digit
short_text = refl

abbrev controls : List ℕ
controls = replicate 255 1

controls-Unprintable : (n : ℕ) → Unprintable isprint (replicate n 1)
unfolding printable
controls-Unprintable zero = tt
controls-Unprintable (suc n) = (omega arith, refl, controls-Unprintable n)

str_to_printable_overflow_example :
    (written : List ℕ) × (str_to_printable isprint (1 ∷ controls) 0 ≡ (some written, 1))
    × (length written ≡ 4 * length (1 ∷ controls) + 1)
    × (buffer_size < length written)
str_to_printable_overflow_example =
    str_to_printable_overflow isprint 1 controls 0 (controls-Unprintable 256) (omega arith)
      (omega arith)
