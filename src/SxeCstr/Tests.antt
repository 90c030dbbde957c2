-- ===== src/SxeCstr/Tests.antt =====
-- A counted string of four bytes.
use libsxe.Base.{◌≡◌, refl, false, [], ◌∷◌, some, strlen}
use libsxe.SxeCstr.{Cstr, literal, cstr_cat, strncat_at, source_bytes, cstr_length}

abbrev one_used : Cstr
one_used = record {
  is_const = false;
  overflow = false;
  size = 4;
  len = 1;
  buf = b'a' ∷ 0 ∷ 0 ∷ 0 ∷ [];
}

cat_two :
    cstr_cat one_used (literal (b'b' ∷ b'c' ∷ 0 ∷ []))
    ≡ some (record one_used { len = 3; buf = b'a' ∷ b'b' ∷ b'c' ∷ 0 ∷ [] })
unfolding cstr_cat strncat_at source_bytes cstr_length strlen
cat_two = refl

-- The NUL of a text that fills the buffer is written behind it.
cat_full :
    cstr_cat one_used (literal (b'b' ∷ b'c' ∷ b'd' ∷ 0 ∷ []))
    ≡ some (record one_used { len = 4; buf = b'a' ∷ b'b' ∷ b'c' ∷ b'd' ∷ 0 ∷ [] })
unfolding cstr_cat strncat_at source_bytes cstr_length strlen
cat_full = refl
