-- ===== src/SxeBuffer/Tests.antt =====
-- A buffer of four bytes.
use libsxe.Base.{◌≡◌, refl, true, false, [], ◌∷◌, some, arith}
use libsxe.SxeBuffer.{SxeBuffer, memcpy, IsValid, contents}
use libsxe.SxeBuffer.Memcpy.{memcpy-IsValid}

abbrev three_used : SxeBuffer
three_used = record {
  is_const = false;
  overflow = false;
  size = 4;
  count = 3;
  consumed = 1;
  space = b'a' ∷ b'b' ∷ b'c' ∷ 0 ∷ [];
}

three_used-IsValid : IsValid three_used
three_used-IsValid = record {
  size_bound = omega arith;
  count_bound = omega arith;
  consumed_bound = omega arith;
  space_length = refl;
}

memcpy-IsValid_example :
    (after : SxeBuffer) × (memcpy three_used (b'd' ∷ b'e' ∷ []) 2 ≡ some after)
    × IsValid after
    × (contents after ≡ b'a' ∷ b'b' ∷ b'c' ∷ b'd' ∷ [])
    × (after.consumed ≡ 1)
    × (after.overflow ≡ true)
memcpy-IsValid_example =
    memcpy-IsValid three_used (b'd' ∷ b'e' ∷ []) 2 three_used-IsValid refl (omega arith)
