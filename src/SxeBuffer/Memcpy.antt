-- ===== src/SxeBuffer/Memcpy.antt =====
-- sxe_buffer_memcpy of lib-sxe-buffer/sxe-buffer.c as an append of what fits.
use libsxe.Base.{
  copy_at, ℕ, ◌+◌, ◌-◌, ◌%◌, ◌^◌, ◌≤◌, ◌≡◌, refl, ◌∙◌, false, ◌||◌, List, ◌++◌, some, ltb,
  if◌then◌else◌, arith, length, take, drop, length-append, length-take, length-drop,
}
use libsxe.SxeBuffer.{SxeBuffer, memcpy, IsValid, contents, take-copy_at}

-- How many of so many bytes fit.
abbrev pub fit : SxeBuffer → ℕ → ℕ
fit b length' = if ltb (b.size - b.count) length' then b.size - b.count else length'

length-copy_at :
    (space bytes : List ℕ) (at : ℕ)
    → at + length bytes ≤ length space
    → length (copy_at space at bytes) ≡ length space
unfolding copy_at
length-copy_at space bytes at h =
    length-append (take at space ++ bytes) (drop (at + length bytes) space)
    ∙ omega (
      arith,
      h,
      length-append (take at space) bytes,
      length-take at space,
      length-drop (at + length bytes) space,
    )

fit_bound : (b : SxeBuffer) (n : ℕ) → (fit b n ≤ b.size - b.count) × (fit b n ≤ n)
fit_bound b n = ground arith

-- sxe_buffer_memcpy, on a valid buffer that is not constant, appends as many of the bytes as there is
-- room for, keeps the buffer valid and what is consumed, and sets the overflow flag where not all fit.
pub memcpy-IsValid :
    (b : SxeBuffer) (data' : List ℕ) (length' : ℕ)
    → IsValid b
    → b.is_const ≡ false
    → length' ≤ length data'
    → (after : SxeBuffer) × (memcpy b data' length' ≡ some after)
      × IsValid after
      × (contents after ≡ contents b ++ take (fit b length') data')
      × (after.consumed ≡ b.consumed)
      × (after.overflow ≡ (b.overflow || ltb (b.size - b.count) length'))
unfolding memcpy
memcpy-IsValid b data' length' v c l = (
  record b {
    overflow = b.overflow || ltb (b.size - b.count) length';
    space = copy_at b.space b.count bytes;
    count = (b.count + fit b length') % 2 ^ 16;
  },
  rw c refl,
  record {
    size_bound = v.size_bound;
    count_bound = omega (arith, bound, v.count_bound, v.size_bound);
    consumed_bound = omega (arith, bound, v.count_bound, v.size_bound, v.consumed_bound);
    space_length =
        length-copy_at b.space bytes b.count
          (omega (arith, bytes_length, bound, v.count_bound, v.space_length))
        ∙ v.space_length;
  },
  rw (new_count)
      (take-copy_at b.space bytes b.count (omega (arith, v.count_bound, v.space_length))),
  refl,
  refl,
)
  where
    bytes : List ℕ
    bytes = take (fit b length') data'

    bound : (fit b length' ≤ b.size - b.count) × (fit b length' ≤ length')
    bound = fit_bound b length'

    bytes_length : length bytes ≡ fit b length'
    bytes_length = omega (arith, length-take (fit b length') data', bound, l)

    new_count : (b.count + fit b length') % 2 ^ 16 ≡ b.count + length bytes
    new_count = omega (arith, bytes_length, bound, v.count_bound, v.size_bound)
