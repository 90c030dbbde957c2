-- ===== src/Util/Log2/Tests.antt =====
-- Logarithms and masks at concrete numbers.
use libsxe.Base.{◌≡◌, refl}
use libsxe.Util.Log2.{
  IsLog2, unsigned_log2, unsigned_mask, uint64_align, unsigned_log2-IsLog2, unsigned_mask_lem,
}

log2_values : (unsigned_log2 70000 ≡ 16) × (unsigned_mask 1000 ≡ 1023)
unfolding unsigned_log2 unsigned_mask libsxe.Util.Log2.table_log2
log2_values = (refl, refl)

align_values : (uint64_align 13 8 ≡ 16) × (uint64_align 13 6 ≡ 18) × (uint64_align 24 8 ≡ 24)
unfolding uint64_align
align_values = (refl, refl, refl)
