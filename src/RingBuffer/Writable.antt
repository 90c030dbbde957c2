-- ===== src/RingBuffer/Writable.antt =====
-- sxe_ring_buffer_next_writable_block_size: a block of the size that is asked for, behind a forced wrap
-- where the array has no such block left.
use libsxe.Base.{
  ℕ, ◌+◌, ◌-◌, ◌≤◌, ◌<◌, ◌≡◌, refl, true, false, some, ◌==◌, ltb, leb, Bool-cases, inl, inr, arith,
}
use libsxe.RingBuffer.{
  Ring, Context, end, next_writable_block, force_ring_wrap, next_writable_block_size,
}

abbrev pub writable : Ring → Context → Context
writable r c = record c { writable_block = r.current; writable_block_len = end r + 1 - r.current }

next_writable_block_lem :
    (r : Ring) (c : Context) → r.current ≤ end r → next_writable_block r c ≡ some (writable r c)
unfolding next_writable_block
next_writable_block_lem r c p =
    let room : (end r + 1 - r.current == 0) ≡ false = ground (arith, p) in rw room refl

-- The block starts at the pointer to the first free byte, and has at least `size` bytes, in the array.
pub record Writable (r : Ring) (c : Context) (size : ℕ) : Type 0 where
  pub next : Ring
  pub context : Context
  pub result : next_writable_block_size r c size ≡ some (next, context)
  pub same_array : (next.array_base ≡ r.array_base) × (next.size ≡ r.size)
  pub at_current : context.writable_block ≡ next.current
  pub enough : size ≤ context.writable_block_len
  pub inside : context.writable_block + context.writable_block_len ≡ end next + 1
  pub same_reader : (context.itteration ≡ c.itteration) × (context.data_block ≡ c.data_block)

-- Where a block is asked for that is not larger than the ring, and the writer is inside the array, the
-- assertions pass and a block of at least this size is given that starts at the writer and ends with the
-- array, behind a forced wrap where there is no such block left.
pub next_writable_block_size_lem :
    (r : Ring) (c : Context) (size : ℕ)
    → 0 < r.array_base
    → r.array_base ≤ r.current
    → r.current ≤ end r
    → 0 < r.size
    → size ≤ r.size
    → Writable r c size
unfolding next_writable_block_size force_ring_wrap
next_writable_block_size_lem r c size b p q n s =
    let small : leb size r.size ≡ true = ground (arith, s) in
    let first = next_writable_block_lem r c q in
    elim (Bool-cases (ltb (end r + 1 - r.current) size)) [
      | inl e ↦ record {
        next = force_ring_wrap r;
        context = writable (force_ring_wrap r) (writable r c);
        result = rw small (
            rw first (
              rw e (
                rw
                  (next_writable_block_lem (force_ring_wrap r) (writable r c) (omega (arith, b, n)))
                  refl)));
        same_array = (refl, refl);
        at_current = refl;
        enough = omega (arith, b, n, s);
        inside = omega (arith, b, n);
        same_reader = (refl, refl);
      }
      | inr e ↦ record {
        next = r;
        context = writable r c;
        result = rw small (rw first (rw e refl));
        same_array = (refl, refl);
        at_current = refl;
        enough = ground (arith, e);
        inside = omega (arith, q);
        same_reader = (refl, refl);
      }
    ]
