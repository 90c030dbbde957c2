-- ===== src/RingBuffer.antt =====
-- lib-sxe-ring-buffer/sxe-ring-buffer.c: a ring of bytes with one writer, and readers that follow it.
-- Pointers are addresses. `none` is a failed assertion.
pub mod Write
pub mod Add
pub mod Read
pub mod Consume
pub mod Join
pub mod Follow
pub mod OverRun
pub mod Writable
mod Tests
use libsxe.Base.{
  ℕ, zero, suc, ◌+◌, ◌-◌, ◌/◌, ◌%◌, ◌^◌, Bool, true, false, not, ◌&&◌, ◌||◌, List, Option, none,
  some, ◌==◌, ltb, leb, if◌then◌else◌, length, take, drop, copy_at,
}

-- The words in front of the array, and the array, which stands at `array_base`.
pub record Ring : Type 0 where
  pub array_base : ℕ
  pub size : ℕ
  pub iteration : ℕ
  pub current : ℕ
  pub writen_end : ℕ
  pub bytes : List ℕ

-- SXE_RING_BUFFER_CONTEXT
pub record Context : Type 0 where
  pub itteration : ℕ
  pub data_block : ℕ
  pub data_block_len : ℕ
  pub writable_block : ℕ
  pub writable_block_len : ℕ

-- SXE_RING_BUFFER_END, the last byte of the array
abbrev pub end : Ring → ℕ
end r = r.array_base + r.size - 1

abbrev pub next_iteration : ℕ → ℕ
next_iteration i = (i + 1) % 2 ^ 32

-- The fresh array holds `memory`.
unfoldable pub new : ℕ → List ℕ → ℕ → Ring
new array_base memory size = record {
  array_base = array_base;
  size = size;
  iteration = 0;
  current = array_base;
  writen_end = array_base;
  bytes = memory;
}

-- memcpy to the place of a pointer.
abbrev pub write_at : Ring → ℕ → List ℕ → List ℕ
write_at r pointer bytes = copy_at r.bytes (pointer - r.array_base) bytes

-- The pointers behind `len` bytes that are written and end in the array.
unfoldable pub advance : Ring → ℕ → Ring
advance r len =
    let current = r.current + len in
    if current == end r + 1
    then record r {
      iteration = next_iteration r.iteration;
      current = r.array_base;
      writen_end = end r;
    }
    else record r {
      current = current;
      writen_end = if ltb r.writen_end current then current - 1 else r.writen_end;
    }

unfoldable pub ring_add : Ring → List ℕ → ℕ → Option Ring
ring_add r buf len =
    let available_space = end r + 1 - r.current in
    if not (leb len r.size)
    then none
    else if leb len available_space
    then some (advance (record r { bytes = write_at r r.current (take len buf) }) len)
    else some (record r {
      writen_end = end r;
      iteration = next_iteration r.iteration;
      current = r.array_base + (len - available_space);
      bytes =
          copy_at (write_at r r.current (take available_space buf)) 0
            (take (len - available_space) (drop available_space buf));
    })

unfoldable pub next_writable_block : Ring → Context → Option Context
next_writable_block r c =
    let len = end r + 1 - r.current in
    if len == 0
    then none
    else some (record c { writable_block = r.current; writable_block_len = len })

-- The caller's write into the writable block.
unfoldable pub fill_block : Ring → Context → List ℕ → Ring
fill_block r c buf = record r { bytes = write_at r c.writable_block buf }

unfoldable pub wrote_block : Ring → Context → ℕ → Option Ring
wrote_block r c len =
    if c.writable_block == r.current && leb len (end r + 1 - r.current)
    then some (advance r len)
    else none

unfoldable pub force_ring_wrap : Ring → Ring
force_ring_wrap r = record r {
  writen_end = r.current - 1;
  current = r.array_base;
  iteration = next_iteration r.iteration;
}

-- The ring, which may be wrapped, and the context.
unfoldable pub next_writable_block_size : Ring → Context → ℕ → Option (Ring × Context)
next_writable_block_size r c size =
    if not (leb size r.size) then none else elim (next_writable_block r c) [
      | none ↦ none
      | some c' ↦
          if ltb c'.writable_block_len size
          then (elim (next_writable_block (force_ring_wrap r) c') [
            | none ↦ none
            | some c'' ↦ some (force_ring_wrap r, c'')
          ])
          else some (r, c')
    ]

unfoldable pub join : Ring → Context → Bool → Context
join r c replay_half =
    let now = record c { itteration = r.iteration; data_block = r.current; data_block_len = 0 } in
    if not replay_half
    then now
    else if leb (r.size / 2) (r.current - r.array_base)
    then record now { data_block = r.current - r.size / 2 }
    else if r.iteration == 0
    then record now { data_block = r.array_base }
    else record now {
      itteration = r.iteration - 1;
      data_block = r.current + (r.writen_end + 1 - r.array_base) / 2;
    }

-- Whether the writer has written over what the reader has not read.
unfoldable pub over_run : Ring → Context → Bool
over_run r c =
    ltb ((c.itteration + 1) % 2 ^ 32) r.iteration
    || (ltb c.itteration r.iteration && ltb c.data_block r.current)

-- sxe_ring_buffer_check_over_run: whether it is well, and the context, moved to the writer where not.
unfoldable pub check_over_run : Ring → Context → Bool × Context
check_over_run r c =
    if over_run r c
    then (false, record c { data_block = r.current; itteration = r.iteration; data_block_len = 0 })
    else (true, c)

unfoldable pub next_block : Ring → Context → Bool × Context
next_block r c =
    if over_run r c
    then check_over_run r c
    else if ltb c.data_block r.current
    then (true, record c { data_block_len = r.current - c.data_block })
    else if r.iteration == (c.itteration + 1) % 2 ^ 32 && r.writen_end + 1 == c.data_block
    then (
      true,
      record c {
        data_block = r.array_base;
        itteration = next_iteration c.itteration;
        data_block_len = r.current - r.array_base;
      },
    )
    else if ltb c.itteration r.iteration
    then (true, record c { data_block_len = r.writen_end + 1 - c.data_block })
    else (true, c)

-- The bytes of the block that the reader has.
abbrev pub block : Ring → Context → List ℕ
block r c = take c.data_block_len (drop (c.data_block - r.array_base) r.bytes)

-- `none` is one of the two assertions; `data_block_len` is unsigned.
unfoldable pub consumed : Ring → Context → ℕ → Option (Bool × Context)
consumed r c len =
    let data_block = c.data_block + len in
    let left = (c.data_block_len + 2 ^ 32 - len) % 2 ^ 32 in
    if over_run r c
    then some (check_over_run r c)
    else if not (leb data_block (r.writen_end + 1))
    then none
    else if data_block == r.writen_end + 1 && not (data_block == r.current)
    then (if left == 0
        then some (
          true,
          record c {
            data_block = r.array_base;
            data_block_len = left;
            itteration = next_iteration c.itteration;
          },
        )
        else none)
    else some (true, record c { data_block = data_block; data_block_len = left })
