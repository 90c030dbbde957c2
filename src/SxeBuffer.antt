-- ===== src/SxeBuffer.antt =====
-- lib-sxe-buffer/sxe-buffer.c: counted buffers of a fixed size. `none` is a failed assertion.
pub mod Memcpy
mod Tests
use libsxe.Base.{
  ℕ, zero, suc, ◌+◌, ◌-◌, ◌%◌, ◌^◌, ◌≤◌, ◌<◌, ◌≡◌, refl, ap, sym, ◌∙◌, Bool, true, false, not, ◌||◌,
  ◌&&◌, List, [], ◌∷◌, ◌++◌, copy_at, Option, none, some, ◌==◌, ltb, leb, if◌then◌else◌, arith,
  length, get_or, set, take, drop, strlen, min, length-append, length-take, length-drop,
}

-- struct SXE_BUFFER that is constructed: `literal` is 0 and the flag IS_CSTR is set. `space` has `size` bytes.
pub record SxeBuffer : Type 0 where
  pub is_const : Bool
  pub overflow : Bool
  pub size : ℕ
  pub count : ℕ
  pub consumed : ℕ
  pub space : List ℕ

-- A pointer to a buffer, or a C string that is cast to one.
pub data Text : Type 0 where
  literal : List ℕ → Text
  buffer : SxeBuffer → Text

unfoldable pub buffer_construct : List ℕ → ℕ → ℕ → Option SxeBuffer
buffer_construct space length' size =
    if leb size (2 ^ 16 - 1) && (leb length' size && not (size == 0))
    then some (record {
      is_const = false;
      overflow = false;
      size = size;
      count = length';
      consumed = 0;
      space = space;
    })
    else none

unfoldable pub construct_const : List ℕ → ℕ → Option SxeBuffer
construct_const buf length' = elim (buffer_construct buf length' length') [
  | none ↦ none
  | some b ↦ some (record b { is_const = true })
]

unfoldable pub memcpy : SxeBuffer → List ℕ → ℕ → Option SxeBuffer
memcpy b data' length' =
    let room = b.size - b.count in
    let n = if ltb room length' then room else length' in
    if b.is_const
    then none
    else some (record b {
      overflow = b.overflow || ltb room length';
      space = copy_at b.space b.count (take n data');
      count = (b.count + n) % 2 ^ 16;
    })

unfoldable pub cat : SxeBuffer → Text → Option SxeBuffer
cat b (literal text) = memcpy b text (strlen text)
cat b (buffer ccat) = memcpy b ccat.space ccat.count

unfoldable pub clear : SxeBuffer → Option SxeBuffer
clear b =
    if b.is_const
    then none
    else some (record b { overflow = false; count = 0; space = set b.space 0 0 })

unfoldable pub consume : SxeBuffer → ℕ → Option SxeBuffer
consume b bytes =
    if leb bytes (b.count - b.consumed)
    then some (record b { consumed = b.consumed + bytes })
    else none

-- The bytes from the returned pointer on.
unfoldable pub get_data : Text → List ℕ
get_data (literal text) = text
get_data (buffer b) = drop b.consumed b.space

unfoldable pub get_room : Text → Option ℕ
get_room (literal text) = none
get_room (buffer b) = some (b.size - b.count)

-- The buffer after sxe_buffer_get_str; it returns the space.
unfoldable pub get_str : SxeBuffer → Option SxeBuffer
get_str b =
    let full = leb b.size b.count in
    let n = if full then b.size - 1 else b.count in
    if b.is_const
    then none
    else some (record b { count = n; overflow = b.overflow || full; space = set b.space n 0 })

unfoldable pub buffer_length : Text → ℕ
buffer_length (literal text) = strlen text
buffer_length (buffer b) = b.count - b.consumed

-- strchr(reject, c) != NULL: it finds the NUL as well.
unfoldable pub strchr_found : List ℕ → ℕ → Bool
strchr_found [] c = c == 0
strchr_found (r ∷ reject) c =
    let rest = strchr_found reject c in if r == c then true else if r == 0 then false else rest

-- The loop of sxe_buffer_cspn with `n` bytes left.
unfoldable pub cspn_loop : List ℕ → ℕ → List ℕ → ℕ
cspn_loop space zero reject = 0
cspn_loop [] (suc n) reject = 0
cspn_loop (c ∷ space) (suc n) reject =
    let rest = suc (cspn_loop space n reject) in if strchr_found reject c then 0 else rest

unfoldable pub cspn : SxeBuffer → ℕ → List ℕ → ℕ
cspn b start_at reject = cspn_loop (drop start_at b.space) (b.count - start_at) reject

pub record IsValid (b : SxeBuffer) : Type 0 where
  pub size_bound : b.size < 2 ^ 16
  pub count_bound : b.count ≤ b.size
  pub consumed_bound : b.consumed ≤ b.count
  pub space_length : length b.space ≡ b.size

-- What a buffer holds.
abbrev pub contents : SxeBuffer → List ℕ
contents b = take b.count b.space

take-copy_at :
    (space bytes : List ℕ) (at : ℕ)
    → at ≤ length space
    → take (at + length bytes) (copy_at space at bytes) ≡ take at space ++ bytes
unfolding copy_at
take-copy_at space [] zero h = refl
take-copy_at space (b ∷ bytes) zero h = rw (add_front (length bytes)) (ap (◌∷◌ b) (whole bytes _))
  where
    add_front : (n : ℕ) → 0 + suc n ≡ suc n
    add_front n = omega arith

    whole : (xs ys : List ℕ) → take (length xs) (xs ++ ys) ≡ xs
    whole [] ys = refl
    whole (x ∷ xs) ys = ap (◌∷◌ x) (whole xs ys)
take-copy_at [] bytes (suc at) h = absurd (omega (arith, h))
take-copy_at (c ∷ space) bytes (suc at) h =
    rw (shift_one (length bytes)) (ap (◌∷◌ c) (take-copy_at space bytes at (omega (arith, h))))
  where
    shift_one : (n : ℕ) → suc at + n ≡ suc (at + n)
    shift_one n = omega arith
