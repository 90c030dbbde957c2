-- ===== src/SxeCstr.antt =====
-- lib-sxe-cstr/sxe-cstr.c: counted strings. `none` is a failed assertion.
mod Tests
use libsxe.Base.{
  ℕ, zero, suc, ◌+◌, ◌-◌, ◌%◌, ◌^◌, Bool, true, false, ◌||◌, List, [], ◌∷◌, ◌++◌, Option, none,
  some, ◌==◌, ltb, leb, if◌then◌else◌, length, set, take, drop, strlen,
}

-- struct SXE_CSTR that is constructed: `literal` is 0 and its flags are not 0. `buf` holds the bytes from
-- its pointer on.
pub record Cstr : Type 0 where
  pub is_const : Bool
  pub overflow : Bool
  pub size : ℕ
  pub len : ℕ
  pub buf : List ℕ

-- A pointer to a counted string, or a C string that is cast to one.
pub data Source : Type 0 where
  literal : List ℕ → Source
  counted : Cstr → Source

unfoldable pub source_bytes : Source → List ℕ
source_bytes (literal text) = text
source_bytes (counted c) = c.buf

unfoldable pub cstr_length : Source → ℕ
cstr_length (literal text) = strlen text
cstr_length (counted c) = c.len

-- strncat of the C library at a place: at most `n` characters in front of the source's NUL go over the
-- NUL of the text there, with a NUL behind them, also where the memory ends.
unfoldable pub strncat_at : List ℕ → ℕ → List ℕ → ℕ → List ℕ
strncat_at memory at source n =
    let end = at + strlen (drop at memory) in
    let added = take (strlen (take n source)) source in
    take end memory ++ added ++ (0 ∷ drop (end + length added + 1) memory)

-- The `len` is an unsigned short.
unfoldable pub cstr_cat : Cstr → Source → Option Cstr
cstr_cat c ccat =
    let room = (c.size + 2 ^ 32 - c.len) % 2 ^ 32 in
    let len = (c.len + cstr_length ccat) % 2 ^ 16 in
    if c.is_const
    then none
    else some (record c {
      buf = strncat_at c.buf c.len (source_bytes ccat) room;
      overflow = c.overflow || ltb c.size len;
      len = if ltb c.size len then c.size else len;
    })

unfoldable pub cstr_clear : Cstr → Option Cstr
cstr_clear c =
    if c.is_const then none else some (record c { overflow = false; len = 0; buf = set c.buf 0 0 })

-- The string after sxe_cstr_get_str, which returns its buffer.
unfoldable pub cstr_get_str : Cstr → Option Cstr
cstr_get_str c =
    let full = leb c.size c.len in
    let n = if full then (c.size - 1) % 2 ^ 16 else c.len in
    if c.is_const
    then none
    else some (record c { len = n; overflow = c.overflow || full; buf = set c.buf n 0 })
