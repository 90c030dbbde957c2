-- ===== src/Jitson/Access.antt =====
-- Elements and members of lib-sxe-jitson/sxe-jitson.c, with the index that is made at the first access. An
-- access through a reference is one to what it refers to.
pub mod Sizes
pub mod Elements
pub mod Buckets
pub mod Members
pub mod Texts
use libsxe.Base.{
  ℕ, zero, suc, ◌+◌, ◌*◌, ◌%◌, Bool, true, false, ◌&&◌, List, [], ◌∷◌, ◌++◌, Option, none, some,
  ◌==◌, leb, if◌then◌else◌, length, get_or, set, take, replicate, bytes_eq, strlen,
}
use libsxe.Jitson.{Token, raw, string_len, token_size, bytes_of}

-- The tokens of an array or an object from its own token on, and its index: the offsets of the elements, or the
-- offsets of the names in each bucket. A name is linked from one place, so a bucket is a list.
pub record Array : Type 0 where
  pub tokens : List Token
  pub offsets : Option (List ℕ)

pub record Object : Type 0 where
  pub tokens : List Token
  pub buckets : Option (List (List ℕ))

-- The number of elements or members.
unfoldable pub token_len : Token → ℕ
token_len (Token.array len size) = len
token_len (Token.object len size) = len
token_len other = 0

-- What an access returns: an offset and the collection with its index, ERANGE or ENOKEY, or ENOMEM;
-- `wrong_type` is a failed assertion.
pub data Access (C : Type 0) : Type 0 where
  at_offset : ℕ → C → Access C
  missing : C → Access C
  no_memory : Access C
  wrong_type : Access C

unfoldable pub is_array : Token → Bool
is_array (Token.array len size) = true
is_array other = false

unfoldable pub is_object : Token → Bool
is_object (Token.object len size) = true
is_object other = false

abbrev pub at_token : List Token → ℕ → Token
at_token tokens i = get_or tokens i raw

-- The offset behind the value that starts at an offset.
abbrev pub skip : List Token → ℕ → ℕ
skip tokens offset = offset + token_size (at_token tokens offset)

-- The loop that makes the index of an array.
unfoldable pub element_offsets : List Token → ℕ → ℕ → List ℕ
element_offsets tokens zero offset = []
element_offsets tokens (suc n) offset = offset ∷ element_offsets tokens n (skip tokens offset)

unfoldable pub offset_in : ℕ → Option (List ℕ) → ℕ
offset_in idx none = 0
offset_in idx (some offsets) = get_or offsets idx 0

unfoldable pub element_at : ℕ → Option Array → Access Array
element_at idx none = no_memory
element_at idx (some c) = at_offset (offset_in idx c.offsets) c

-- `none` is an index that cannot be allocated. The size that is stored behind an index stays in the token here.
module _ (can_allocate : ℕ → Bool) where
  unfoldable pub indexed_array : Array → Option (List ℕ) → Option Array
  indexed_array c (some offsets) = some c
  indexed_array c none =
      let len = token_len (at_token c.tokens 0) in
      if can_allocate ((len + 1) * 4)
      then some (record c { offsets = some (element_offsets c.tokens len 1) })
      else none

  -- sxe_jitson_array_get_element
  unfoldable pub get_element : Array → ℕ → Access Array
  get_element c idx =
      if is_array (at_token c.tokens 0)
      then if leb (token_len (at_token c.tokens 0)) idx
        then missing c
        else element_at idx (indexed_array c c.offsets)
      else wrong_type

-- The length of a name as it is indexed, and as it is compared.
unfoldable pub indexed_len : Token → ℕ
indexed_len (Token.string_ref key bytes) = strlen bytes
indexed_len other = length (bytes_of other)

unfoldable pub name_len : Token → ℕ
name_len (Token.string key bytes) = string_len key bytes
name_len (Token.string_ref key bytes) = string_len key bytes
name_len other = 0

-- The loop that makes the index of an object with `len` buckets; `sum` is sxe_hash_sum.
unfoldable pub member_buckets :
    (List ℕ → ℕ) → List Token → ℕ → ℕ → ℕ → List (List ℕ) → List (List ℕ)
member_buckets sum tokens len zero offset buckets = buckets
member_buckets sum tokens len (suc n) offset buckets =
    let name = at_token tokens offset in
    let b = sum (take (indexed_len name) (bytes_of name)) % len in
    member_buckets sum tokens len n (skip tokens (skip tokens offset))
      (set buckets b (offset ∷ get_or buckets b []))

-- The loop over a bucket: the offset of the value behind the name.
unfoldable pub find_name : List Token → List ℕ → List ℕ → Option ℕ
find_name tokens name [] = none
find_name tokens name (i ∷ is) =
    let t = at_token tokens i in
    let rest = find_name tokens name is in
    if name_len t == length name && bytes_eq (take (name_len t) (bytes_of t)) name
    then some (skip tokens i)
    else rest

unfoldable pub bucket_in : ℕ → Option (List (List ℕ)) → List ℕ
bucket_in b none = []
bucket_in b (some buckets) = get_or buckets b []

unfoldable pub found_at : Object → Option ℕ → Access Object
found_at c none = missing c
found_at c (some offset) = at_offset offset c

module _ (can_allocate : ℕ → Bool) (sum : List ℕ → ℕ) where
  unfoldable pub indexed_object : Object → Option (List (List ℕ)) → Option Object
  indexed_object c (some buckets) = some c
  indexed_object c none =
      let len = token_len (at_token c.tokens 0) in
      if can_allocate ((len + 1) * 4)
      then some
          (record c { buckets = some (member_buckets sum c.tokens len len 1 (replicate len [])) })
      else none

  unfoldable pub member_at : List ℕ → Option Object → Access Object
  member_at name none = no_memory
  member_at name (some c) =
      found_at c
        (find_name c.tokens name (bucket_in (sum name % token_len (at_token c.tokens 0)) c.buckets))

  -- sxe_jitson_object_get_member with the bytes of the name.
  unfoldable pub get_member : Object → List ℕ → Access Object
  get_member c name =
      if is_object (at_token c.tokens 0)
      then if token_len (at_token c.tokens 0) == 0
        then missing c
        else member_at name (indexed_object c c.buckets)
      else wrong_type
