-- ===== src/SxeHash.antt =====
-- lib-sxe-hash/sxe-hash.c and sxe-hash-classic.c: a hash table in a pool. An element in state 0 is free,
-- one in state 1 is new, and the other states are the buckets. `none` is an abort, or a read behind the
-- array.
pub mod Look
pub mod Change
pub mod Operations
pub mod Classic
pub mod New
mod Tests
use libsxe.Base.{
  ℕ, zero, suc, ◌+◌, ◌-◌, ◌*◌, ◌%◌, ◌^◌, Bool, true, false, List, [], ◌∷◌, ◌++◌, Option, none, some,
  ◌==◌, ltb, if◌then◌else◌, length, get_or, set, take, drop, bytes_eq,
}
use libsxe.SxePool
use libsxe.SxePool.{Pool, no_index}
use libsxe.SxePool.Walker.{PoolWalker, pool_walker_construct, pool_walker_step}
use libsxe.Util.Hex.{hex_to_bytes}

abbrev pub unused_bucket : ℕ
unused_bucket = 0

abbrev pub new_bucket : ℕ
new_bucket = 1

abbrev pub buckets_reserved : ℕ
buckets_reserved = 2

-- SXE_HASH_KEY_NOT_FOUND and SXE_HASH_FULL are ~0U, as SXE_POOL_NO_INDEX is.
abbrev pub key_not_found : ℕ
key_not_found = no_index

abbrev pub full : ℕ
full = no_index

-- struct SXE_HASH with its array: the key's bytes and the value of each element. `computed` is the
-- option SXE_HASH_OPTION_COMPUTED_HASH, by which `hash_key` is chosen.
pub record SxeHash : Type 0 where
  pub pool : Pool
  pub count : ℕ
  pub key_size : ℕ
  pub computed : Bool
  pub keys : List (List ℕ)
  pub values : List ℕ

-- sxe_prehashed_key_hash: the first word of the key, on a little-endian machine.
unfoldable pub prehashed_key_hash : List ℕ → ℕ
prehashed_key_hash key =
    get_or key 0 0 + 2 ^ 8 * get_or key 1 0 + 2 ^ 16 * get_or key 2 0 + 2 ^ 24 * get_or key 3 0

abbrev pub key_of : SxeHash → ℕ → List ℕ
key_of h id = get_or h.keys id []

-- memcmp of an element's key with a key.
unfoldable pub same_key : SxeHash → ℕ → List ℕ → Bool
same_key h id key = bytes_eq (take h.key_size (key_of h id)) (take h.key_size key)

-- The fresh memory holds `keys` and `values`.
unfoldable pub new_plus : List (List ℕ) → List ℕ → ℕ → ℕ → Bool → Bool → SxeHash
new_plus keys values element_count key_size locked computed = record {
  pool = SxePool.construct element_count (element_count + buckets_reserved) locked false 0;
  count = element_count;
  key_size = key_size;
  computed = computed;
  keys = keys;
  values = values;
}

unfoldable pub reconstruct : SxeHash → SxeHash
reconstruct h = record h {
  pool = SxePool.construct h.count (h.count + buckets_reserved) h.pool.locked false 0;
}

-- The table behind a call of the pool whose result is not looked at.
unfoldable pub with_pool : SxeHash → Option (Pool × ℕ) → Option SxeHash
with_pool h none = none
with_pool h (some (pool', result)) = some (record h { pool = pool' })

unfoldable pub take_result : SxeHash → Option (Pool × ℕ) → Option (SxeHash × ℕ)
take_result h none = none
take_result h (some (pool', id)) =
    some (record h { pool = pool' }, if id == no_index then full else id)

-- A free element becomes a new one.
unfoldable pub hash_take : SxeHash → Bool → Option (SxeHash × ℕ)
hash_take h taken =
    take_result h (SxePool.set_oldest_element_state h.pool 0 taken unused_bucket new_bucket)

unfoldable pub give : SxeHash → Bool → ℕ → Option SxeHash
give h taken id = elim (SxePool.index_to_state h.pool id) [
  | none ↦ none
  | some state ↦
      with_pool h (SxePool.set_indexed_element_state h.pool 0 taken id state unused_bucket)
]

-- The caller's write of a key and a value into an element.
unfoldable pub write_key : SxeHash → ℕ → List ℕ → SxeHash
write_key h id bytes = record h {
  keys = set h.keys id (bytes ++ drop (length bytes) (key_of h id));
}

unfoldable pub write_value : SxeHash → ℕ → ℕ → SxeHash
write_value h id value = record h { values = set h.values id value }

-- SHA1_IN_HEX_LENGTH
abbrev pub sha1_in_hex_length : ℕ
sha1_in_hex_length = 40

unfoldable pub added_result : ℕ → Option SxeHash → Option (SxeHash × ℕ)
added_result id none = none
added_result id (some h) = some (h, id)

-- The value of an element that sxe_hash_look returned, with its index.
unfoldable pub value_at : SxeHash → Option ℕ → Option (ℕ × ℕ)
value_at h none = none
value_at h (some id) =
    some (if id == key_not_found then key_not_found else get_or h.values id 0, id)

unfoldable pub value_of : Option (ℕ × ℕ) → Option ℕ
value_of none = none
value_of (some (value, id)) = some value

unfoldable pub given_result : ℕ → Option SxeHash → Option (SxeHash × ℕ)
given_result value none = none
given_result value (some h) = some (h, value)

-- sxe_hash_remove behind its look.
unfoldable pub remove_found : SxeHash → Bool → Option (ℕ × ℕ) → Option (SxeHash × ℕ)
remove_found h taken none = none
remove_found h taken (some (value, id)) =
    if id == key_not_found then some (h, value) else given_result value (give h taken id)

-- sxe_hash_sum is a variable of the library's user, lookup3 by default.
module _ (hash_sum : List ℕ → ℕ → ℕ) where
  unfoldable pub hash_key : SxeHash → List ℕ → ℕ
  hash_key h key = if h.computed then hash_sum key h.key_size else prehashed_key_hash key

  unfoldable pub bucket_of : SxeHash → List ℕ → ℕ
  bucket_of h key = hash_key h key % h.count + buckets_reserved

  -- The loop of sxe_hash_look, with fuel.
  unfoldable pub look_loop : ℕ → SxeHash → Bool → List ℕ → PoolWalker → Option ℕ
  look_loop zero h taken key w = none
  look_loop (suc fuel) h taken key w =
      let (w', id) = pool_walker_step h.pool taken w in
      let rest = look_loop fuel h taken key w' in
      if id == key_not_found
      then some id
      else if ltb id h.pool.number
      then (if same_key h id key then some id else rest)
      else none

  -- A round for each element of the bucket, and one behind its end.
  unfoldable pub look : SxeHash → Bool → List ℕ → Option ℕ
  look h taken key = elim (pool_walker_construct h.pool (bucket_of h key)) [
    | none ↦ none
    | some w ↦ look_loop (SxePool.get_number_in_state h.pool (bucket_of h key) + 1) h taken key w
  ]

  -- sxe_hash_add: a lock that is not taken goes unnoticed.
  unfoldable pub add : SxeHash → Bool → ℕ → Option SxeHash
  add h taken id =
      with_pool h
        (SxePool.set_indexed_element_state h.pool 0 taken id new_bucket (bucket_of h (key_of h id)))

  -- sxe_hash_set behind its call of sxe_hash_take. The result of sha1_from_hex is not looked at.
  unfoldable pub set_taken : Bool → List ℕ → ℕ → Option (SxeHash × ℕ) → Option (SxeHash × ℕ)
  set_taken taken sha1_as_char value none = none
  set_taken taken sha1_as_char value (some (h, id)) =
      let bytes = (hex_to_bytes sha1_as_char sha1_in_hex_length).1 in
      if id == full
      then some (h, id)
      else added_result id (add (write_value (write_key h id bytes) id value) taken id)

  unfoldable pub hash_set : SxeHash → Bool → List ℕ → ℕ → Option (SxeHash × ℕ)
  hash_set h taken sha1_as_char value = set_taken taken sha1_as_char value (hash_take h taken)

  -- What sxe_hash_get and sxe_hash_remove find.
  unfoldable pub get_at : SxeHash → Bool → List ℕ → Option (ℕ × ℕ)
  get_at h taken sha1_as_char =
      let (ok, bytes) = hex_to_bytes sha1_as_char sha1_in_hex_length in
      if ok then value_at h (look h taken bytes) else some (key_not_found, key_not_found)

  unfoldable pub get : SxeHash → Bool → List ℕ → Option ℕ
  get h taken sha1_as_char = value_of (get_at h taken sha1_as_char)

  unfoldable pub hash_remove : SxeHash → Bool → List ℕ → Option (SxeHash × ℕ)
  hash_remove h taken sha1_as_char = remove_found h taken (get_at h taken sha1_as_char)
