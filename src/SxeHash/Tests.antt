-- ===== src/SxeHash/Tests.antt =====
-- A hash of two elements with prehashed keys of twenty bytes, over memory that held zeros.
use libsxe.Base.{
  ℕ, ◌<◌, ◌≡◌, refl, ap, true, false, List, [], ◌∷◌, ◌++◌, some, arith, length, replicate,
  if◌then◌else◌, get_or, take,
}
use libsxe.SxePool.{node_at, queue_of, list_remove, lock, construct, construct_loop, enqueue}
use libsxe.SxeHash.{
  SxeHash, new_plus, look, add, give, hash_take, hash_set, get, full, same_key, sha1_in_hex_length,
  unused_bucket, new_bucket,
}
use libsxe.SxeHash.Look.{contents, first_or_none, IsTable, look-contents}
use libsxe.SxeHash.Operations.{take-contents, add-contents, give-contents}
use libsxe.SxeHash.Classic.{get-hash_set}
use libsxe.SxeHash.New.{new_plus-IsTable}
use libsxe.Util.Hex.{hex_to_bytes, byte_of, nibble}

abbrev no_sum : List ℕ → ℕ → ℕ
no_sum key n = 0

no_sum_take : (key : List ℕ) (n : ℕ) → no_sum (take n key) n ≡ no_sum key n
no_sum_take key n = refl

abbrev fresh : List (List ℕ)
fresh = replicate 20 0 ∷ replicate 20 0 ∷ []

abbrev table : SxeHash
table = new_plus fresh (0 ∷ 0 ∷ []) 2 20 false false

table-IsTable : IsTable no_sum no_sum_take table
table-IsTable =
    (new_plus-IsTable no_sum no_sum_take fresh (0 ∷ 0 ∷ []) 2 20 false false (omega arith)
      (omega arith) (λ e. omega arith)).0

table_facts : (lock table.pool false ≡ true) × (queue_of table.pool unused_bucket ≡ 1 ∷ 0 ∷ [])
unfolding new_plus construct construct_loop enqueue lock
table_facts = (refl, refl)

table_sizes :
    (table.pool.number ≡ 2)
    × (table.count ≡ 2)
    × (length table.keys ≡ 2)
    × (length table.values ≡ 2)
    × (table.key_size ≡ 20)
unfolding new_plus construct construct_loop enqueue
table_sizes = (refl, refl, refl, refl, refl)

look-contents_example :
    look no_sum table false (replicate 20 7)
    ≡ some (first_or_none (contents no_sum no_sum_take table (replicate 20 7)))
look-contents_example =
    look-contents no_sum no_sum_take table false (replicate 20 7) table-IsTable table_facts.0

take-contents_example :
    (queue_of table.pool unused_bucket ≡ [] → hash_take table false ≡ some (table, full))
    × ((id : ℕ) (is : List ℕ)
        → queue_of table.pool unused_bucket ≡ id ∷ is
        → (h' : SxeHash) × (hash_take table false ≡ some (h', id))
          × IsTable no_sum no_sum_take h'
          × ((node_at h'.pool id).state ≡ new_bucket)
          × (h' ≡ record table { pool = h'.pool })
          × (h'.pool.locked ≡ table.pool.locked)
          × ((key : List ℕ)
              → contents no_sum no_sum_take h' key ≡ contents no_sum no_sum_take table key))
take-contents_example = take-contents no_sum no_sum_take table false table-IsTable table_facts.0

-- Element 1 is new.
with_new :
    (h : SxeHash) × IsTable no_sum no_sum_take h
    × (lock h.pool true ≡ true)
    × (1 < h.pool.number)
    × ((node_at h.pool 1).state ≡ new_bucket)
unfolding lock
with_new =
    let (h, r, t, n, s, l, c) =
      (take-contents no_sum no_sum_take table false table-IsTable table_facts.0).1 1 (0 ∷ [])
        table_facts.1 in
    (h, t, ground arith, omega (arith, t.number, ap (λ (x : SxeHash). x.count) s, table_sizes), n)

add-contents_example :
    (h' : SxeHash) × (add no_sum with_new.0 true 1 ≡ some h')
    × IsTable no_sum no_sum_take h'
    × (h' ≡ record with_new.0 { pool = h'.pool })
    × (h'.pool.locked ≡ with_new.0.pool.locked)
    × ((key : List ℕ)
        → contents no_sum no_sum_take h' key ≡ (
            if same_key with_new.0 1 key
            then contents no_sum no_sum_take with_new.0 key ++ 1 ∷ []
            else contents no_sum no_sum_take with_new.0 key))
add-contents_example =
    add-contents no_sum no_sum_take with_new.0 true 1 with_new.1 with_new.2 with_new.3 with_new.4

give-contents_example :
    (h' : SxeHash) × (give with_new.0 true 1 ≡ some h')
    × IsTable no_sum no_sum_take h'
    × ((node_at h'.pool 1).state ≡ unused_bucket)
    × (h' ≡ record with_new.0 { pool = h'.pool })
    × (h'.pool.locked ≡ with_new.0.pool.locked)
    × ((key : List ℕ)
        → contents no_sum no_sum_take h' key
          ≡ list_remove (contents no_sum no_sum_take with_new.0 key) 1)
give-contents_example =
    give-contents no_sum no_sum_take with_new.0 true 1 with_new.1 with_new.2 with_new.3

-- Forty digits
abbrev ones : List ℕ
ones = replicate 40 b'1'

ones_bytes : hex_to_bytes ones sha1_in_hex_length ≡ (true, replicate 20 0x11)
unfolding hex_to_bytes byte_of nibble
ones_bytes = refl

get-hash_set_example :
    (h' : SxeHash) × (hash_set no_sum table false ones 5 ≡ some (h', 1))
    × IsTable no_sum no_sum_take h'
    × (contents no_sum no_sum_take table (replicate 20 0x11) ≡ []
        → get no_sum h' false ones ≡ some 5)
    × ((i : ℕ) (rest : List ℕ)
        → contents no_sum no_sum_take table (replicate 20 0x11) ≡ i ∷ rest
        → get no_sum h' false ones ≡ some (get_or table.values i 0))
get-hash_set_example =
    get-hash_set no_sum no_sum_take table false ones (replicate 20 0x11) 5 1 (0 ∷ []) table-IsTable
      table_facts.0 ones_bytes (omega (arith, table_sizes)) (omega (arith, table_sizes))
      (omega (arith, table_sizes)) table_facts.1
