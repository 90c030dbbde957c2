-- ===== src/SxeHash/New.antt =====
-- sxe_hash_new_plus of lib-sxe-hash/sxe-hash.c: an empty table, whatever the fresh memory holds.
use libsxe.Base.{ℕ, ◌+◌, ◌-◌, ◌^◌, ◌≤◌, ◌<◌, ◌≡◌, refl, ap, Bool, false, List, [], ◌∷◌, take, arith}
use libsxe.SxePool.{node_at, queue_of}
use libsxe.SxePool.Queue.{IsValid, occurs}
use libsxe.SxePool.Construct.{construct-IsValid, construct_sizes}
use libsxe.SxeHash.{SxeHash, new_plus, buckets_reserved, bucket_of}
use libsxe.SxeHash.Look.{matching, contents, IsTable, bucket_of_bound}

nil_of_occurs : (xs : List ℕ) → ((i : ℕ) → occurs i xs ≡ 0) → xs ≡ []
unfolding occurs
nil_of_occurs [] h = refl
nil_of_occurs (x ∷ xs) h = absurd (ground (arith, h x))

module _ (hash_sum : List ℕ → ℕ → ℕ)
    (sum_take : (key : List ℕ) (n : ℕ) → hash_sum (take n key) n ≡ hash_sum key n)
    (keys : List (List ℕ)) (values : List ℕ) (element_count key_size : ℕ) (locked computed : Bool)
    (count_pos : 0 < element_count) (count_bound : element_count < 2 ^ 32 - 3)
    (prehashed : computed ≡ false → 4 ≤ key_size) where
  abbrev made : SxeHash
  made = new_plus keys values element_count key_size locked computed

  made_pool : IsValid made.pool × ((i : ℕ) → (node_at made.pool i).state ≡ 0)
  unfolding new_plus
  made_pool =
      construct-IsValid element_count (element_count + buckets_reserved) locked false 0
        (omega arith)

  made_sizes :
      (made.pool.number ≡ element_count)
      × (made.pool.states ≡ element_count + buckets_reserved)
      × (made.pool.timed ≡ false)
      × (made.pool.locked ≡ locked)
  unfolding new_plus
  made_sizes = construct_sizes element_count (element_count + buckets_reserved) locked false 0

  made-IsTable : IsTable hash_sum sum_take made
  unfolding new_plus
  made-IsTable = record {
    valid = made_pool.0;
    states = made_sizes.1;
    number = made_sizes.0;
    count_pos = count_pos;
    count_bound = count_bound;
    untimed = made_sizes.2;
    prehashed = prehashed;
    keyed = λ id l r. absurd (omega (arith, made_pool.1 id, r));
  }

  -- A hash with at least one element, and fewer than 2 ^ 32 - 3, and with keys of at least four bytes
  -- if they are not hashed, is a table in which no key has an element, whatever the memory held.
  pub new_plus-IsTable :
      IsTable hash_sum sum_take (new_plus keys values element_count key_size locked computed)
      × ((key : List ℕ)
          → contents hash_sum sum_take
              (new_plus keys values element_count key_size locked computed)
              key
            ≡ [])
  new_plus-IsTable = (
    made-IsTable,
    (λ key.
        let k = bucket_of_bound hash_sum sum_take made key made-IsTable in
        ap (matching made key) (
          nil_of_occurs (queue_of made.pool (bucket_of hash_sum made key)) (λ i.
            ground (
              arith,
              made_pool.0.placed (bucket_of hash_sum made key) i k.1,
              made_pool.1 i,
              k.0,
            )))),
  )
