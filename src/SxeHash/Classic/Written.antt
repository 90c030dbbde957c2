-- ===== src/SxeHash/Classic/Written.antt =====
-- The writes of sxe_hash_set of lib-sxe-hash/sxe-hash-classic.c into a new element.
use libsxe.Base.{
  ℕ, ◌≤◌, ◌<◌, ◌≡◌, ◌≢◌, refl, ap, sym, ◌∙◌, true, List, [], ◌∷◌, ◌++◌, length, take, drop, arith,
  bytes_eq, bytes_eq_refl, get_or-set_self, get_or-set_ne, take_all, take-append,
}
use libsxe.SxePool.{node_at, queue_of}
use libsxe.SxePool.Queue.{occurs}
use libsxe.SxeHash.{
  SxeHash, key_of, same_key, bucket_of, new_bucket, hash_key, write_key, write_value,
}
use libsxe.SxeHash.Look.{matching, contents, IsTable, bucket_of_bound}

abbrev pub written : SxeHash → ℕ → List ℕ → ℕ → SxeHash
written h id bytes value = write_value (write_key h id bytes) id value

same_key-written :
    (h : SxeHash) (id i : ℕ) (bytes key : List ℕ) (value : ℕ)
    → i ≢ id
    → same_key (written h id bytes value) i key ≡ same_key h i key
unfolding same_key write_key write_value
same_key-written h id i bytes key value n =
    ap (λ k. bytes_eq (take h.key_size k) (take h.key_size key))
      (get_or-set_ne h.keys id i (bytes ++ drop (length bytes) (key_of h id)) [] (λ e. n (sym e)))

matching-written :
    (h : SxeHash) (id : ℕ) (bytes key : List ℕ) (value : ℕ) (xs : List ℕ)
    → occurs id xs ≡ 0
    → matching (written h id bytes value) key xs ≡ matching h key xs
unfolding occurs
matching-written h id bytes key value [] e = refl
matching-written h id bytes key value (x ∷ xs) e = ground (
  arith,
  same_key-written h id x bytes key value (λ k. ground (arith, e, k)),
  matching-written h id bytes key value xs,
)

pub occurs-matching_le :
    (h : SxeHash) (key : List ℕ) (i : ℕ) (xs : List ℕ) → occurs i (matching h key xs) ≤ occurs i xs
unfolding occurs
occurs-matching_le h key i [] = omega arith
occurs-matching_le h key i (x ∷ xs) = ground (arith, occurs-matching_le h key i xs)

-- An element has the key that is written into it.
pub same_key-written_self :
    (h : SxeHash) (id : ℕ) (bytes : List ℕ) (value : ℕ)
    → id < length h.keys
    → length bytes ≡ h.key_size
    → same_key (written h id bytes value) id bytes ≡ true
unfolding same_key write_key write_value
same_key-written_self h id bytes value b e =
    rw
      (
        get_or-set_self h.keys id (bytes ++ drop (length bytes) (key_of h id)) [] b,
        ← e,
        take-append bytes (drop (length bytes) (key_of h id)),
        take_all (length bytes) bytes (omega arith),
      )
      (bytes_eq_refl bytes)

module _ (hash_sum : List ℕ → ℕ → ℕ)
    (sum_take : (key : List ℕ) (n : ℕ) → hash_sum (take n key) n ≡ hash_sum key n) where
  pub written-Table :
      (h : SxeHash) (id : ℕ) (bytes : List ℕ) (value : ℕ)
      → IsTable hash_sum sum_take h
      → (node_at h.pool id).state ≡ new_bucket
      → IsTable hash_sum sum_take (written h id bytes value)
  unfolding write_key write_value bucket_of hash_key
  written-Table h id bytes value t n = record {
    valid = t.valid;
    states = t.states;
    number = t.number;
    count_pos = t.count_pos;
    count_bound = t.count_bound;
    untimed = t.untimed;
    prehashed = t.prehashed;
    keyed = λ i l r.
        t.keyed i l r
        ∙ ap (bucket_of hash_sum h)
            (sym (get_or-set_ne h.keys id i _ [] (λ e. ground (arith, e, n, r))));
  }

  -- A new element is in no bucket, so what is written into it changes no key's elements.
  pub elements-written :
      (h : SxeHash) (id : ℕ) (bytes key : List ℕ) (value : ℕ)
      → IsTable hash_sum sum_take h
      → (node_at h.pool id).state ≡ new_bucket
      → contents hash_sum sum_take (written h id bytes value) key ≡ contents hash_sum sum_take h key
  unfolding write_key write_value bucket_of hash_key
  elements-written h id bytes key value t n =
      let k = bucket_of_bound hash_sum sum_take h key t in
      matching-written h id bytes key value (queue_of h.pool (bucket_of hash_sum h key))
        (ground (arith, t.valid.placed (bucket_of hash_sum h key) id k.1, k.0, n))
