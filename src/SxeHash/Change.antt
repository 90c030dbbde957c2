-- ===== src/SxeHash/Change.antt =====
-- What the operations of lib-sxe-hash/sxe-hash.c do to the elements of each key.
use libsxe.Base.{
  ℕ, ◌≤◌, ◌<◌, ◌≡◌, ◌≢◌, inl, inr, refl, ap, sym, ◌∙◌, true, List, [], ◌∷◌, ◌++◌, ◌==◌,
  if◌then◌else◌, Bool-cases, take, arith, bytes_eq→eq, append-nil,
}
use libsxe.SxePool.{Pool, node_at, queue_of, list_remove}
use libsxe.SxePool.Queue.{occurs, list_remove_absent}
use libsxe.SxePool.Move.{IsMove}
use libsxe.SxeHash.{
  SxeHash, key_of, same_key, bucket_of, buckets_reserved, unused_bucket, new_bucket, hash_key,
}
use libsxe.SxeHash.Look.{matching, contents, IsTable, bucket_of_bound, bucket_of-take}

matching-append :
    (h : SxeHash) (key xs ys : List ℕ)
    → matching h key (xs ++ ys) ≡ matching h key xs ++ matching h key ys
matching-append h key [] ys = refl
matching-append h key (x ∷ xs) ys = ground (arith, matching-append h key xs ys)

occurs-matching :
    (h : SxeHash) (key : List ℕ) (id : ℕ) (xs : List ℕ)
    → occurs id xs ≡ 0
    → occurs id (matching h key xs) ≡ 0
unfolding occurs
occurs-matching h key id [] e = refl
occurs-matching h key id (x ∷ xs) e = ground (arith, occurs-matching h key id xs)

matching-list_remove :
    (h : SxeHash) (key : List ℕ) (id : ℕ) (xs : List ℕ)
    → occurs id xs ≤ 1
    → matching h key (list_remove xs id) ≡ list_remove (matching h key xs) id
unfolding occurs list_remove
matching-list_remove h key id [] e = refl
matching-list_remove h key id (x ∷ xs) e = ground (
  arith,
  matching-list_remove h key id xs,
  occurs-matching h key id xs,
  list_remove_absent id (matching h key xs),
)

-- The elements with a key are judged by their keys alone.
matching_same :
    (h h' : SxeHash) (key xs : List ℕ)
    → h.keys ≡ h'.keys
    → h.key_size ≡ h'.key_size
    → matching h key xs ≡ matching h' key xs
unfolding same_key
matching_same h h' key [] e f = refl
matching_same h h' key (x ∷ xs) e f = ground (arith, matching_same h h' key xs e f, e, f)

module _ (hash_sum : List ℕ → ℕ → ℕ)
    (sum_take : (key : List ℕ) (n : ℕ) → hash_sum (take n key) n ≡ hash_sum key n) where
  abbrev Table : SxeHash → Type 0
  Table = IsTable hash_sum sum_take

  -- The elements with a key, the oldest first.
  abbrev elements : SxeHash → List ℕ → List ℕ
  elements = contents hash_sum sum_take

  same_bucket :
      (h : SxeHash) (pool' : Pool) (key : List ℕ)
      → bucket_of hash_sum (record h { pool = pool' }) key ≡ bucket_of hash_sum h key
  unfolding bucket_of hash_key
  same_bucket h pool' key = refl

  -- A move of an element keeps the table, if the element's new state is 0, 1 or the bucket of its key.
  pub moved-Table :
      (h : SxeHash) (pool' : Pool) (id state : ℕ)
      → Table h
      → IsMove h.pool 0 id state pool'
      → (buckets_reserved ≤ state → state ≡ bucket_of hash_sum h (key_of h id))
      → Table (record h { pool = pool' })
  moved-Table h pool' id state t m b = record {
    valid = m.valid;
    states = m.same_states ∙ t.states;
    number = m.same_number ∙ t.number;
    count_pos = t.count_pos;
    count_bound = t.count_bound;
    untimed = m.same_options.1 ∙ t.untimed;
    prehashed = t.prehashed;
    keyed = λ i l r. elim (Bool-cases (i == id)) [
      | inl e ↦ ground (arith, m.node, b, e, same_bucket h pool' (key_of h i))
      | inr e ↦
          ground (arith, m.others i, t.keyed i, m.same_number, same_bucket h pool' (key_of h i))
    ];
  }

  -- A queue without the element that is moved stays, but for the tail that it gets there.
  queue_kept :
      (h : SxeHash) (pool' : Pool) (id new_state state : ℕ)
      → Table h
      → IsMove h.pool 0 id new_state pool'
      → state < h.pool.states
      → (node_at h.pool id).state ≢ state
      → queue_of pool' state
        ≡ (if state == new_state then queue_of h.pool state ++ id ∷ [] else queue_of h.pool state)
  queue_kept h pool' id new_state state t m b n = ground (
    arith,
    m.queues state b,
    list_remove_absent id (queue_of h.pool state),
    t.valid.placed state id b,
    n,
  )

  -- A move from outside the buckets to outside the buckets.
  pub same_elements :
      (h : SxeHash) (pool' : Pool) (id state : ℕ) (key : List ℕ)
      → Table h
      → IsMove h.pool 0 id state pool'
      → state < buckets_reserved
      → (node_at h.pool id).state < buckets_reserved
      → elements (record h { pool = pool' }) key ≡ elements h key
  same_elements h pool' id state key t m b c =
      let k = bucket_of_bound hash_sum sum_take h key t in
      rw
        (
          same_bucket h pool' key,
          queue_kept h pool' id state (bucket_of hash_sum h key) t m k.1
              (λ e. omega (arith, k, c, e)),
        )
        (ground (
          arith,
          k.0,
          b,
          matching_same (record h { pool = pool' }) h key
              (queue_of h.pool (bucket_of hash_sum h key)) refl refl,
        ))

  same_key-bucket :
      (h : SxeHash) (id : ℕ) (key : List ℕ)
      → Table h
      → same_key h id key ≡ true
      → bucket_of hash_sum h key ≡ bucket_of hash_sum h (key_of h id)
  unfolding same_key
  same_key-bucket h id key t e =
      sym (bucket_of-take hash_sum sum_take h key t.prehashed)
      ∙ ap (bucket_of hash_sum h)
          (sym (bytes_eq→eq (take h.key_size (key_of h id)) (take h.key_size key) e))
      ∙ bucket_of-take hash_sum sum_take h (key_of h id) t.prehashed

  -- A new element is added to the bucket of its key.
  pub added_elements :
      (h : SxeHash) (pool' : Pool) (id : ℕ)
      → Table h
      → IsMove h.pool 0 id (bucket_of hash_sum h (key_of h id)) pool'
      → (node_at h.pool id).state ≡ new_bucket
      → (key : List ℕ)
      → elements (record h { pool = pool' }) key
        ≡ (if same_key h id key then elements h key ++ id ∷ [] else elements h key)
  added_elements h pool' id t m n key =
      let k = bucket_of_bound hash_sum sum_take h key t in
      let q = queue_of h.pool (bucket_of hash_sum h key) in
      rw
        (
          same_bucket h pool' key,
          queue_kept h pool' id (bucket_of hash_sum h (key_of h id)) (bucket_of hash_sum h key) t m
              k.1 (λ e. omega (arith, k, n, e)),
        )
        (ground (
          arith,
          same_key-bucket h id key t,
          matching-append h key q (id ∷ []),
          append-nil (matching h key q),
          matching_same (record h { pool = pool' }) h key q refl refl,
          matching_same (record h { pool = pool' }) h key (q ++ id ∷ []) refl refl,
        ))

  -- An element is removed from its queue.
  pub given_elements :
      (h : SxeHash) (pool' : Pool) (id : ℕ)
      → Table h
      → IsMove h.pool 0 id unused_bucket pool'
      → (key : List ℕ) → elements (record h { pool = pool' }) key ≡ list_remove (elements h key) id
  given_elements h pool' id t m key =
      let k = bucket_of_bound hash_sum sum_take h key t in
      let q = queue_of h.pool (bucket_of hash_sum h key) in
      rw (same_bucket h pool' key, m.queues (bucket_of hash_sum h key) k.1)
        (ground (
          arith,
          k.0,
          matching-list_remove h key id q,
          t.valid.placed (bucket_of hash_sum h key) id k.1,
          matching_same (record h { pool = pool' }) h key (list_remove q id) refl refl,
        ))
