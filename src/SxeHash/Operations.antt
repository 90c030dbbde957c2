-- ===== src/SxeHash/Operations.antt =====
-- sxe_hash_take, sxe_hash_add and sxe_hash_give of lib-sxe-hash/sxe-hash.c as operations on the lists of
-- elements that the keys have in the table.
use libsxe.Base.{
  ℕ, ◌<◌, ◌≡◌, refl, ap, ◌∙◌, Bool, true, List, [], ◌∷◌, ◌++◌, some, if◌then◌else◌, take, arith,
}
use libsxe.SxePool.{
  Pool, PoolNode, lock, no_index, node_at, queue_of, list_remove, set_indexed_element_state,
  set_oldest_element_state, index_to_state,
}
use libsxe.SxePool.Move.{
  IsMove, set_indexed_element_state-IsMove, set_oldest_element_state-IsMove, head_state,
}
use libsxe.SxeHash.{
  SxeHash, full, key_of, same_key, bucket_of, unused_bucket, new_bucket, with_pool, take_result,
  hash_take, give, add,
}
use libsxe.SxeHash.Change.{moved-Table, same_elements, added_elements, given_elements}
use libsxe.SxeHash.Look.{contents, IsTable, bucket_of_bound}

give_listed :
    (h : SxeHash) (taken : Bool) (id : ℕ)
    → id < h.pool.number
    → give h taken id
      ≡ with_pool h
          (set_indexed_element_state h.pool 0 taken id (node_at h.pool id).state unused_bucket)
unfolding give index_to_state
give_listed h taken id b = ground arith

module _ (hash_sum : List ℕ → ℕ → ℕ)
    (sum_take : (key : List ℕ) (n : ℕ) → hash_sum (take n key) n ≡ hash_sum key n) where
  -- With the lock taken, sxe_hash_take makes the oldest free element new and returns it, or returns
  -- SXE_HASH_FULL where there is none; what each key has in the table stays.
  pub take-contents :
      (h : SxeHash) (taken : Bool)
      → IsTable hash_sum sum_take h
      → lock h.pool taken ≡ true
      → (queue_of h.pool unused_bucket ≡ [] → hash_take h taken ≡ some (h, full))
        × ((id : ℕ) (is : List ℕ)
            → queue_of h.pool unused_bucket ≡ id ∷ is
            → (h' : SxeHash) × (hash_take h taken ≡ some (h', id))
              × IsTable hash_sum sum_take h'
              × ((node_at h'.pool id).state ≡ new_bucket)
              × (h' ≡ record h { pool = h'.pool })
              × (h'.pool.locked ≡ h.pool.locked)
              × ((key : List ℕ)
                  → contents hash_sum sum_take h' key ≡ contents hash_sum sum_take h key))
  unfolding hash_take take_result
  take-contents h taken t l = (
    (λ e. ap (take_result h) (moves.0 e)),
    (λ id is e.
        let s = head_state h.pool unused_bucket id is t.valid (omega (arith, t.states)) e in
        let (pool', r, m) = moves.1 id is e in
        (
          record h { pool = pool' },
          ap (take_result h) r ∙ ground (arith, s.0, t.number, t.count_bound),
          moved-Table hash_sum sum_take h pool' id new_bucket t m (λ b. absurd (omega (arith, b))),
          ap (λ (n : PoolNode). n.state) m.node,
          refl,
          m.same_options.0,
          (λ key.
              same_elements hash_sum sum_take h pool' id new_bucket key t m (omega arith)
                (omega (arith, s.1))),
        )),
  )
    where
      moves :
          (queue_of h.pool unused_bucket ≡ []
            → set_oldest_element_state h.pool 0 taken unused_bucket new_bucket
              ≡ some (h.pool, no_index))
          × ((i : ℕ) (is : List ℕ)
              → queue_of h.pool unused_bucket ≡ i ∷ is
              → (after : Pool) × (set_oldest_element_state h.pool 0 taken unused_bucket new_bucket
                  ≡ some (after, i))
                × IsMove h.pool 0 i new_bucket after)
      moves =
          let m =
            set_oldest_element_state-IsMove h.pool 0 taken unused_bucket new_bucket t.valid
              (omega (arith, t.states)) (omega (arith, t.states, t.count_pos)) in
          (m.0 l, m.1 l)

  -- With the lock taken, sxe_hash_add puts a new element into the table: it becomes the last of the
  -- elements with its key, and what other keys have stays.
  pub add-contents :
      (h : SxeHash) (taken : Bool) (id : ℕ)
      → IsTable hash_sum sum_take h
      → lock h.pool taken ≡ true
      → id < h.pool.number
      → (node_at h.pool id).state ≡ new_bucket
      → (h' : SxeHash) × (add hash_sum h taken id ≡ some h')
        × IsTable hash_sum sum_take h'
        × (h' ≡ record h { pool = h'.pool })
        × (h'.pool.locked ≡ h.pool.locked)
        × ((key : List ℕ)
            → contents hash_sum sum_take h' key ≡ (
                if same_key h id key
                then contents hash_sum sum_take h key ++ id ∷ []
                else contents hash_sum sum_take h key))
  unfolding add with_pool
  add-contents h taken id t l b n =
      let k = bucket_of_bound hash_sum sum_take h (key_of h id) t in
      let (pool', r, m) =
        (set_indexed_element_state-IsMove h.pool 0 taken id new_bucket
            (bucket_of hash_sum h (key_of h id)) t.valid b k.1).0
          l n in
      (
        record h { pool = pool' },
        ap (with_pool h) r,
        moved-Table hash_sum sum_take h pool' id (bucket_of hash_sum h (key_of h id)) t m
            (λ c. refl),
        refl,
        m.same_options.0,
        added_elements hash_sum sum_take h pool' id t m n,
      )

  -- With the lock taken, sxe_hash_give frees a listed element: it is removed from the elements with each
  -- key, and what is left keeps its order.
  pub give-contents :
      (h : SxeHash) (taken : Bool) (id : ℕ)
      → IsTable hash_sum sum_take h
      → lock h.pool taken ≡ true
      → id < h.pool.number
      → (h' : SxeHash) × (give h taken id ≡ some h')
        × IsTable hash_sum sum_take h'
        × ((node_at h'.pool id).state ≡ unused_bucket)
        × (h' ≡ record h { pool = h'.pool })
        × (h'.pool.locked ≡ h.pool.locked)
        × ((key : List ℕ)
            → contents hash_sum sum_take h' key ≡ list_remove (contents hash_sum sum_take h key) id)
  unfolding with_pool
  give-contents h taken id t l b =
      let (pool', r, m) =
        (set_indexed_element_state-IsMove h.pool 0 taken id (node_at h.pool id).state unused_bucket
            t.valid b (omega (arith, t.states))).0
          l refl in
      (
        record h { pool = pool' },
        give_listed h taken id b ∙ ap (with_pool h) r,
        moved-Table hash_sum sum_take h pool' id unused_bucket t m (λ c. absurd (omega (arith, c))),
        ap (λ (n : PoolNode). n.state) m.node,
        refl,
        m.same_options.0,
        given_elements hash_sum sum_take h pool' id t m,
      )
