-- ===== src/SxeHash/Look.antt =====
-- What sxe_hash_look of lib-sxe-hash/sxe-hash.c finds: the table as the list of elements of each key.
use libsxe.Base.{
  ℕ, zero, suc, ◌+◌, ◌-◌, ◌^◌, ◌≤◌, ◌<◌, ◌≡◌, inl, inr, refl, sym, ◌∙◌, Bool, true, false, List, [],
  ◌∷◌, ◌++◌, none, some, if◌then◌else◌, length, get_or, take, arith, append_assoc,
}
use native.Mathlib.Numerals.{add-one}
use libsxe.SxePool.{Pool, lock, node_at, queue_of, get_number_in_state}
use libsxe.SxePool.Queue.{IsValid}
use libsxe.SxePool.Walker.{PoolWalker, pool_walker_construct}
use libsxe.SxePool.Walk.{Ahead, step_none, step_some, stepped, stepped-Ahead, split_queue}
use libsxe.SxeHash.{
  SxeHash, key_not_found, key_of, same_key, prehashed_key_hash, hash_key, bucket_of, look_loop,
  look, buckets_reserved,
}

-- The elements of a list that have a key.
abbrev pub matching : SxeHash → List ℕ → List ℕ → List ℕ
matching h key [] = []
matching h key (i ∷ is) = if same_key h i key then i ∷ matching h key is else matching h key is

-- The first of them, or SXE_HASH_KEY_NOT_FOUND.
abbrev pub first_or_none : List ℕ → ℕ
first_or_none [] = key_not_found
first_or_none (i ∷ is) = i

get_or-take : (n i : ℕ) (xs : List ℕ) → i < n → get_or (take n xs) i 0 ≡ get_or xs i 0
get_or-take zero i xs h = absurd (omega (arith, h))
get_or-take (suc n) i [] h = refl
get_or-take (suc n) zero (x ∷ xs) h = refl
get_or-take (suc n) (suc i) (x ∷ xs) h = get_or-take n i xs (omega (arith, h))

new_walker :
    (pool : Pool) (state : ℕ)
    → pool.timed ≡ false
    → pool_walker_construct pool state
      ≡ some (record { back = none; node = none; state = state; last = 0 })
unfolding pool_walker_construct
new_walker pool state e = ground arith

-- The user's hash function reads as many bytes as it is told to.
module _ (hash_sum : List ℕ → ℕ → ℕ)
    (sum_take : (key : List ℕ) (n : ℕ) → hash_sum (take n key) n ≡ hash_sum key n) where
  -- The elements with a key, the oldest first.
  abbrev pub contents : SxeHash → List ℕ → List ℕ
  contents h key = matching h key (queue_of h.pool (bucket_of hash_sum h key))

  -- The pool is valid and has a state for each bucket, and an element in a bucket is in that of its
  -- key. The counts are unsigned, and their last values are the special results.
  pub record IsTable (h : SxeHash) : Type 0 where
    pub valid : IsValid h.pool
    pub states : h.pool.states ≡ h.count + buckets_reserved
    pub number : h.pool.number ≡ h.count
    pub count_pos : 0 < h.count
    pub count_bound : h.count < 2 ^ 32 - 3
    pub untimed : h.pool.timed ≡ false
    pub prehashed : h.computed ≡ false → 4 ≤ h.key_size
    pub keyed :
        (id : ℕ)
        → id < h.pool.number
        → buckets_reserved ≤ (node_at h.pool id).state
        → (node_at h.pool id).state ≡ bucket_of hash_sum h (key_of h id)

  -- Only the first bytes of a key count.
  pub bucket_of-take :
      (h : SxeHash) (key : List ℕ)
      → (h.computed ≡ false → 4 ≤ h.key_size)
      → bucket_of hash_sum h (take h.key_size key) ≡ bucket_of hash_sum h key
  unfolding bucket_of hash_key prehashed_key_hash
  bucket_of-take h key p = ground (
    arith,
    sum_take key h.key_size,
    get_or-take h.key_size 0 key,
    get_or-take h.key_size 1 key,
    get_or-take h.key_size 2 key,
    get_or-take h.key_size 3 key,
  )

  pub bucket_of_bound :
      (h : SxeHash) (key : List ℕ)
      → IsTable h
      → (buckets_reserved ≤ bucket_of hash_sum h key) × (bucket_of hash_sum h key < h.pool.states)
  unfolding bucket_of
  bucket_of_bound h key t = grind (arith, t.states, t.count_pos)

  look_loop_lem :
      (h : SxeHash) (taken : Bool) (key : List ℕ) (rest : List ℕ) (w : PoolWalker)
      → IsTable h
      → w.state < h.pool.states
      → lock h.pool taken ≡ true
      → Ahead h.pool w rest
      → look_loop hash_sum (suc (length rest)) h taken key w
        ≡ some (first_or_none (matching h key rest))
  unfolding look_loop
  look_loop_lem h taken key [] w t b l a = rw (step_none h.pool taken w t.valid b l a) refl
  look_loop_lem h taken key (i ∷ is) w t b l a = rw (step_some h.pool taken w i is t.valid b l a) (
      ground (
        arith,
        inside a,
        t.number,
        t.count_bound,
        look_loop_lem h taken key is (stepped h.pool w i) t b l (stepped-Ahead h.pool w i is a),
      ))
    where
      inside : Ahead h.pool w (i ∷ is) → i < h.pool.number
      inside (inl (n, r)) = (split_queue h.pool w.state i [] is t.valid b (sym r)).0
      inside (inr (j, pre, n, q)) =
          (split_queue h.pool w.state i (pre ++ j ∷ []) is t.valid b
            (q ∙ sym (append_assoc pre (j ∷ []) (i ∷ is)))).0

  -- With the lock taken, sxe_hash_look ends and returns the oldest element in the table with the key,
  -- or SXE_HASH_KEY_NOT_FOUND where there is none.
  pub look-contents :
      (h : SxeHash) (taken : Bool) (key : List ℕ)
      → IsTable h
      → lock h.pool taken ≡ true
      → look hash_sum h taken key ≡ some (first_or_none (contents h key))
  unfolding look get_number_in_state
  look-contents h taken key t l =
      rw (new_walker h.pool (bucket_of hash_sum h key) t.untimed, look)
        (rw add-one (
          look_loop_lem h taken key (queue_of h.pool (bucket_of hash_sum h key)) _ t
            (bucket_of_bound h key t).1 l (inl (refl, refl))))
