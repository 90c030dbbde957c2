-- ===== src/SxeHash/Classic.antt =====
-- lib-sxe-hash/sxe-hash-classic.c: setting and getting a value by a SHA1 in hexadecimal.
pub mod Written
use libsxe.Base.{
  ℕ, zero, suc, ◌+◌, ◌-◌, ◌%◌, ◌^◌, ◌≤◌, ◌<◌, ◌≡◌, ◌≢◌, ◌⊎◌, inl, inr, refl, ap, sym, ◌∙◌, Bool,
  true, false, List, [], ◌∷◌, ◌++◌, Option, none, some, ◌==◌, ==_iff, ltb, if◌then◌else◌,
  Bool-cases, length, get_or, set, take, drop, arith, bytes_eq, bytes_eq_refl, get_or-set_self,
  get_or-set_ne, take_all,
}
use libsxe.SxePool.{Pool, lock, node_at, queue_of}
use libsxe.SxePool.Queue.{IsValid, occurs, place}
use libsxe.SxePool.Move.{head_state}
use libsxe.SxeHash.{
  SxeHash, key_not_found, full, key_of, same_key, bucket_of, buckets_reserved, unused_bucket,
  new_bucket, hash_take, add, hash_key, write_key, write_value, hash_set, set_taken, added_result,
  get, get_at, value_of, value_at, look, sha1_in_hex_length,
}
use libsxe.SxeHash.Look.{matching, first_or_none, contents, IsTable, bucket_of_bound, look-contents}
use libsxe.SxeHash.Operations.{take-contents, add-contents}
use libsxe.Util.Hex.{hex_to_bytes}
use libsxe.SxeHash.Classic.Written.{
  written, same_key-written_self, written-Table, elements-written, occurs-matching_le,
}

module _ (hash_sum : List ℕ → ℕ → ℕ)
    (sum_take : (key : List ℕ) (n : ℕ) → hash_sum (take n key) n ≡ hash_sum key n) where
  -- sxe_hash_set behind a take that gave an element, with a valid SHA1.
  set_taken_lem :
      (h : SxeHash) (taken : Bool) (sha1_as_char bytes : List ℕ) (value id : ℕ)
      → hex_to_bytes sha1_as_char sha1_in_hex_length ≡ (true, bytes)
      → id < 2 ^ 32 - 1
      → set_taken hash_sum taken sha1_as_char value (some (h, id))
        ≡ added_result id (add hash_sum (written h id bytes value) taken id)
  unfolding set_taken
  set_taken_lem h taken sha1_as_char bytes value id e b = rw e (ground arith)

  get_lem :
      (h : SxeHash) (taken : Bool) (sha1_as_char bytes : List ℕ)
      → IsTable hash_sum sum_take h
      → lock h.pool taken ≡ true
      → hex_to_bytes sha1_as_char sha1_in_hex_length ≡ (true, bytes)
      → get hash_sum h taken sha1_as_char
        ≡ value_of (value_at h (some (first_or_none (contents hash_sum sum_take h bytes))))
  unfolding get get_at
  get_lem h taken sha1_as_char bytes t l e =
      rw e (ap (λ o. value_of (value_at h o)) (look-contents hash_sum sum_take h taken bytes t l))

  -- The first element with a key is in a bucket.
  contents_bound :
      (h : SxeHash) (key : List ℕ) (i : ℕ) (rest : List ℕ)
      → IsTable hash_sum sum_take h
      → contents hash_sum sum_take h key ≡ i ∷ rest
      → (i < h.pool.number) × (buckets_reserved ≤ (node_at h.pool i).state)
  unfolding occurs
  contents_bound h key i rest t e =
      let k = bucket_of_bound hash_sum sum_take h key t in
      ground (
        arith,
        ap (occurs i) e,
        occurs-matching_le h key i (queue_of h.pool (bucket_of hash_sum h key)),
        t.valid.placed (bucket_of hash_sum h key) i k.1,
        k.0,
      )

  -- What is found where the first element is in the table.
  get_found :
      (h : SxeHash) (taken : Bool) (sha1_as_char bytes : List ℕ) (i : ℕ) (rest : List ℕ)
      → IsTable hash_sum sum_take h
      → lock h.pool taken ≡ true
      → hex_to_bytes sha1_as_char sha1_in_hex_length ≡ (true, bytes)
      → contents hash_sum sum_take h bytes ≡ i ∷ rest
      → i < 2 ^ 32 - 1
      → get hash_sum h taken sha1_as_char ≡ some (get_or h.values i 0)
  unfolding value_of value_at
  get_found h taken sha1_as_char bytes i rest t l e c b =
      get_lem h taken sha1_as_char bytes t l e
      ∙ ap (λ o. value_of (value_at h (some (first_or_none o)))) c
      ∙ ground arith

  -- The set and the get for an element that is taken.
  set_from :
      (h : SxeHash) (taken : Bool) (sha1_as_char bytes : List ℕ) (value id : ℕ)
      → IsTable hash_sum sum_take h
      → lock h.pool taken ≡ true
      → hex_to_bytes sha1_as_char sha1_in_hex_length ≡ (true, bytes)
      → length bytes ≡ h.key_size
      → length h.keys ≡ h.count
      → length h.values ≡ h.count
      → id < h.pool.number
      → (node_at h.pool id).state ≡ new_bucket
      → (h' : SxeHash) × (set_taken hash_sum taken sha1_as_char value (some (h, id))
          ≡ some (h', id))
        × IsTable hash_sum sum_take h'
        × (contents hash_sum sum_take h bytes ≡ []
            → get hash_sum h' taken sha1_as_char ≡ some value)
        × ((i : ℕ) (rest : List ℕ)
            → contents hash_sum sum_take h bytes ≡ i ∷ rest
            → get hash_sum h' taken sha1_as_char ≡ some (get_or h.values i 0))
  unfolding added_result lock write_value write_key
  set_from h taken sha1_as_char bytes value id t l e k m n b s =
      let (h', r, t', s', l', c) =
        add-contents hash_sum sum_take (written h id bytes value) taken id
          (written-Table hash_sum sum_take h id bytes value t s) l b s in
      let found : contents hash_sum sum_take h' bytes
          ≡ contents hash_sum sum_take h bytes ++ id ∷ [] =
        c bytes
        ∙ ground (
          arith,
          same_key-written_self h id bytes value (omega (arith, b, m, t.number)) k,
          elements-written hash_sum sum_take h id bytes bytes value t s,
        ) in
      let locked : lock h'.pool taken ≡ true = ground (arith, l, l') in
      (
        h',
        set_taken_lem h taken sha1_as_char bytes value id e
              (omega (arith, b, t.number, t.count_bound))
            ∙ ap (added_result id) r,
        t',
        (λ o.
            get_found h' taken sha1_as_char bytes id [] t' locked e
              (found ∙ ap (λ xs. xs ++ id ∷ []) o) (omega (arith, b, t.number, t.count_bound))
            ∙ ap (λ (x : SxeHash). some (get_or x.values id 0)) s'
            ∙ ap some (get_or-set_self h.values id value 0 (omega (arith, b, n, t.number)))),
        (λ i rest o.
            let w = contents_bound h bytes i rest t o in
            get_found h' taken sha1_as_char bytes i (rest ++ id ∷ []) t' locked e
              (found ∙ ap (λ xs. xs ++ id ∷ []) o) (omega (arith, w.0, t.number, t.count_bound))
            ∙ ap (λ (x : SxeHash). some (get_or x.values i 0)) s'
            ∙ ap some (get_or-set_ne h.values id i value 0 (λ d. ground (arith, d, w.1, s)))),
      )

  -- With the lock taken and an element free, sxe_hash_set of a valid SHA1 takes the oldest free
  -- element, and sxe_hash_get then finds the value, if the SHA1 had none; if it had a value, the
  -- value that was found before is still found.
  pub get-hash_set :
      (h : SxeHash) (taken : Bool) (sha1_as_char bytes : List ℕ) (value id : ℕ) (is : List ℕ)
      → IsTable hash_sum sum_take h
      → lock h.pool taken ≡ true
      → hex_to_bytes sha1_as_char sha1_in_hex_length ≡ (true, bytes)
      → length bytes ≡ h.key_size
      → length h.keys ≡ h.count
      → length h.values ≡ h.count
      → queue_of h.pool unused_bucket ≡ id ∷ is
      → (h' : SxeHash) × (hash_set hash_sum h taken sha1_as_char value ≡ some (h', id))
        × IsTable hash_sum sum_take h'
        × (contents hash_sum sum_take h bytes ≡ []
            → get hash_sum h' taken sha1_as_char ≡ some value)
        × ((i : ℕ) (rest : List ℕ)
            → contents hash_sum sum_take h bytes ≡ i ∷ rest
            → get hash_sum h' taken sha1_as_char ≡ some (get_or h.values i 0))
  unfolding hash_set lock
  get-hash_set h taken sha1_as_char bytes value id is t l e k m n q =
      let (h1, r1, t1, n1, s1, l1, c1) = (take-contents hash_sum sum_take h taken t l).1 id is q in
      let first = head_state h.pool unused_bucket id is t.valid (omega (arith, t.states)) q in
      let same_count : h1.count ≡ h.count = ap (λ (x : SxeHash). x.count) s1 in
      let (h', r, t', absent, present) =
        set_from h1 taken sha1_as_char bytes value id t1 (ground (arith, l, l1)) e
          (k ∙ ap (λ (x : SxeHash). x.key_size) (sym s1))
          (ap (λ (x : SxeHash). length x.keys) s1 ∙ omega (arith, m, same_count))
          (ap (λ (x : SxeHash). length x.values) s1 ∙ omega (arith, n, same_count))
          (omega (arith, first.0, t.number, t1.number, same_count)) n1 in
      (
        h',
        ap (set_taken hash_sum taken sha1_as_char value) r1 ∙ r,
        t',
        (λ o. absent (c1 bytes ∙ o)),
        (λ i rest o.
            present i rest (c1 bytes ∙ o) ∙ ap (λ (x : SxeHash). some (get_or x.values i 0)) s1),
      )
