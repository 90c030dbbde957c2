-- ===== src/SxePool/Move.antt =====
-- A move of an element to the tail of another queue of lib-sxe-pool/sxe-pool.c, and the operations that
-- make one.
use libsxe.Base.{
  ℕ, ◌<◌, ◌≡◌, ◌≢◌, refl, ap, sym, ◌∙◌, Bool, true, false, List, [], ◌∷◌, ◌++◌, none, some, ◌==◌,
  ==_iff, if◌then◌else◌, Bool-cases, inl, inr, arith, length-set,
}
use libsxe.SxePool.{
  Pool, blank, node_at, queue_of, list_remove, stamp, enqueue, dequeue, set_state_unlocked,
  must_move, lock, set_indexed_element_state, try_to_set_indexed_element_state,
  set_oldest_element_state, touch_indexed_element, index_to_state, lock_taken, lock_not_taken,
  no_index, incorrect_state,
}
use libsxe.SxePool.Queue.{
  occurs, occurs-append, occurs_one, occurs-list_remove, IsValid, queue_after, list_remove_absent,
  get_or-set,
}

-- The pool after a move.
abbrev moved : Pool → ℕ → ℕ → ℕ → Pool
moved pool now id new_state = enqueue (dequeue pool id (node_at pool id).state) now id new_state

module _ (pool : Pool) (now id new_state : ℕ) (valid : IsValid pool) (listed : id < pool.number)
    (bound : new_state < pool.states) where
  old : ℕ
  old = (node_at pool id).state

  own_bound : old < pool.states
  unfolding old
  own_bound = valid.state_bound id listed

  removed_queue :
      (state : ℕ)
      → state < pool.states
      → queue_of (dequeue pool id old) state ≡ list_remove (queue_of pool state) id
  unfolding dequeue old
  removed_queue state h =
      get_or-set pool.queue old state _ [] (omega (arith, valid.queue_length, own_bound))
      ∙ elim (Bool-cases (state == old)) [
        | inl e ↦ rw (e, (==_iff state old).0 e) refl
        | inr e ↦ rw e (
            sym (
              list_remove_absent id (queue_of pool state)
                (ground (arith, valid.placed state id h))))
      ]

  queue_moved :
      (state : ℕ)
      → state < pool.states
      → queue_of (moved pool now id new_state) state ≡ queue_after pool id new_state state
  unfolding enqueue dequeue old
  queue_moved state h =
      get_or-set (dequeue pool id old).queue new_state state _ [] (
        omega (
          arith,
          valid.queue_length,
          length-set pool.queue old (list_remove (queue_of pool old) id),
        ))
      ∙ elim (Bool-cases (state == new_state)) [
        | inl e ↦
            rw (e, (==_iff state new_state).0 e)
              (ap (λ q. q ++ id ∷ []) (removed_queue new_state bound))
        | inr e ↦ rw e (removed_queue state h)
      ]

  node_moved :
      (i : ℕ)
      → node_at (moved pool now id new_state) i
        ≡ (if i == id then record { state = new_state; last = stamp pool now } else node_at pool i)
  unfolding enqueue dequeue stamp
  node_moved i = get_or-set pool.nodes id i _ blank (omega (arith, valid.nodes_length, listed))

  moved-IsValid : IsValid (moved pool now id new_state)
  unfolding enqueue dequeue
  moved-IsValid = record {
    nodes_length = length-set pool.nodes id _ ∙ valid.nodes_length;
    queue_length = length-set _ new_state _ ∙ length-set pool.queue _ _ ∙ valid.queue_length;
    state_bound = λ i h. ground (arith, node_moved i, bound, valid.state_bound i h);
    placed = λ state i h. rw (queue_moved state h) (
        ground (
          arith,
          node_moved i,
          occurs-append i (list_remove (queue_of pool state) id) (id ∷ []),
          occurs_one i id,
          occurs-list_remove i id (queue_of pool state),
          valid.placed state i h,
          listed,
        ));
  }

-- What a pool is after a move: valid, with the element at the tail of the queue of its new state and in
-- no other queue, with its new stamp, and with all other queues and elements as they were, and as many.
pub record IsMove (pool : Pool) (now id new_state : ℕ) (after : Pool) : Type 0 where
  pub valid : IsValid after
  pub queues :
      (state : ℕ) → state < pool.states → queue_of after state ≡ queue_after pool id new_state state
  pub node : node_at after id ≡ record { state = new_state; last = stamp pool now }
  pub others : (i : ℕ) → i ≢ id → node_at after i ≡ node_at pool i
  pub same_number : after.number ≡ pool.number
  pub same_states : after.states ≡ pool.states
  pub same_options : (after.locked ≡ pool.locked) × (after.timed ≡ pool.timed)

moved-IsMove :
    (pool : Pool) (now id new_state : ℕ)
    → IsValid pool
    → id < pool.number
    → new_state < pool.states
    → IsMove pool now id new_state (moved pool now id new_state)
unfolding enqueue dequeue
moved-IsMove pool now id new_state v l b = record {
  valid = moved-IsValid pool now id new_state v l b;
  queues = queue_moved pool now id new_state v l b;
  node = node_moved pool now id new_state v l b id ∙ ground arith;
  others = λ i n. node_moved pool now id new_state v l b i ∙ ground (arith, n);
  same_number = refl;
  same_states = refl;
  same_options = (refl, refl);
}

-- An element's own queue is not empty.
set_state_moves :
    (pool : Pool) (now id new_state : ℕ) (abort : Bool)
    → IsValid pool
    → id < pool.number
    → set_state_unlocked pool now id (node_at pool id).state new_state abort
      ≡ some (moved pool now id new_state, true)
unfolding set_state_unlocked occurs
set_state_moves pool now id new_state abort v l =
    ground (arith, v.placed (node_at pool id).state id (v.state_bound id l))

set_state_stays :
    (pool : Pool) (now id old_state new_state : ℕ) (abort : Bool)
    → (node_at pool id).state ≢ old_state
    → set_state_unlocked pool now id old_state new_state abort
      ≡ (if abort then none else some (pool, false))
unfolding set_state_unlocked
set_state_stays pool now id old_state new_state abort n = ground (arith, n)

-- Where the lock is taken, sxe_pool_set_indexed_element_state moves a listed element that is in the
-- state it is said to be in, and reports the lock taken; it aborts where the element is in another
-- state. Without the lock it changes nothing.
pub set_indexed_element_state-IsMove :
    (pool : Pool) (now : ℕ) (taken : Bool) (id old_state new_state : ℕ)
    → IsValid pool
    → id < pool.number
    → new_state < pool.states
    → (lock pool taken ≡ true
        → (node_at pool id).state ≡ old_state
        → (after : Pool) × (set_indexed_element_state pool now taken id old_state new_state
            ≡ some (after, lock_taken))
          × IsMove pool now id new_state after)
      × (lock pool taken ≡ true
          → (node_at pool id).state ≢ old_state
          → set_indexed_element_state pool now taken id old_state new_state ≡ none)
      × (lock pool taken ≡ false
          → set_indexed_element_state pool now taken id old_state new_state
            ≡ some (pool, lock_not_taken))
unfolding set_indexed_element_state must_move
set_indexed_element_state-IsMove pool now taken id old_state new_state v l b = (
  (λ t e. (
    moved pool now id new_state,
    rw (t, ← e, set_state_moves pool now id new_state true v l) refl,
    moved-IsMove pool now id new_state v l b,
  )),
  (λ t n. rw (t, set_state_stays pool now id old_state new_state true n) refl),
  (λ t. ground (arith, t)),
)

-- Where the lock is taken, sxe_pool_try_to_set_indexed_element_state moves a listed element that is in
-- the state it is said to be in, and returns its index; for one in another state it returns
-- SXE_POOL_INCORRECT_STATE and that state, and changes nothing. Without the lock it changes nothing.
pub try_to_set_indexed_element_state-IsMove :
    (pool : Pool) (now : ℕ) (taken : Bool) (id old_state new_state : ℕ)
    → IsValid pool
    → id < pool.number
    → new_state < pool.states
    → (lock pool taken ≡ true
        → (node_at pool id).state ≡ old_state
        → (after : Pool) × (try_to_set_indexed_element_state pool now taken id old_state new_state
            ≡ some (after, id, new_state))
          × IsMove pool now id new_state after)
      × (lock pool taken ≡ true
          → (node_at pool id).state ≢ old_state
          → try_to_set_indexed_element_state pool now taken id old_state new_state
            ≡ some (pool, incorrect_state, (node_at pool id).state))
      × (lock pool taken ≡ false
          → try_to_set_indexed_element_state pool now taken id old_state new_state
            ≡ some (pool, lock_not_taken, new_state))
unfolding try_to_set_indexed_element_state index_to_state
try_to_set_indexed_element_state-IsMove pool now taken id old_state new_state v l b = (
  (λ t e. (
    moved pool now id new_state,
    rw (t, ← e, set_state_moves pool now id new_state false v l) refl,
    moved-IsMove pool now id new_state v l b,
  )),
  (λ t n. rw (t, set_state_stays pool now id old_state new_state false n) (ground (arith, l))),
  (λ t. ground (arith, t)),
)

-- The head of a queue is an element in that state.
pub head_state :
    (pool : Pool) (state i : ℕ) (is : List ℕ)
    → IsValid pool
    → state < pool.states
    → queue_of pool state ≡ i ∷ is
    → (i < pool.number) × ((node_at pool i).state ≡ state)
unfolding occurs
head_state pool state i is v h e = ground (arith, v.placed state i h, ap (occurs i) e)

-- Where the lock is taken, sxe_pool_set_oldest_element_state moves the head of a state's queue to the
-- tail of another and returns its index, or returns SXE_POOL_NO_INDEX and changes nothing where there is
-- none. Without the lock it changes nothing and returns SXE_POOL_LOCK_NOT_TAKEN.
pub set_oldest_element_state-IsMove :
    (pool : Pool) (now : ℕ) (taken : Bool) (old_state new_state : ℕ)
    → IsValid pool
    → old_state < pool.states
    → new_state < pool.states
    → (lock pool taken ≡ true
        → queue_of pool old_state ≡ []
        → set_oldest_element_state pool now taken old_state new_state ≡ some (pool, no_index))
      × (lock pool taken ≡ true
          → (i : ℕ) (is : List ℕ) → queue_of pool old_state ≡ i ∷ is
          → (after : Pool) × (set_oldest_element_state pool now taken old_state new_state
              ≡ some (after, i))
            × IsMove pool now i new_state after)
      × (lock pool taken ≡ false
          → set_oldest_element_state pool now taken old_state new_state
            ≡ some (pool, lock_not_taken))
unfolding set_oldest_element_state must_move
set_oldest_element_state-IsMove pool now taken old_state new_state v o b = (
  (λ t e. rw (t, e) refl),
  (λ t i is e.
      let h = head_state pool old_state i is v o e in
      (
        moved pool now i new_state,
        rw (t, e, ← h.1, set_state_moves pool now i new_state true v h.0) refl,
        moved-IsMove pool now i new_state v h.0 b,
      )),
  (λ t. rw t refl),
)

-- Where the lock is taken, sxe_pool_touch_indexed_element moves an element to the tail of the queue that
-- it is in. Without the lock it changes nothing.
pub touch_indexed_element-IsMove :
    (pool : Pool) (now : ℕ) (taken : Bool) (id : ℕ)
    → IsValid pool
    → id < pool.number
    → (lock pool taken ≡ true
        → (after : Pool) × (touch_indexed_element pool now taken id ≡ some (after, lock_taken))
          × IsMove pool now id (node_at pool id).state after)
      × (lock pool taken ≡ false
          → touch_indexed_element pool now taken id ≡ some (pool, lock_not_taken))
unfolding touch_indexed_element must_move
touch_indexed_element-IsMove pool now taken id v l = (
  (λ t. (
    moved pool now id (node_at pool id).state,
    rw (t, set_state_moves pool now id (node_at pool id).state true v l) refl,
    moved-IsMove pool now id (node_at pool id).state v l (v.state_bound id l),
  )),
  (λ t. rw t refl),
)
