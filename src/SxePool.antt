-- ===== src/SxePool.antt =====
-- lib-sxe-pool/sxe-pool.c: an array of elements, each in a state, and a queue of indices for each state.
-- A queue is the list of the indices in it: SxeList shows that sxe-list keeps such a list.
pub mod Queue
pub mod Move
pub mod Age
pub mod Steps
pub mod Construct
pub mod New
pub mod Walker
pub mod Walk
mod Tests
use libsxe.Base.{
  ℕ, zero, suc, ◌+◌, ◌-◌, ◌%◌, ◌^◌, Bool, true, false, not, ◌||◌, List, [], ◌∷◌, ◌++◌, Option, none,
  some, ◌==◌, ltb, if◌then◌else◌, length, get_or, set, replicate,
}

-- struct SXE_POOL_NODE: `state` is the id of the list node, `last` the union of time and count.
pub record PoolNode : Type 0 where
  pub state : ℕ
  pub last : ℕ

-- struct SXE_POOL_IMPL; `locked` and `timed` are the bits of `options`.
pub record Pool : Type 0 where
  pub locked : Bool
  pub timed : Bool
  pub number : ℕ
  pub states : ℕ
  pub nodes : List PoolNode
  pub queue : List (List ℕ)
  pub next_count : ℕ

abbrev pub lock_taken : ℕ
lock_taken = 0

-- -1U, -2U and -3U
abbrev pub no_index : ℕ
no_index = 2 ^ 32 - 1

abbrev pub incorrect_state : ℕ
incorrect_state = 2 ^ 32 - 2

abbrev pub lock_not_taken : ℕ
lock_not_taken = 2 ^ 32 - 3

abbrev pub blank : PoolNode
blank = record { state = 0; last = 0 }

abbrev pub node_at : Pool → ℕ → PoolNode
node_at pool id = get_or pool.nodes id blank

abbrev pub queue_of : Pool → ℕ → List ℕ
queue_of pool state = get_or pool.queue state []

-- sxe_pool_lock; `taken` tells whether sxe_spinlock_take gets the lock.
unfoldable pub lock : Pool → Bool → Bool
lock pool taken = not pool.locked || taken

-- What a node gets as its `last`, where `now` is sxe_time_get(), and the counter after it.
unfoldable pub stamp : Pool → ℕ → ℕ
stamp pool now = if pool.timed then now else (pool.next_count + 1) % 2 ^ 64

unfoldable pub counter : Pool → ℕ
counter pool = if pool.timed then pool.next_count else (pool.next_count + 1) % 2 ^ 64

-- sxe_list_remove, seen as a list.
unfoldable pub list_remove : List ℕ → ℕ → List ℕ
list_remove [] id = []
list_remove (i ∷ is) id = if i == id then is else i ∷ list_remove is id

-- The node gets its `last` and goes to the tail of a queue, whose state it takes.
unfoldable pub enqueue : Pool → ℕ → ℕ → ℕ → Pool
enqueue pool now id state = record pool {
  nodes = set pool.nodes id (record { state = state; last = stamp pool now });
  queue = set pool.queue state (queue_of pool state ++ id ∷ []);
  next_count = counter pool;
}

-- The second loop of sxe_pool_construct.
unfoldable pub construct_loop : ℕ → Pool → ℕ → Pool
construct_loop zero pool now = pool
construct_loop (suc i) pool now = construct_loop i (enqueue pool now i 0) now

unfoldable pub construct : ℕ → ℕ → Bool → Bool → ℕ → Pool
construct number states locked timed now =
    construct_loop number
      (record {
        locked = locked;
        timed = timed;
        number = number;
        states = states;
        nodes = replicate number blank;
        queue = replicate states [];
        next_count = 0;
      })
      now

unfoldable pub dequeue : Pool → ℕ → ℕ → Pool
dequeue pool id state = record pool {
  queue = set pool.queue state (list_remove (queue_of pool state) id);
}

-- Whether the move is made; `none` is the abort. sxe_list_remove asserts that its list is not empty.
unfoldable pub set_state_unlocked : Pool → ℕ → ℕ → ℕ → ℕ → Bool → Option (Pool × Bool)
set_state_unlocked pool now id old_state new_state abort =
    if (node_at pool id).state == old_state
    then (elim (queue_of pool old_state) [
      | [] ↦ none
      | i ∷ is ↦ some (enqueue (dequeue pool id old_state) now id new_state, true)
    ])
    else if abort
    then none
    else some (pool, false)

-- SXEA1(..., "internal fatal error") around it.
unfoldable pub must_move : Option (Pool × Bool) → ℕ → Option (Pool × ℕ)
must_move none result = none
must_move (some (pool, success)) result = if success then some (pool, result) else none

unfoldable pub set_indexed_element_state : Pool → ℕ → Bool → ℕ → ℕ → ℕ → Option (Pool × ℕ)
set_indexed_element_state pool now taken id old_state new_state =
    if lock pool taken
    then must_move (set_state_unlocked pool now id old_state new_state true) lock_taken
    else some (pool, lock_not_taken)

-- sxe_pool_index_to_state
unfoldable pub index_to_state : Pool → ℕ → Option ℕ
index_to_state pool id = if ltb id pool.number then some (node_at pool id).state else none

-- The pool, the result and the new `*new_state_inout`.
unfoldable pub try_to_set_indexed_element_state :
    Pool → ℕ → Bool → ℕ → ℕ → ℕ → Option (Pool × ℕ × ℕ)
try_to_set_indexed_element_state pool now taken id old_state new_state =
    if lock pool taken
    then (elim (set_state_unlocked pool now id old_state new_state false) [
      | none ↦ none
      | some (pool', success) ↦
          if success then some (pool', id, new_state) else elim (index_to_state pool' id) [
            | none ↦ none
            | some state ↦ some (pool', incorrect_state, state)
          ]
    ])
    else some (pool, lock_not_taken, new_state)

unfoldable pub set_oldest_element_state : Pool → ℕ → Bool → ℕ → ℕ → Option (Pool × ℕ)
set_oldest_element_state pool now taken old_state new_state =
    if lock pool taken
    then (elim (queue_of pool old_state) [
      | [] ↦ some (pool, no_index)
      | i ∷ is ↦ must_move (set_state_unlocked pool now i old_state new_state true) i
    ])
    else some (pool, lock_not_taken)

unfoldable pub touch_indexed_element : Pool → ℕ → Bool → ℕ → Option (Pool × ℕ)
touch_indexed_element pool now taken id =
    if lock pool taken
    then must_move
        (set_state_unlocked pool now id (node_at pool id).state (node_at pool id).state true)
        lock_taken
    else some (pool, lock_not_taken)

unfoldable pub get_oldest_element_index : Pool → Bool → ℕ → ℕ
get_oldest_element_index pool taken state =
    if lock pool taken
    then (elim (queue_of pool state) [ [] ↦ no_index | i ∷ is ↦ i ])
    else no_index

unfoldable pub get_oldest_element_time_or_count : Pool → Bool → ℕ → ℕ
get_oldest_element_time_or_count pool taken state =
    if lock pool taken
    then (elim (queue_of pool state) [ [] ↦ 0 | i ∷ is ↦ (node_at pool i).last ])
    else 0

unfoldable pub get_number_in_state : Pool → ℕ → ℕ
get_number_in_state pool state = length (queue_of pool state)

-- sxe_pool_get_oldest_element_time and _count: each aborts for a pool of the other kind.
unfoldable pub get_oldest_element_time : Pool → Bool → ℕ → Option ℕ
get_oldest_element_time pool taken state =
    if pool.timed then some (get_oldest_element_time_or_count pool taken state) else none

unfoldable pub get_oldest_element_count : Pool → Bool → ℕ → Option ℕ
get_oldest_element_count pool taken state =
    if not pool.timed then some (get_oldest_element_time_or_count pool taken state) else none

unfoldable pub get_element_time_by_index : Pool → ℕ → Option ℕ
get_element_time_by_index pool element =
    if pool.timed then some (node_at pool element).last else none
