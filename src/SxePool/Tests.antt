-- ===== src/SxePool/Tests.antt =====
-- A pool of three elements with three states, without locks and times.
use libsxe.Base.{
  ℕ, suc, ◌≤◌, ◌<◌, ◌≡◌, ◌≢◌, refl, true, false, List, [], ◌∷◌, ◌++◌, length, some, none, arith,
}
use libsxe.SxePool.{
  dequeue, list_remove, Pool, node_at, queue_of, construct, construct_loop, enqueue, stamp, counter,
  lock, lock_taken, lock_not_taken, no_index, set_indexed_element_state, set_oldest_element_state,
  get_oldest_element_index, get_oldest_element_time_or_count,
}
use libsxe.SxePool.Queue.{IsValid}
use libsxe.SxePool.Move.{IsMove, set_indexed_element_state-IsMove, set_oldest_element_state-IsMove}
use libsxe.SxePool.Age.{IsAged, get_oldest_element_index_lem}
use libsxe.SxePool.Steps.{set_indexed, none_yet, behind}
use libsxe.SxePool.New.{clock_behind, construct-IsAged, Steps-construct}
use libsxe.SxePool.Construct.{construct-IsValid}
use libsxe.SxePool.Walk.{walk, walk-construct}
use libsxe.SxePool.Walker.{
  PoolWalker, pool_walker_construct, pool_walker_step, next_node, step_result, list_step, next_of,
  successor, head_of, list_back, rewalk,
}

abbrev three : Pool
three = construct 3 3 false false 0

three-IsValid : IsValid three
three-IsValid = (construct-IsValid 3 3 false false 0 (omega arith)).0

three_queues :
    (queue_of three 0 ≡ 2 ∷ 1 ∷ 0 ∷ []) × (queue_of three 1 ≡ []) × (lock three false ≡ true)
unfolding construct construct_loop enqueue lock
three_queues = (refl, refl, refl)

three_states : (i : ℕ) → (node_at three i).state ≡ 0
three_states = (construct-IsValid 3 3 false false 0 (omega arith)).1

three_number : (three.number ≡ 3) × (three.states ≡ 3)
unfolding construct construct_loop enqueue
three_number = (refl, refl)

set_indexed_element_state-IsMove_example :
    (lock three true ≡ true
      → (node_at three 1).state ≡ 0
      → (after : Pool) × (set_indexed_element_state three 0 true 1 0 2 ≡ some (after, lock_taken))
        × IsMove three 0 1 2 after)
    × (lock three true ≡ true
        → (node_at three 1).state ≢ 0
        → set_indexed_element_state three 0 true 1 0 2 ≡ none)
    × (lock three true ≡ false
        → set_indexed_element_state three 0 true 1 0 2 ≡ some (three, lock_not_taken))
set_indexed_element_state-IsMove_example =
    set_indexed_element_state-IsMove three 0 true 1 0 2 three-IsValid (omega (arith, three_number))
      (omega (arith, three_number))

set_oldest_element_state-IsMove_example :
    (lock three true ≡ true
      → queue_of three 0 ≡ []
      → set_oldest_element_state three 0 true 0 2 ≡ some (three, no_index))
    × (lock three true ≡ true
        → (i : ℕ) (is : List ℕ) → queue_of three 0 ≡ i ∷ is
        → (after : Pool) × (set_oldest_element_state three 0 true 0 2 ≡ some (after, i))
          × IsMove three 0 i 2 after)
    × (lock three true ≡ false
        → set_oldest_element_state three 0 true 0 2 ≡ some (three, lock_not_taken))
set_oldest_element_state-IsMove_example =
    set_oldest_element_state-IsMove three 0 true 0 2 three-IsValid (omega (arith, three_number))
      (omega (arith, three_number))

abbrev pair : Pool
pair = construct 2 2 true false 0

pair_facts :
    (pair.number ≡ 2)
    × (pair.states ≡ 2)
    × (queue_of pair 0 ≡ 1 ∷ 0 ∷ [])
    × (queue_of pair 1 ≡ [])
    × ((node_at pair 0).last ≡ 2)
    × ((node_at pair 1).last ≡ 1)
    × (lock pair true ≡ true)
    × (stamp pair 0 ≡ 3)
unfolding construct construct_loop enqueue stamp counter lock
pair_facts = (refl, refl, refl, refl, refl, refl, refl, refl)

pair_states : (i : ℕ) → (node_at pair i).state ≡ 0
pair_states = (construct-IsValid 2 2 true false 0 (omega arith)).1

pair-IsValid : IsValid pair
pair-IsValid = (construct-IsValid 2 2 true false 0 (omega arith)).0

abbrev pair_clock : ℕ
pair_clock = clock_behind 2 2 true false 0

pair_clock_lem : pair_clock ≡ 2
unfolding construct construct_loop enqueue counter
pair_clock_lem = refl

pair_moves :
    (after : Pool) × (set_indexed_element_state pair 0 true 1 0 1 ≡ some (after, lock_taken))
    × IsMove pair 0 1 1 after
pair_moves =
    (set_indexed_element_state-IsMove pair 0 true 1 0 1 pair-IsValid (omega (arith, pair_facts.0))
        (omega (arith, pair_facts.1))).0
      pair_facts.6 (pair_states 1)

Steps-construct_example : IsValid pair_moves.0 × IsAged pair_moves.0 (stamp pair 0)
Steps-construct_example = Steps-construct 2 2 true false 0 (omega arith) (omega arith) (
    behind none_yet (omega (arith, pair_clock_lem, pair_facts.7)) (
      set_indexed true 1 0 1 lock_taken (omega (arith, pair_facts.0)) (omega (arith, pair_facts.1))
        pair_moves.1))

get_oldest_element_index_lem_example :
    let i = get_oldest_element_index pair true 0 in
    (i < pair.number)
    × ((node_at pair i).state ≡ 0)
    × ((node_at pair i).last ≤ (node_at pair 0).last)
    × (get_oldest_element_time_or_count pair true 0 ≡ (node_at pair i).last)
get_oldest_element_index_lem_example =
    get_oldest_element_index_lem pair pair_clock true 0 0 pair-IsValid
      (construct-IsAged 2 2 true false 0 (omega arith) (omega arith)) pair_facts.6
      (omega (arith, pair_facts.1)) (omega (arith, pair_facts.0)) (pair_states 0)

abbrev at_one : PoolWalker
at_one = record { back = none; node = some 1; state = 0; last = 1 }

-- The walk goes on at element 0, and starts again there when another thread has moved element 1 away.
walk_steps :
    ((pool_walker_step pair true at_one).1 ≡ 0)
    × ((pool_walker_step (enqueue (dequeue pair 1 0) 0 1 1) true at_one).1 ≡ 0)
unfolding construct construct_loop enqueue dequeue list_remove stamp counter lock pool_walker_step
    step_result next_node list_step next_of successor head_of list_back rewalk
walk_steps = (refl, refl)

abbrev at_head : PoolWalker
at_head = record { back = none; node = none; state = 0; last = 0 }

walk-construct_example :
    walk three true (suc (length (queue_of three 0))) at_head ≡ queue_of three 0 ++ no_index ∷ []
unfolding construct construct_loop enqueue lock pool_walker_construct
walk-construct_example =
    walk-construct three true 0 at_head three-IsValid (omega (arith, three_number)) refl refl
