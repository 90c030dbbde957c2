-- ===== src/SxePool/Walker.antt =====
-- lib-sxe-pool/sxe-pool-walker.c: a walk over the elements of a state that goes on when other threads
-- move the element that it stands on.
use libsxe.Base.{ℕ, ◌&&◌, Bool, List, [], ◌∷◌, Option, none, some, ◌==◌, leb, if◌then◌else◌}
use libsxe.SxePool.{Pool, node_at, queue_of, lock, no_index, lock_not_taken}

-- SXE_POOL_WALKER and the SXE_LIST_WALKER in it: `none` is the head of the list.
pub record PoolWalker : Type 0 where
  pub back : Option ℕ
  pub node : Option ℕ
  pub state : ℕ
  pub last : ℕ

-- `none` is the abort for a pool with locks and times.
unfoldable pub pool_walker_construct : Pool → ℕ → Option PoolWalker
pool_walker_construct pool state =
    if pool.locked && pool.timed
    then none
    else some (record { back = none; node = none; state = state; last = 0 })

unfoldable pub head_of : List ℕ → Option ℕ
head_of [] = none
head_of (i ∷ is) = some i

unfoldable pub successor : List ℕ → ℕ → Option ℕ
successor [] id = none
successor (i ∷ is) id = if i == id then head_of is else successor is id

-- What is behind the node that the walker stands on: the head, or an element in the walker's state.
unfoldable pub next_of : Pool → ℕ → Option ℕ → Option ℕ
next_of pool state none = head_of (queue_of pool state)
next_of pool state (some i) = successor (queue_of pool state) i

-- sxe_list_walker_step
unfoldable pub list_step : Pool → PoolWalker → PoolWalker × Option ℕ
list_step pool w =
    let next = next_of pool w.state w.node in (record w { back = w.node; node = next }, next)

-- sxe_list_walker_back
unfoldable pub list_back : PoolWalker → PoolWalker × Option ℕ
list_back w = elim w.back [
  | none ↦ (w, none)
  | some i ↦ (record w { back = none; node = some i }, some i)
]

-- The `while` loop of sxe_pool_walker_step behind the element `back`.
unfoldable pub rewalk : Pool → PoolWalker → Option ℕ → List ℕ → PoolWalker × Option ℕ
rewalk pool w back [] = (record w { back = back; node = none }, none)
rewalk pool w back (i ∷ is) =
    if leb w.last (node_at pool i).last
    then (record w { back = back; node = some i }, some i)
    else rewalk pool w (some i) is

-- The step to the next node, whatever happened to the one that the walker stands on.
unfoldable pub next_node : Pool → PoolWalker → PoolWalker × Option ℕ
next_node pool w =
    let again = rewalk pool w none (queue_of pool w.state) in
    let (w', previous) = list_back w in
    elim w.node [
      | none ↦ list_step pool w
      | some i ↦ if (node_at pool i).state == w.state then list_step pool w else elim previous [
        | none ↦ again
        | some j ↦ if (node_at pool j).state == w.state then list_step pool w' else again
      ]
    ]

-- The result for the next node, and what the walker keeps of it.
unfoldable pub step_result : Pool → PoolWalker × Option ℕ → PoolWalker × ℕ
step_result pool (w, none) = (w, no_index)
step_result pool (w, some i) = (record w { last = (node_at pool i).last }, i)

unfoldable pub pool_walker_step : Pool → Bool → PoolWalker → PoolWalker × ℕ
pool_walker_step pool taken w =
    if lock pool taken then step_result pool (next_node pool w) else (w, lock_not_taken)
