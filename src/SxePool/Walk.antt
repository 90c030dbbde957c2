-- ===== src/SxePool/Walk.antt =====
-- A walk of lib-sxe-pool/sxe-pool-walker.c over a pool that nothing changes meanwhile.
use libsxe.Base.{
  ℕ, zero, suc, ◌<◌, ◌≡◌, ◌⊎◌, inl, inr, refl, ap, sym, ◌∙◌, Bool, true, List, [], ◌∷◌, ◌++◌, none,
  some, length, arith, append_assoc,
}
use libsxe.SxePool.{Pool, node_at, queue_of, lock, no_index}
use libsxe.SxePool.Queue.{occurs, occurs-append, IsValid}
use libsxe.SxePool.Walker.{
  PoolWalker, head_of, successor, next_of, list_step, next_node, step_result, pool_walker_step,
  pool_walker_construct,
}

successor-append :
    (pre : List ℕ) (i : ℕ) (rest : List ℕ)
    → occurs i pre ≡ 0
    → successor (pre ++ i ∷ rest) i ≡ head_of rest
unfolding successor occurs
successor-append [] i rest h = ground arith
successor-append (j ∷ pre) i rest h = ground (arith, successor-append pre i rest)

-- An element of a queue has its state, and stands there once.
pub split_queue :
    (pool : Pool) (state i : ℕ) (pre rest : List ℕ)
    → IsValid pool
    → state < pool.states
    → queue_of pool state ≡ pre ++ i ∷ rest
    → (i < pool.number) × ((node_at pool i).state ≡ state) × (occurs i pre ≡ 0)
unfolding occurs
split_queue pool state i pre rest v h e =
    ground (arith, v.placed state i h, ap (occurs i) e, occurs-append i pre (i ∷ rest))

-- The elements that a walker has not come to yet.
abbrev pub Ahead : Pool → PoolWalker → List ℕ → Type 0
Ahead pool w rest =
    ((w.node ≡ none) × (rest ≡ queue_of pool w.state))
    ⊎ ((i : ℕ) × (pre : List ℕ) × (w.node ≡ some i) × (queue_of pool w.state ≡ pre ++ i ∷ rest))

next_lem :
    (pool : Pool) (w : PoolWalker) (rest : List ℕ)
    → IsValid pool
    → w.state < pool.states
    → Ahead pool w rest
    → next_node pool w ≡ (record w { back = w.node; node = head_of rest }, head_of rest)
unfolding next_node list_step next_of
next_lem pool w rest v h (inl (n, r)) = ground (arith, n, r)
next_lem pool w rest v h (inr (i, pre, n, q)) =
    let s = split_queue pool w.state i pre rest v h q in
    ground (arith, n, q, s, successor-append pre i rest s.2)

pub step_none :
    (pool : Pool) (taken : Bool) (w : PoolWalker)
    → IsValid pool
    → w.state < pool.states
    → lock pool taken ≡ true
    → Ahead pool w []
    → (pool_walker_step pool taken w).1 ≡ no_index
unfolding pool_walker_step step_result head_of
step_none pool taken w v h l a = rw l (ap (λ r. (step_result pool r).1) (next_lem pool w [] v h a))

-- The walker behind a step to an element.
abbrev pub stepped : Pool → PoolWalker → ℕ → PoolWalker
stepped pool w i = record {
  back = w.node;
  node = some i;
  state = w.state;
  last = (node_at pool i).last;
}

pub step_some :
    (pool : Pool) (taken : Bool) (w : PoolWalker) (i : ℕ) (is : List ℕ)
    → IsValid pool
    → w.state < pool.states
    → lock pool taken ≡ true
    → Ahead pool w (i ∷ is)
    → pool_walker_step pool taken w ≡ (stepped pool w i, i)
unfolding pool_walker_step step_result head_of
step_some pool taken w i is v h l a = rw l (ap (step_result pool) (next_lem pool w (i ∷ is) v h a))

pub stepped-Ahead :
    (pool : Pool) (w : PoolWalker) (i : ℕ) (is : List ℕ)
    → Ahead pool w (i ∷ is)
    → Ahead pool (stepped pool w i) is
stepped-Ahead pool w i is (inl (n, r)) = inr (i, [], refl, sym r)
stepped-Ahead pool w i is (inr (j, pre, n, q)) =
    inr (i, pre ++ j ∷ [], refl, q ∙ sym (append_assoc pre (j ∷ []) (i ∷ is)))

-- The results of so many steps.
unfoldable pub walk : Pool → Bool → ℕ → PoolWalker → List ℕ
walk pool taken zero w = []
walk pool taken (suc n) w =
    let (w', result) = pool_walker_step pool taken w in result ∷ walk pool taken n w'

walk-Ahead :
    (pool : Pool) (taken : Bool) (rest : List ℕ) (w : PoolWalker)
    → IsValid pool
    → w.state < pool.states
    → lock pool taken ≡ true
    → Ahead pool w rest
    → walk pool taken (suc (length rest)) w ≡ rest ++ no_index ∷ []
unfolding walk
walk-Ahead pool taken [] w v h l a = ap (λ r. r ∷ []) (step_none pool taken w v h l a)
walk-Ahead pool taken (i ∷ is) w v h l a =
    rw (step_some pool taken w i is v h l a)
      (ap (◌∷◌ i) (walk-Ahead pool taken is (stepped pool w i) v h l (stepped-Ahead pool w i is a)))

pub constructed :
    (pool : Pool) (state : ℕ) (w : PoolWalker)
    → pool_walker_construct pool state ≡ some w
    → (w.node ≡ none) × (w.state ≡ state)
unfolding pool_walker_construct
constructed pool state w e = ground arith

-- With the lock taken, from a new walker on, the steps over an unchanged pool return the elements of the state in the order
-- of its queue, each once, and then SXE_POOL_NO_INDEX.
pub walk-construct :
    (pool : Pool) (taken : Bool) (state : ℕ) (w : PoolWalker)
    → IsValid pool
    → state < pool.states
    → lock pool taken ≡ true
    → pool_walker_construct pool state ≡ some w
    → walk pool taken (suc (length (queue_of pool state))) w ≡ queue_of pool state ++ no_index ∷ []
walk-construct pool taken state w v h l e =
    let w' = constructed pool state w e in
    rw (← w'.1) (
      walk-Ahead pool taken (queue_of pool w.state) w v (omega (arith, h, w'.1)) l
        (inl (w'.0, refl)))
