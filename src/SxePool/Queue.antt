-- ===== src/SxePool/Queue.antt =====
-- Indices in the queues of lib-sxe-pool/sxe-pool.c: how often they stand there, and what the two writes
-- of a move do to it.
use libsxe.Base.{
  ℕ, suc, ◌+◌, ◌-◌, ◌<◌, ◌≡◌, refl, ◌&&◌, List, [], ◌∷◌, ◌++◌, ◌==◌, ==_iff, ltb, if◌then◌else◌,
  Bool-cases, inl, inr, length, get_or, set, arith, get_or-set_self, get_or-set_ne,
}
use libsxe.SxePool.{Pool, node_at, queue_of, list_remove}

module _ {ℓ} {A : Type ℓ} where
  pub get_or-set :
      (xs : List A) (i j : ℕ) (v d : A)
      → i < length xs
      → get_or (set xs i v) j d ≡ (if j == i then v else get_or xs j d)
  get_or-set xs i j v d h = elim (Bool-cases (j == i)) [
    | inl e ↦ rw (e, (==_iff j i).0 e) (get_or-set_self xs i v d h)
    | inr e ↦ rw e (get_or-set_ne xs i j v d (λ k. absurd (ground (arith, k))))
  ]

unfoldable pub occurs : ℕ → List ℕ → ℕ
occurs i [] = 0
occurs i (j ∷ js) = if j == i then suc (occurs i js) else occurs i js

pub occurs-append : (i : ℕ) (js ks : List ℕ) → occurs i (js ++ ks) ≡ occurs i js + occurs i ks
unfolding occurs
occurs-append i [] ks = omega arith
occurs-append i (j ∷ js) ks = ground (arith, occurs-append i js ks)

pub occurs_one : (i id : ℕ) → occurs i (id ∷ []) ≡ (if i == id then 1 else 0)
unfolding occurs
occurs_one i id = ground arith

pub occurs-list_remove :
    (i id : ℕ) (js : List ℕ)
    → occurs i (list_remove js id) ≡ (if i == id then occurs i js - 1 else occurs i js)
unfolding occurs list_remove
occurs-list_remove i id [] = ground arith
occurs-list_remove i id (j ∷ js) = ground (arith, occurs-list_remove i id js)

-- How often an index stands in the queue of a state that it has or has not.
abbrev pub place : Pool → ℕ → ℕ → ℕ
place pool state i = if ltb i pool.number && (node_at pool i).state == state then 1 else 0

-- Each element has a state of the pool, and stands once in the queue of its state and in no other.
pub record IsValid (pool : Pool) : Type 0 where
  pub nodes_length : length pool.nodes ≡ pool.number
  pub queue_length : length pool.queue ≡ pool.states
  pub state_bound : (i : ℕ) → i < pool.number → (node_at pool i).state < pool.states
  pub placed :
      (state i : ℕ) → state < pool.states → occurs i (queue_of pool state) ≡ place pool state i

-- The queue of a state after a move of `id` to `new_state`.
abbrev pub queue_after : Pool → ℕ → ℕ → ℕ → List ℕ
queue_after pool id new_state state =
    if state == new_state
    then list_remove (queue_of pool state) id ++ id ∷ []
    else list_remove (queue_of pool state) id

-- A queue without an element keeps its indices when the element is removed from it.
pub list_remove_absent : (id : ℕ) (js : List ℕ) → occurs id js ≡ 0 → list_remove js id ≡ js
unfolding occurs list_remove
list_remove_absent id [] h = refl
list_remove_absent id (j ∷ js) h = ground (arith, list_remove_absent id js)
