-- ===== src/SxePool/Steps.antt =====
-- Sequences of the operations of lib-sxe-pool/sxe-pool.c that move elements.
use mathlib.Core.Path.{subst}
use libsxe.Base.{
  ℕ, ◌≤◌, ◌<◌, ◌≡◌, ◌⊎◌, refl, ap, sym, ◌∙◌, Bool, List, [], ◌∷◌, Option, none, some, ◌==◌, ==_iff,
  Bool-cases, inl, inr, arith,
}
use libsxe.SxePool.{
  Pool, node_at, queue_of, stamp, lock, set_indexed_element_state, try_to_set_indexed_element_state,
  set_oldest_element_state, touch_indexed_element,
}
use libsxe.SxePool.Queue.{IsValid}
use libsxe.SxePool.Move.{
  IsMove, set_indexed_element_state-IsMove, try_to_set_indexed_element_state-IsMove,
  set_oldest_element_state-IsMove, touch_indexed_element-IsMove,
}
use libsxe.SxePool.Age.{IsAged, IsMove-IsAged}

-- A call at the time `now` that returns, on a listed element and states of the pool, with the pool that it
-- leaves: with or without the lock, whatever the states of the elements.
pub data Step : Pool → ℕ → Pool → Type 0 where
  set_indexed :
      {pool after : Pool} {now : ℕ} (taken : Bool) (id old_state new_state result : ℕ)
      → id < pool.number
      → new_state < pool.states
      → set_indexed_element_state pool now taken id old_state new_state ≡ some (after, result)
      → Step pool now after
  try_to_set :
      {pool after : Pool} {now : ℕ} (taken : Bool) (id old_state new_state : ℕ) (result state : ℕ)
      → id < pool.number
      → new_state < pool.states
      → try_to_set_indexed_element_state pool now taken id old_state new_state
        ≡ some (after, result, state)
      → Step pool now after
  set_oldest :
      {pool after : Pool} {now : ℕ} (taken : Bool) (old_state new_state result : ℕ)
      → old_state < pool.states
      → new_state < pool.states
      → set_oldest_element_state pool now taken old_state new_state ≡ some (after, result)
      → Step pool now after
  touch :
      {pool after : Pool} {now : ℕ} (taken : Bool) (id result : ℕ)
      → id < pool.number
      → touch_indexed_element pool now taken id ≡ some (after, result)
      → Step pool now after

-- Calls one after the other, with the clock in front of them and behind them: no call gets a time or a
-- count before the clock.
pub data Steps (start : Pool) (from : ℕ) : Pool → ℕ → Type 0 where
  none_yet : Steps start from start from
  behind :
      {pool after : Pool} {clock now : ℕ}
      → Steps start from pool clock
      → clock ≤ stamp pool now
      → Step pool now after
      → Steps start from after (stamp pool now)

-- Two descriptions of what a call leaves are of one pool.
same_pool :
    {run : Option (Pool × ℕ)} {before after : Pool} {x y : ℕ}
    → run ≡ some (before, x)
    → run ≡ some (after, y)
    → before ≡ after
same_pool {before = before} e k =
    ap (λ o. elim o as (λ o. Pool) [ none ↦ before | some s ↦ s.0 ]) (sym e ∙ k)

same_tried_pool :
    {run : Option (Pool × ℕ × ℕ)} {before after : Pool} {x y i j : ℕ}
    → run ≡ some (before, x, i)
    → run ≡ some (after, y, j)
    → before ≡ after
same_tried_pool {before = before} e k =
    ap (λ o. elim o as (λ o. Pool) [ none ↦ before | some s ↦ s.0 ]) (sym e ∙ k)

list_cases {ℓ} :
    {A : Type ℓ} (xs : List A) → (xs ≡ []) ⊎ ((x : A) × (rest : List A) × (xs ≡ x ∷ rest))
list_cases [] = inl refl
list_cases (x ∷ rest) = inr (x, rest, refl)

-- Valid, and in the order of age.
abbrev Kept : Pool → ℕ → Type 0
Kept pool clock = IsValid pool × IsAged pool clock

module _ {pool after : Pool} (now : ℕ) {clock : ℕ} (v : IsValid pool) (a : IsAged pool clock)
    (c : clock ≤ stamp pool now) where
  by_move :
      {id new_state : ℕ} {moved : Pool}
      → moved ≡ after
      → IsMove pool now id new_state moved
      → Kept after (stamp pool now)
  by_move {id = id} {new_state = new_state} {moved = moved} e m =
      subst (λ p. Kept p (stamp pool now)) e
        (m.valid, IsMove-IsAged pool now id new_state clock moved v a m c)

  by_stay : pool ≡ after → Kept after (stamp pool now)
  by_stay e =
      subst (λ p. Kept p (stamp pool now)) e
        (v, record { past = λ i h. omega (arith, a.past i h, c); rising = a.rising })

Step-Kept :
    {pool after : Pool} {now : ℕ} (clock : ℕ)
    → Step pool now after
    → IsValid pool
    → IsAged pool clock
    → clock ≤ stamp pool now
    → Kept after (stamp pool now)
Step-Kept {pool = pool} {now = now} clock (set_indexed taken id old_state new_state result l b e) v
      a c =
    let outcomes = set_indexed_element_state-IsMove pool now taken id old_state new_state v l b in
    elim (Bool-cases (lock pool taken)) [
      | inl t ↦ elim (Bool-cases ((node_at pool id).state == old_state)) [
        | inl k ↦
            let m = outcomes.0 t ((==_iff (node_at pool id).state old_state).0 k) in
            by_move now v a c (same_pool m.1 e) m.2
        | inr k ↦ absurd (ground (arith, e, outcomes.1 t (λ z. absurd (ground (arith, k, z)))))
      ]
      | inr t ↦ by_stay now v a c (same_pool (outcomes.2 t) e)
    ]
Step-Kept {pool = pool} {now = now} clock
      (try_to_set taken id old_state new_state result state l b e) v a c =
    let outcomes =
      try_to_set_indexed_element_state-IsMove pool now taken id old_state new_state v l b in
    elim (Bool-cases (lock pool taken)) [
      | inl t ↦ elim (Bool-cases ((node_at pool id).state == old_state)) [
        | inl k ↦
            let m = outcomes.0 t ((==_iff (node_at pool id).state old_state).0 k) in
            by_move now v a c (same_tried_pool m.1 e) m.2
        | inr k ↦
            by_stay now v a c
              (same_tried_pool (outcomes.1 t (λ z. absurd (ground (arith, k, z)))) e)
      ]
      | inr t ↦ by_stay now v a c (same_tried_pool (outcomes.2 t) e)
    ]
Step-Kept {pool = pool} {now = now} clock (set_oldest taken old_state new_state result o b e) v a
      c =
    let outcomes = set_oldest_element_state-IsMove pool now taken old_state new_state v o b in
    elim (Bool-cases (lock pool taken)) [
      | inl t ↦ elim (list_cases (queue_of pool old_state)) [
        | inl k ↦ by_stay now v a c (same_pool (outcomes.0 t k) e)
        | inr k ↦ let m = outcomes.1 t k.0 k.1 k.2 in by_move now v a c (same_pool m.1 e) m.2
      ]
      | inr t ↦ by_stay now v a c (same_pool (outcomes.2 t) e)
    ]
Step-Kept {pool = pool} {now = now} clock (touch taken id result l e) v a c =
    let outcomes = touch_indexed_element-IsMove pool now taken id v l in
    elim (Bool-cases (lock pool taken)) [
      | inl t ↦ let m = outcomes.0 t in by_move now v a c (same_pool m.1 e) m.2
      | inr t ↦ by_stay now v a c (same_pool (outcomes.1 t) e)
    ]

-- Calls of the four operations that move elements, on listed elements and states of the pool, that get
-- times or counts that do not run back, keep a pool valid, and each of its queues in the order from the
-- oldest element to the newest, with no element newer than the clock behind the last call.
pub Steps-IsAged :
    (start : Pool) (from : ℕ) {pool : Pool} {clock : ℕ}
    → IsValid start
    → IsAged start from
    → Steps start from pool clock
    → IsValid pool × IsAged pool clock
Steps-IsAged start from v a none_yet = (v, a)
Steps-IsAged start from v a (behind {clock = clock} before c step) =
    let kept = Steps-IsAged start from v a before in Step-Kept clock step kept.0 kept.1 c
