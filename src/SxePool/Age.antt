-- ===== src/SxePool/Age.antt =====
-- The queues of lib-sxe-pool/sxe-pool.c by age: each goes from the oldest element to the newest.
use mathlib.Core.Path.{subst}
use libsxe.Base.{
  ℕ, ◌≤◌, ◌<◌, ◌≡◌, ◌≢◌, refl, ap, sym, Bool, true, false, List, [], ◌∷◌, ◌++◌, ◌==◌, ==_iff,
  Bool-cases, inl, inr, arith,
}
use libsxe.SxePool.{
  Pool, PoolNode, node_at, queue_of, list_remove, stamp, lock, no_index, get_oldest_element_index,
  get_oldest_element_time_or_count,
}
use libsxe.SxePool.Queue.{
  occurs, occurs-append, occurs_one, occurs-list_remove, IsValid, queue_after,
}
use libsxe.SxePool.Move.{IsMove, head_state}

-- No later index has a lower value.
abbrev pub Rising : (ℕ → ℕ) → List ℕ → Type 0
Rising last [] = Unit {0}
Rising last (i ∷ is) = ((j : ℕ) → 0 < occurs j is → last i ≤ last j) × Rising last is

Rising-list_remove :
    (last : ℕ → ℕ) (id : ℕ) (js : List ℕ) → Rising last js → Rising last (list_remove js id)
unfolding list_remove
Rising-list_remove last id [] h = tt
Rising-list_remove last id (j ∷ js) h = elim (Bool-cases (j == id)) [
  | inl e ↦ rw e h.1
  | inr e ↦ rw e (
    (λ k p. h.0 k (ground (arith, p, occurs-list_remove k id js))),
    Rising-list_remove last id js h.1,
  )
]

pub Rising-same :
    (f g : ℕ → ℕ) (js : List ℕ)
    → ((j : ℕ) → 0 < occurs j js → f j ≡ g j)
    → Rising f js
    → Rising g js
unfolding occurs
Rising-same f g [] e h = tt
Rising-same f g (j ∷ js) e h = (
  (λ k p. omega (arith, h.0 k p, e j (ground arith), e k (ground (arith, p)))),
  Rising-same f g js (λ k p. e k (ground (arith, p))) h.1,
)

pub Rising-snoc :
    (f : ℕ → ℕ) (js : List ℕ) (id : ℕ)
    → Rising f js
    → ((j : ℕ) → 0 < occurs j js → f j ≤ f id)
    → Rising f (js ++ id ∷ [])
unfolding occurs
Rising-snoc f [] id h b = ((λ j p. absurd (omega (arith, p))), tt)
Rising-snoc f (j ∷ js) id h b = (
  (λ k p. elim (Bool-cases (k == id)) [
    | inl e ↦ ground (arith, b j, (==_iff k id).0 e)
    | inr e ↦ h.0 k (ground (arith, p, occurs-append k js (id ∷ []), occurs_one k id, e))
  ]),
  Rising-snoc f js id h.1 (λ k p. b k (ground (arith, p))),
)

-- No element is newer than the clock, and each queue goes from the oldest element to the newest.
pub record IsAged (pool : Pool) (clock : ℕ) : Type 0 where
  pub past : (i : ℕ) → i < pool.number → (node_at pool i).last ≤ clock
  pub rising :
      (state : ℕ) → state < pool.states → Rising (λ i. (node_at pool i).last) (queue_of pool state)

-- A move at a time that is not before the clock keeps the queues in the order of age, and the new stamp
-- is the new clock.
pub IsMove-IsAged :
    (pool : Pool) (now id new_state clock : ℕ) (after : Pool)
    → IsValid pool
    → IsAged pool clock
    → IsMove pool now id new_state after
    → clock ≤ stamp pool now
    → IsAged after (stamp pool now)
IsMove-IsAged pool now id new_state clock after v a m c = record {
  past = λ i h. elim (Bool-cases (i == id)) [
    | inl e ↦ rw ((==_iff i id).0 e, m.node) (omega arith)
    | inr e ↦
        rw (m.others i (differs i e)) (omega (arith, a.past i (omega (arith, h, m.same_number)), c))
  ];
  rising = λ state h.
      rw (m.queues state (omega (arith, h, m.same_states)))
        (after_rising state (omega (arith, h, m.same_states)));
}
  where
    f : ℕ → ℕ
    f i = (node_at pool i).last

    g : ℕ → ℕ
    g i = (node_at after i).last

    last_of : PoolNode → ℕ
    last_of n = n.last

    differs : (i : ℕ) → (i == id) ≡ false → i ≢ id
    differs i e k = absurd (ground (arith, e, k))

    without :
        (state j : ℕ)
        → state < pool.states
        → 0 < occurs j (list_remove (queue_of pool state) id)
        → (j ≢ id) × (j < pool.number)
    without state j h p =
        ground (arith, p, v.placed state j h, occurs-list_remove j id (queue_of pool state))

    kept : (state : ℕ) → state < pool.states → Rising g (list_remove (queue_of pool state) id)
    kept state h =
        Rising-same f g (list_remove (queue_of pool state) id)
          (λ j p. ap (λ (n : PoolNode). n.last) (sym (m.others j (without state j h p).0)))
          (Rising-list_remove f id (queue_of pool state) (a.rising state h))

    newest :
        (state j : ℕ)
        → state < pool.states
        → 0 < occurs j (list_remove (queue_of pool state) id)
        → g j ≤ g id
    newest state j h p = omega (
      arith,
      ap last_of (m.others j (without state j h p).0),
      ap last_of m.node,
      a.past j (without state j h p).1,
      c,
    )

    after_rising :
        (state : ℕ) → state < pool.states → Rising g (queue_after pool id new_state state)
    after_rising state h = elim (Bool-cases (state == new_state)) [
      | inl e ↦ rw e (
          Rising-snoc g (list_remove (queue_of pool state) id) id (kept state h)
            (λ j p. newest state j h p))
      | inr e ↦ rw e (kept state h)
    ]

head_oldest :
    (f : ℕ → ℕ) (i j : ℕ) (is : List ℕ) → Rising f (i ∷ is) → 0 < occurs j (i ∷ is) → f i ≤ f j
unfolding occurs
head_oldest f i j is h p = elim (Bool-cases (i == j)) [
  | inl e ↦ omega (arith, ap f ((==_iff i j).0 e))
  | inr e ↦ h.0 j (ground (arith, p, e))
]

-- Where the lock is taken and the queues go by age, sxe_pool_get_oldest_element_index gives an element
-- of the state, where there is one, that no element of the state is older than, and the time or count of
-- the oldest is its own.
pub get_oldest_element_index_lem :
    (pool : Pool) (clock : ℕ) (taken : Bool) (state j : ℕ)
    → IsValid pool
    → IsAged pool clock
    → lock pool taken ≡ true
    → state < pool.states
    → j < pool.number
    → (node_at pool j).state ≡ state
    → let i = get_oldest_element_index pool taken state in
      (i < pool.number)
      × ((node_at pool i).state ≡ state)
      × ((node_at pool i).last ≤ (node_at pool j).last)
      × (get_oldest_element_time_or_count pool taken state ≡ (node_at pool i).last)
unfolding get_oldest_element_index get_oldest_element_time_or_count occurs
get_oldest_element_index_lem pool clock taken state j v a t h l e =
    rw t (from_queue (queue_of pool state) refl)
  where
    once : 0 < occurs j (queue_of pool state)
    once = ground (arith, v.placed state j h, l, e)

    from_queue :
        (q : List ℕ)
        → queue_of pool state ≡ q
        → let i = elim q as (λ q. ℕ) [ [] ↦ no_index | i ∷ is ↦ i ] in
          (i < pool.number)
          × ((node_at pool i).state ≡ state)
          × ((node_at pool i).last ≤ (node_at pool j).last)
          × (elim q as (λ q. ℕ) [ [] ↦ 0 | i ∷ is ↦ (node_at pool i).last ] ≡ (node_at pool i).last)
    from_queue [] k = absurd (omega (arith, once, ap (occurs j) k))
    from_queue (i ∷ is) k =
        let s = head_state pool state i is v h k in
        (
          s.0,
          s.1,
          head_oldest (λ x. (node_at pool x).last) i j is
              (subst (Rising (λ x. (node_at pool x).last)) k (a.rising state h))
              (omega (arith, once, ap (occurs j) k)),
          refl,
        )
