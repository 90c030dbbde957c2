-- ===== src/SxePool/New.antt =====
-- The age of the elements of a new pool of lib-sxe-pool/sxe-pool.c, and of what calls make of it.
use mathlib.Core.Path.{subst}
use libsxe.Base.{
  ℕ, zero, suc, ◌+◌, ◌^◌, ◌≤◌, ◌<◌, ◌≡◌, ap, sym, ◌∙◌, Bool, false, List, [], ◌∷◌, ◌++◌, ◌==◌,
  ==_iff, get_or, replicate, if◌then◌else◌, Bool-cases, inl, inr, arith,
}
use libsxe.SxePool.{
  Pool, PoolNode, blank, node_at, queue_of, enqueue, stamp, counter, construct_loop, construct,
}
use libsxe.SxePool.Queue.{occurs, get_or-set, IsValid}
use libsxe.SxePool.Construct.{
  IsFilled, enqueue-IsFilled, get_or-replicate, unfilled, unfilled-IsFilled, construct-IsValid,
}
use libsxe.SxePool.Age.{Rising, Rising-same, Rising-snoc, IsAged}
use libsxe.SxePool.Steps.{Steps, Steps-IsAged}

-- The clock of a pool that is filled at the time `now`.
abbrev clock_of : Pool → ℕ → ℕ
clock_of pool now = if pool.timed then now else pool.next_count

stamp_later :
    (pool : Pool) (now : ℕ)
    → (pool.timed ≡ false → pool.next_count + 1 < 2 ^ 64)
    → clock_of pool now ≤ stamp pool now
unfolding stamp
stamp_later pool now h = elim (Bool-cases pool.timed) [
  | inl t ↦ rw t (omega arith)
  | inr t ↦ rw t (omega (arith, h t))
]

module _ (pool : Pool) (now k : ℕ) (l : k < pool.number) (s : 0 < pool.states)
    (c : clock_of pool now ≤ stamp pool now) (f : IsFilled pool (suc k))
    (a : IsAged pool (clock_of pool now)) where
  node_after :
      (i : ℕ)
      → node_at (enqueue pool now k 0) i
        ≡ (if i == k then record { state = 0; last = stamp pool now } else node_at pool i)
  unfolding enqueue
  node_after i = get_or-set pool.nodes k i _ blank (omega (arith, l, f.nodes_length))

  queue_after_lem :
      (state : ℕ)
      → queue_of (enqueue pool now k 0) state
        ≡ (if state == 0 then queue_of pool 0 ++ k ∷ [] else queue_of pool state)
  unfolding enqueue
  queue_after_lem state =
      get_or-set pool.queue 0 state (queue_of pool 0 ++ k ∷ []) []
        (omega (arith, s, f.queue_length))

  differs : (j : ℕ) (is : List ℕ) → occurs k is ≡ 0 → 0 < occurs j is → (j == k) ≡ false
  differs j is z p = elim (Bool-cases (j == k)) [
    | inl e ↦ absurd (omega (arith, p, z, ap (λ x. occurs x is) ((==_iff j k).0 e)))
    | inr e ↦ e
  ]

  same_last :
      (state j : ℕ)
      → 0 < occurs j (queue_of pool state)
      → (node_at pool j).last ≡ (node_at (enqueue pool now k 0) j).last
  same_last state j p =
      let absent : occurs k (queue_of pool state) ≡ 0 = ground (arith, f.queued state k) in
      let other = differs j (queue_of pool state) absent p in
      let same : node_at (enqueue pool now k 0) j ≡ node_at pool j =
        node_after j
        ∙ ap (λ b. if b then record { state = 0; last = stamp pool now } else node_at pool j)
            other in
      ap (λ (n : PoolNode). n.last) (sym same)

  kept_order :
      (state : ℕ)
      → state < pool.states
      → Rising (λ j. (node_at (enqueue pool now k 0) j).last) (queue_of pool state)
  kept_order state h =
      Rising-same (λ j. (node_at pool j).last) (λ j. (node_at (enqueue pool now k 0) j).last)
        (queue_of pool state) (same_last state) (a.rising state h)

  last_new : (node_at (enqueue pool now k 0) k).last ≡ stamp pool now
  last_new =
      let new : node_at (enqueue pool now k 0) k ≡ record { state = 0; last = stamp pool now } =
        node_after k ∙ ground arith in
      ap (λ (n : PoolNode). n.last) new

  listed_in_first : (j : ℕ) → 0 < occurs j (queue_of pool 0) → j < pool.number
  listed_in_first j p = ground (arith, p, f.queued 0 j)

  enqueue-IsAged : IsAged (enqueue pool now k 0) (stamp pool now)
  unfolding enqueue
  enqueue-IsAged = record {
    past = λ i h. elim (Bool-cases (i == k)) [
      | inl e ↦ rw (node_after i, e) (omega arith)
      | inr e ↦ rw (node_after i, e) (omega (arith, a.past i h, c))
    ];
    rising = λ state h. elim (Bool-cases (state == 0)) [
      | inl e ↦
          rw (queue_after_lem state, e)
            (Rising-snoc (λ j. (node_at (enqueue pool now k 0) j).last) (queue_of pool 0) k
              (kept_order 0 s)
              (λ j p. omega (arith, same_last 0 j p, last_new, a.past j (listed_in_first j p), c)))
      | inr e ↦ rw (queue_after_lem state, e) (kept_order state h)
    ];
  }

clock_after : (pool : Pool) (now k : ℕ) → clock_of (enqueue pool now k 0) now ≡ stamp pool now
unfolding enqueue stamp counter
clock_after pool now k = ground arith

count_after :
    (pool : Pool) (now k : ℕ)
    → (pool.timed ≡ false → pool.next_count + suc k < 2 ^ 64)
    → (enqueue pool now k 0).timed ≡ false
    → (enqueue pool now k 0).next_count + k < 2 ^ 64
unfolding enqueue counter
count_after pool now k h t = rw t (omega (arith, h t))

loop-IsAged :
    (k : ℕ) (pool : Pool) (now : ℕ)
    → k ≤ pool.number
    → 0 < pool.states
    → (pool.timed ≡ false → pool.next_count + k < 2 ^ 64)
    → IsFilled pool k
    → IsAged pool (clock_of pool now)
    → IsAged (construct_loop k pool now) (clock_of (construct_loop k pool now) now)
unfolding construct_loop enqueue
loop-IsAged zero pool now l s h f a = a
loop-IsAged (suc k) pool now l s h f a =
    let later = stamp_later pool now (λ t. omega (arith, h t)) in
    loop-IsAged k (enqueue pool now k 0) now (omega (arith, l)) s (count_after pool now k h)
      (enqueue-IsFilled pool now k (omega (arith, l)) s f)
      (subst (IsAged (enqueue pool now k 0)) (sym (clock_after pool now k))
        (enqueue-IsAged pool now k (omega (arith, l)) s later f a))

blank_past : (n i : ℕ) → (get_or (replicate n blank) i blank).last ≡ 0
blank_past n i = ap (λ (x : PoolNode). x.last) (get_or-replicate n i blank)

-- The pool in front of the loop, at the time `now` or with no element counted.
unfilled-IsAged :
    (number states : ℕ) (locked timed : Bool) (now : ℕ)
    → IsAged
        (unfilled number states locked timed)
        (clock_of (unfilled number states locked timed) now)
unfilled-IsAged number states locked timed now = record {
  past = λ i h. omega (arith, blank_past number i);
  rising = λ state h.
      subst (Rising (λ i. (node_at (unfilled number states locked timed) i).last))
        (sym (get_or-replicate states state [])) tt;
}

-- The clock behind a construction.
abbrev pub clock_behind : ℕ → ℕ → Bool → Bool → ℕ → ℕ
clock_behind number states locked timed now =
    clock_of (construct number states locked timed now) now

pub construct-IsAged :
    (number states : ℕ) (locked timed : Bool) (now : ℕ)
    → 0 < states
    → number < 2 ^ 64
    → IsAged
        (construct number states locked timed now)
        (clock_behind number states locked timed now)
unfolding construct
construct-IsAged number states locked timed now s l =
    loop-IsAged number (unfilled number states locked timed) now (omega arith) s
      (λ t. omega (arith, l)) (unfilled-IsFilled number states locked timed)
      (unfilled-IsAged number states locked timed now)

-- Whatever calls of the four operations that move elements follow a construction with at least one state, on
-- listed elements and states of the pool and with times or counts that do not run back, whether each gets the
-- lock or not: the pool is valid, and each of its queues goes from the oldest element to the newest, with no
-- element newer than the clock behind the last call. There are fewer than 2 ^ 64 elements.
pub Steps-construct :
    (number states : ℕ) (locked timed : Bool) (now : ℕ) {pool : Pool} {clock : ℕ}
    → 0 < states
    → number < 2 ^ 64
    → Steps
        (construct number states locked timed now)
        (clock_behind number states locked timed now)
        pool
        clock
    → IsValid pool × IsAged pool clock
Steps-construct number states locked timed now s l steps =
    Steps-IsAged (construct number states locked timed now)
      (clock_behind number states locked timed now)
      (construct-IsValid number states locked timed now s).0
      (construct-IsAged number states locked timed now s l) steps
