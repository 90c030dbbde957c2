-- ===== src/SxePool/Construct.antt =====
-- sxe_pool_construct of lib-sxe-pool/sxe-pool.c: all elements start in state 0.
use libsxe.Base.{
  ℕ, zero, suc, ◌≤◌, ◌<◌, ◌≡◌, refl, ap, ◌∙◌, ◌&&◌, Bool, [], ◌∷◌, ◌++◌, ◌==◌, ltb, leb,
  if◌then◌else◌, length, get_or, replicate, arith, length-set, length-replicate,
}
use libsxe.SxePool.{Pool, PoolNode, blank, node_at, queue_of, enqueue, construct_loop, construct}
use libsxe.SxePool.Queue.{occurs, occurs-append, occurs_one, IsValid, get_or-set}

-- What holds with the elements under `k` left to be queued.
pub record IsFilled (pool : Pool) (k : ℕ) : Type 0 where
  pub nodes_length : length pool.nodes ≡ pool.number
  pub queue_length : length pool.queue ≡ pool.states
  pub first_state : (i : ℕ) → (node_at pool i).state ≡ 0
  pub queued :
      (state i : ℕ)
      → occurs i (queue_of pool state)
        ≡ (if (state == 0 && leb k i) && ltb i pool.number then 1 else 0)

pub enqueue-IsFilled :
    (pool : Pool) (now k : ℕ)
    → k < pool.number
    → 0 < pool.states
    → IsFilled pool (suc k)
    → IsFilled (enqueue pool now k 0) k
unfolding enqueue
enqueue-IsFilled pool now k l s f = record {
  nodes_length = length-set pool.nodes k _ ∙ f.nodes_length;
  queue_length = length-set pool.queue 0 _ ∙ f.queue_length;
  first_state = λ i.
      ap (λ (n : PoolNode). n.state)
        (get_or-set pool.nodes k i _ blank (omega (arith, l, f.nodes_length)))
      ∙ ground (arith, f.first_state i);
  queued = λ state i.
      ap (occurs i) (
        get_or-set pool.queue 0 state (queue_of pool 0 ++ k ∷ []) []
          (omega (arith, s, f.queue_length)))
      ∙ ground (
        arith,
        occurs-append i (queue_of pool 0) (k ∷ []),
        occurs_one i k,
        f.queued state i,
        f.queued 0 i,
        l,
      );
}

loop-IsFilled :
    (k : ℕ) (pool : Pool) (now : ℕ)
    → k ≤ pool.number
    → 0 < pool.states
    → IsFilled pool k
    → IsFilled (construct_loop k pool now) 0
      × ((construct_loop k pool now).number ≡ pool.number)
      × ((construct_loop k pool now).states ≡ pool.states)
unfolding construct_loop enqueue
loop-IsFilled zero pool now l s f = (f, refl, refl)
loop-IsFilled (suc k) pool now l s f =
    loop-IsFilled k (enqueue pool now k 0) now (omega (arith, l)) s
      (enqueue-IsFilled pool now k (omega (arith, l)) s f)

pub get_or-replicate : {A : Type 0} (n i : ℕ) (d : A) → get_or (replicate n d) i d ≡ d
get_or-replicate zero i d = refl
get_or-replicate (suc n) zero d = refl
get_or-replicate (suc n) (suc i) d = get_or-replicate n i d

enqueue_sizes :
    (k : ℕ) (pool : Pool) (now : ℕ)
    → ((construct_loop k pool now).number ≡ pool.number)
      × ((construct_loop k pool now).states ≡ pool.states)
      × ((construct_loop k pool now).timed ≡ pool.timed)
      × ((construct_loop k pool now).locked ≡ pool.locked)
unfolding construct_loop enqueue
enqueue_sizes zero pool now = (refl, refl, refl, refl)
enqueue_sizes (suc k) pool now = enqueue_sizes k (enqueue pool now k 0) now

-- A new pool is as large as it is asked to be, and has the options.
pub construct_sizes :
    (number states : ℕ) (locked timed : Bool) (now : ℕ)
    → ((construct number states locked timed now).number ≡ number)
      × ((construct number states locked timed now).states ≡ states)
      × ((construct number states locked timed now).timed ≡ timed)
      × ((construct number states locked timed now).locked ≡ locked)
unfolding construct
construct_sizes number states locked timed now = enqueue_sizes number _ now

-- The pool in front of the loop that fills it.
abbrev pub unfilled : ℕ → ℕ → Bool → Bool → Pool
unfilled number states locked timed = record {
  locked = locked;
  timed = timed;
  number = number;
  states = states;
  nodes = replicate number blank;
  queue = replicate states [];
  next_count = 0;
}

pub unfilled-IsFilled :
    (number states : ℕ) (locked timed : Bool)
    → IsFilled (unfilled number states locked timed) number
unfolding occurs
unfilled-IsFilled number states locked timed = record {
  nodes_length = length-replicate number blank;
  queue_length = length-replicate states [];
  first_state = λ i. ap (λ (n : PoolNode). n.state) (get_or-replicate number i blank);
  queued = λ state i. ap (occurs i) (get_or-replicate states state []) ∙ ground arith;
}

-- A new pool with at least one state is valid, and all its elements are in state 0.
pub construct-IsValid :
    (number states : ℕ) (locked timed : Bool) (now : ℕ)
    → 0 < states
    → IsValid (construct number states locked timed now)
      × ((i : ℕ) → (node_at (construct number states locked timed now) i).state ≡ 0)
unfolding construct occurs
construct-IsValid number states locked timed now p = (
  record {
    nodes_length = whole.0.nodes_length;
    queue_length = whole.0.queue_length;
    state_bound = λ i h. ground (arith, whole.0.first_state i, whole.2, p);
    placed = λ state i h. ground (arith, whole.0.queued state i, whole.0.first_state i);
  },
  whole.0.first_state,
)
  where
    whole :
        IsFilled (construct_loop number (unfilled number states locked timed) now) 0
        × ((construct_loop number (unfilled number states locked timed) now).number ≡ number)
        × ((construct_loop number (unfilled number states locked timed) now).states ≡ states)
    whole =
        loop-IsFilled number (unfilled number states locked timed) now (omega arith) p
          (unfilled-IsFilled number states locked timed)
