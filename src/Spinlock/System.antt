-- ===== src/Spinlock/System.antt =====
-- Threads that take and give one lock of lib-sxe-mmap/sxe-spinlock.h, in any order.
use libsxe.Base.{
  ℕ, ◌<◌, ◌≡◌, refl, Bool, true, false, Option, none, some, ◌==◌, ==_iff, ltb, ltb→lt,
  if◌then◌else◌, arith, Bool-cases, ◌⊎◌, inl, inr,
}
use libsxe.Spinlock.{not_taken, taken, already_taken, Round, again, done, take_round, give}

-- Where a thread stands: outside, in sxe_spinlock_take with a number of yields, or behind it with the
-- lock taken.
pub data Pc : Type 0 where
  outside : Pc
  spinning : ℕ → Pc
  holding : Pc

-- A thread gives a lock back only if it has taken it, as sxe_pool_unlock's callers do, and does not take
-- it again while it holds it.
abbrev pub after_round : Round → Pc
after_round (again count) = spinning count
after_round (done taken) = holding
after_round (done not_taken) = outside
after_round (done already_taken) = outside

-- One shared access of a thread: the word and the place afterwards; `none` is the failed assertion.
unfoldable pub advance : ℕ → ℕ → ℕ → Pc → Option (ℕ × Pc)
advance count_max tid lock outside = some (lock, spinning 0)
advance count_max tid lock (spinning count) =
    let (lock', round) = take_round count_max tid lock count in some (lock', after_round round)
advance count_max tid lock holding = elim (give lock tid) [
  | none ↦ none
  | some lock' ↦ some (lock', outside)
]

pub record System : Type 0 where
  pub lock : ℕ
  pub pc : ℕ → Pc

abbrev pub update : (ℕ → Pc) → ℕ → Pc → ℕ → Pc
update f i p j = if j == i then p else f j

abbrev pub holds : Pc → Bool
holds outside = false
holds (spinning count) = false
holds holding = true

-- What one access does to the word: nothing, or it takes the lock, or it gives it back.
abbrev Access : ℕ → ℕ → Pc → ℕ → Pc → Type 0
Access tid lock p lock' p' =
    ((lock' ≡ lock) × (holds p ≡ false) × (holds p' ≡ false))
    ⊎ (((lock ≡ 0) × (lock' ≡ tid) × (holds p ≡ false) × (holds p' ≡ true))
        ⊎ ((lock ≡ tid) × (lock' ≡ 0) × (holds p ≡ true) × (holds p' ≡ false)))

advance-Access :
    (count_max tid lock lock' : ℕ) (p p' : Pc)
    → advance count_max tid lock p ≡ some (lock', p')
    → Access tid lock p lock' p'
unfolding advance take_round give
advance-Access count_max tid lock lock' outside p' e = inl (ground arith)
advance-Access count_max tid lock lock' (spinning count) p' e = ground arith
advance-Access count_max tid lock lock' holding p' e = inr (inr (ground arith))

-- A thread can make its next access, if the word is its id where it holds the lock.
next_access :
    (count_max tid lock : ℕ) (p : Pc)
    → (holds p ≡ true → lock ≡ tid)
    → (lock' : ℕ) × (p' : Pc) × (advance count_max tid lock p ≡ some (lock', p'))
      × ((count : ℕ)
          → p ≡ spinning count
          → count < count_max
          → lock ≡ 0
          → (lock' ≡ tid) × (p' ≡ holding))
unfolding advance take_round give
next_access count_max tid lock outside h = (lock, spinning 0, refl, (λ count e l z. cc))
next_access count_max tid lock (spinning n) h = (
  (take_round count_max tid lock n).0,
  after_round (take_round count_max tid lock n).1,
  refl,
  (λ count e l z. ground arith),
)
next_access count_max tid lock holding h = (0, outside, ground (arith, h refl), (λ count e l z. cc))

-- What SXE_GETTID gives: an id for each thread, none of them 0 and no two the same.
module _ (count_max : ℕ) (tid : ℕ → ℕ) (tid_pos : (i : ℕ) → 0 < tid i)
    (tid_injective : (i j : ℕ) → tid i ≡ tid j → i ≡ j) where
  pub data Step (s t : System) : Type 0 where
    pick :
        (i lock : ℕ) (p : Pc)
        → advance count_max (tid i) s.lock (s.pc i) ≡ some (lock, p)
        → t ≡ record { lock = lock; pc = update s.pc i p }
        → Step s t

  pub data Reach : System → Type 0 where
    start : Reach (record { lock = 0; pc = λ i. outside })
    next : {s t : System} → Reach s → Step s t → Reach t

  -- The word is the id of the thread that holds the lock, and 0 where there is none.
  pub record IsOwned (s : System) : Type 0 where
    pub owner : (i : ℕ) → holds (s.pc i) ≡ true → s.lock ≡ tid i
    pub owned : 0 < s.lock → (i : ℕ) × (s.lock ≡ tid i) × (holds (s.pc i) ≡ true)

  start-IsOwned : IsOwned (record { lock = 0; pc = λ i. outside })
  start-IsOwned = record { owner = λ i e. cc; owned = λ p. absurd (omega (arith, p)) }

  Step-IsOwned : {s t : System} → Step s t → IsOwned s → IsOwned t
  Step-IsOwned {s} (pick i lock p e t) v = rw t (record {
    owner = λ j h. elim (Bool-cases (j == i)) [
      | inl k ↦ ground (arith, access, (==_iff j i).0 k, v.owner i)
      | inr k ↦ ground (arith, access, v.owner i, v.owner j, tid_injective j i, tid_pos j)
    ];
    owned = λ q. elim access [
      | inl same ↦
          let (j, l, h) = v.owned (omega (arith, q, same)) in
          (j, omega (arith, l, same), ground (arith, h, same))
      | inr (inl took) ↦ (i, took.1, ground (arith, took))
      | inr (inr gave) ↦ absurd (omega (arith, q, gave))
    ];
  })
    where
      access : Access (tid i) s.lock (s.pc i) lock p
      access = advance-Access count_max (tid i) s.lock lock (s.pc i) p e

  pub Reach-IsOwned : {s : System} → Reach s → IsOwned s
  Reach-IsOwned start = start-IsOwned
  Reach-IsOwned (next r st) = Step-IsOwned st (Reach-IsOwned r)

  -- However the threads are interleaved, two never hold the lock at once.
  pub mutual_exclusion :
      {s : System} → Reach s → (i j : ℕ) → holds (s.pc i) ≡ true → holds (s.pc j) ≡ true → i ≡ j
  mutual_exclusion r i j h k =
      tid_injective i j (omega (arith, (Reach-IsOwned r).owner i h, (Reach-IsOwned r).owner j k))

  -- In every reachable state each thread can make its next access: the assertion of sxe_spinlock_give
  -- does not fail, and where the lock is free a spinning thread that has yields left takes it.
  pub advance_total :
      {s : System}
      → Reach s
      → (i : ℕ)
      → (lock : ℕ) × (p : Pc) × (advance count_max (tid i) s.lock (s.pc i) ≡ some (lock, p))
        × ((count : ℕ)
            → s.pc i ≡ spinning count
            → count < count_max
            → ((j : ℕ) → holds (s.pc j) ≡ false)
            → (lock ≡ tid i) × (p ≡ holding))
  advance_total {s} r i =
      let (lock, p, e, takes) = next_access count_max (tid i) s.lock (s.pc i) (v.owner i) in
      (lock, p, e, (λ count k l f. takes count k l (free f)))
    where
      v : IsOwned s
      v = Reach-IsOwned r

      free : ((j : ℕ) → holds (s.pc j) ≡ false) → s.lock ≡ 0
      free f = elim (Bool-cases (ltb 0 s.lock)) [
        | inl e ↦ let (j, l, h) = v.owned (ltb→lt 0 s.lock e) in absurd (ground (arith, h, f j))
        | inr e ↦ ground arith
      ]
