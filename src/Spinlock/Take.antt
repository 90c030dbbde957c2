-- ===== src/Spinlock/Take.antt =====
-- A call of sxe_spinlock_take of lib-sxe-mmap/sxe-spinlock.h, against what other threads do to the word.
use libsxe.Base.{
  ℕ, zero, suc, ◌+◌, ◌≤◌, ◌<◌, ◌≡◌, ◌≢◌, ◌==◌, if◌then◌else◌, arith, Bool-cases, inl, inr,
}
use libsxe.Spinlock.{Status, not_taken, taken, already_taken, again, done, take_round}

-- The whole loop with `left` yields left: `seen k` is the word at the exchange of round `k`.
unfoldable pub take_loop : ℕ → ℕ → (ℕ → ℕ) → ℕ → ℕ → Status
take_loop count_max our_tid seen zero count = not_taken
take_loop count_max our_tid seen (suc left) count =
    elim (take_round count_max our_tid (seen count) count).1 [
      | again count' ↦ take_loop count_max our_tid seen left count'
      | done status ↦ status
    ]

-- sxe_spinlock_take: the count rises in each round, so one round more than the maximum is enough.
unfoldable pub take : ℕ → ℕ → (ℕ → ℕ) → Status
take count_max our_tid seen = take_loop count_max our_tid seen (count_max + 1) 0

-- Another thread holds the lock in the rounds from `first` on, up to `last`.
abbrev pub BusyFrom : ℕ → (ℕ → ℕ) → ℕ → ℕ → Type 0
BusyFrom our_tid seen first last =
    (k : ℕ) → first ≤ k → k < last → (seen k ≢ 0) × (seen k ≢ our_tid)

take_loop_stops :
    (count_max our_tid : ℕ) (seen : ℕ → ℕ) (left count stop : ℕ)
    → BusyFrom our_tid seen count stop
    → count ≤ stop
    → stop ≤ count_max
    → count_max < count + left
    → take_loop count_max our_tid seen left count ≡ (
        if stop == count_max
        then not_taken
        else if seen stop == 0
        then taken
        else if seen stop == our_tid
        then already_taken
        else take_loop count_max our_tid seen left count)
unfolding take_loop take_round
take_loop_stops count_max our_tid seen zero count stop b p q r = ground arith
take_loop_stops count_max our_tid seen (suc left) count stop b p q r =
    elim (Bool-cases (count == stop)) [
      | inl e ↦ ground arith
      | inr e ↦ ground (
        arith,
        b count (omega arith) (ground arith),
        take_loop_stops count_max our_tid seen left (count + 1) stop
            (λ k l m. b k (omega (arith, l)) m) (ground arith) q (omega arith),
      )
    ]

-- A call of sxe_spinlock_take ends, after at most the maximum of yields: it takes the lock in the first
-- round that finds it free, returns ALREADY_TAKEN in the first round that finds the caller's own id, and
-- NOT_TAKEN where another thread holds the lock in all rounds up to the maximum.
pub take_lem :
    (count_max our_tid : ℕ) (seen : ℕ → ℕ) (stop : ℕ)
    → 0 < our_tid
    → stop ≤ count_max
    → BusyFrom our_tid seen 0 stop
    → (stop ≡ count_max → take count_max our_tid seen ≡ not_taken)
      × (stop < count_max → seen stop ≡ 0 → take count_max our_tid seen ≡ taken)
      × (stop < count_max → seen stop ≡ our_tid → take count_max our_tid seen ≡ already_taken)
unfolding take
take_lem count_max our_tid seen stop p l b =
    let stops =
      take_loop_stops count_max our_tid seen (count_max + 1) 0 stop b (omega arith) l
        (omega arith) in
    (
      (λ e. ground (arith, stops, e)),
      (λ m e. ground (arith, stops, e, m)),
      (λ m e. ground (arith, stops, e, m)),
    )
