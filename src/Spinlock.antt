-- ===== src/Spinlock.antt =====
-- lib-sxe-mmap/sxe-spinlock.h: a lock in one word, which holds the thread id of its owner, or 0.
pub mod System
pub mod Take
mod Tests
use libsxe.Base.{
  ℕ, zero, suc, ◌+◌, ◌-◌, Bool, true, false, Option, none, some, ◌==◌, ltb, leb, if◌then◌else◌,
}

-- InterlockedCompareExchange: the word afterwards, and the word that was there.
unfoldable pub compare_exchange : ℕ → ℕ → ℕ → ℕ × ℕ
compare_exchange lock exchange comperand = (if lock == comperand then exchange else lock, lock)

pub data Status : Type 0 where
  not_taken : Status
  taken : Status
  already_taken : Status

abbrev pub construct : ℕ
construct = 0

-- sxe_spinlock_force: both exchanges, the inner one first.
unfoldable pub force : ℕ → ℕ → ℕ
unfolding compare_exchange
force lock tid =
    let (lock', old) = compare_exchange lock tid tid in (compare_exchange lock' tid old).0

-- What a round of the loop of sxe_spinlock_take comes to: it goes on with a count, or it returns.
pub data Round : Type 0 where
  again : ℕ → Round
  done : Status → Round

-- One round, with `count` yields made so far: the word afterwards, and how it goes on. The test of the
-- count behind the loop is made where the loop ends.
unfoldable pub take_round : ℕ → ℕ → ℕ → ℕ → ℕ × Round
unfolding compare_exchange
take_round count_max our_tid lock count =
    let (lock', old_tid) = compare_exchange lock our_tid 0 in
    if leb count_max count
    then (lock, done not_taken)
    else if old_tid == 0
    then (lock', done taken)
    else if old_tid == our_tid
    then (lock', done already_taken)
    else (lock', again (count + 1))

-- sxe_spinlock_give: `none` is the failed assertion.
unfoldable pub give : ℕ → ℕ → Option ℕ
unfolding compare_exchange
give lock our_tid =
    let (lock', old_tid) = compare_exchange lock 0 our_tid in
    if old_tid == our_tid then some lock' else none
