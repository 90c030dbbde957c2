-- ===== src/Spinlock/Tests.antt =====
-- Two threads with the ids 1 and 2, and one yield at most.
use libsxe.Base.{ℕ, suc, ◌<◌, ◌≡◌, refl, false, some, ◌==◌, arith, if◌then◌else◌}
use libsxe.Spinlock.{not_taken, taken, already_taken, take_round, force}
use libsxe.Spinlock.Take.{take, take_loop, take_lem}
use libsxe.Spinlock.System.{
  Pc, outside, spinning, holding, holds, advance, update, System, pick, Reach, start, next,
  mutual_exclusion, advance_total,
}

forced : force 7 9 ≡ 9
unfolding force
forced = refl

-- The word is another's in round 0 and free in round 1.
abbrev freed : ℕ → ℕ
freed k = if k == 0 then 2 else 0

take_values :
    (take 5 1 freed ≡ taken) × (take 1 1 freed ≡ not_taken) × (take 5 2 freed ≡ already_taken)
unfolding take take_loop take_round
take_values = (refl, refl, refl)

abbrev stop : ℕ
stop = 1

take_lem_example :
    (stop ≡ 5 → take 5 1 freed ≡ not_taken)
    × (1 < 5 → freed 1 ≡ 0 → take 5 1 freed ≡ taken)
    × (1 < 5 → freed 1 ≡ 1 → take 5 1 freed ≡ already_taken)
take_lem_example =
    take_lem 5 1 freed 1 (omega arith) (omega arith)
      (λ k p q. (ground (arith, p, q), ground (arith, p, q)))

abbrev first : System
first = record { lock = 0; pc = λ i. outside }

abbrev second : System
second = record { lock = 0; pc = update first.pc 0 (spinning 0) }

abbrev third : System
third = record { lock = 1; pc = update second.pc 0 holding }

abbrev fourth : System
fourth = record { lock = 1; pc = update third.pc 1 (spinning 0) }

suc_injective : (i j : ℕ) → suc i ≡ suc j → i ≡ j
suc_injective i j e = omega (arith, e)

abbrev Reached : System → Type 0
Reached = Reach 1 suc (λ i. omega arith) suc_injective

fourth-Reached : Reached fourth
unfolding advance take_round
fourth-Reached =
    next (next (next start (pick 0 0 (spinning 0) refl refl)) (pick 0 1 holding refl refl))
      (pick 1 1 (spinning 0) refl refl)

mutual_exclusion_example : ◌≡◌ {A = ℕ} 0 0
mutual_exclusion_example =
    mutual_exclusion 1 suc (λ i. omega arith) suc_injective fourth-Reached 0 0 refl refl

advance_total_example :
    (lock : ℕ) × (p : Pc) × (advance 1 2 1 (spinning 0) ≡ some (lock, p))
    × ((count : ℕ)
        → spinning 0 ≡ spinning count
        → count < 1
        → ((j : ℕ) → holds (fourth.pc j) ≡ false)
        → (lock ≡ 2) × (p ≡ holding))
advance_total_example = advance_total 1 suc (λ i. omega arith) suc_injective fourth-Reached 1
