-- ===== src/Base/Range.antt =====
-- A test over the entries of a table, run by evaluation.
use Prim.Native.Nat.{ℕ, zero, suc, ◌<◌}
use mathlib.Core.Path.{◌≡◌}
use mathlib.Core.Logic.{inl, inr}
use mathlib.Core.Bool.{Bool, true, false}
use native.Mathlib.Omega.{arith}
use libsxe.Base.Tests.{if◌then◌else◌, Bool-cases}

unfoldable pub entries_pass : (ℕ → Bool) → ℕ → Bool
entries_pass good zero = true
entries_pass good (suc last) = if entries_pass good last then good last else false

pub entries_pass-entry :
    (good : ℕ → Bool) (size : ℕ)
    → entries_pass good size ≡ true
    → (entry : ℕ) → entry < size
    → good entry ≡ true
unfolding entries_pass
entries_pass-entry good zero pass entry below = absurd (omega arith)
entries_pass-entry good (suc last) pass entry below = elim (Bool-cases (entries_pass good last)) [
  | inl earlier ↦ ground (arith, entries_pass-entry good last earlier entry)
  | inr failed ↦ ground arith
]
