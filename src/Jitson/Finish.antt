-- ===== src/Jitson/Finish.antt =====
-- What each part of the parser of lib-sxe-jitson/sxe-jitson-stack.c comes to, for all texts.
pub mod Strings
pub mod Collections
pub mod Scalars
pub mod Values
use libsxe.Base.{
  ℕ, zero, suc, ◌+◌, ◌≤◌, ◌<◌, ◌≡◌, refl, sym, ap, ◌∙◌, Bool, true, false, List, [], ◌∷◌, ◌++◌,
  Option, none, some, arith, length, take,
}
use libsxe.Jitson.{Token, Stack, expand, truncate, write_bytes}
use libsxe.Jitson.Source.{Source}
use libsxe.Jitson.Text.{Outcome, loaded, failed, aborted, overflowed, unfinished, Errno}
use libsxe.Jitson.Load.{fail_at, or_discard}
use libsxe.Jitson.Consume.{left}
use libsxe.Jitson.Expand.{IsStack}
use libsxe.Jitson.Frame.{Built, Built-trans, truncate-Built, expand-Built, write_bytes-Built}

-- A part of the parser that builds on the tokens `base` ends: with the new tokens behind them and at most `n`
-- bytes of the text left, or with just them, or it is stopped at a failed assertion or a write behind the
-- last token.
abbrev pub Fine : List Token → ℕ → Outcome → Type 0
Fine base n (loaded st s) = Built base st × (left s ≤ n)
Fine base n (failed e st s) = (st.tokens ≡ base) × IsStack st
Fine base n aborted = Unit
Fine base n overflowed = Unit
Fine base n unfinished = ⊥

-- A stack, if there is one.
abbrev pub Room : List Token → Option Stack → Type 0
Room base none = Unit
Room base (some st) = Built base st

room :
    {base : List Token} (o : Option Stack)
    → ((st : Stack) → o ≡ some st → Built base st)
    → Room base o
room none h = tt
room (some st) h = h st refl

module _ {base : List Token} {st : Stack} where
  pub expand-Room :
      (can_allocate : ℕ → Bool) (more : ℕ) → Built base st → Room base (expand can_allocate st more)
  expand-Room can_allocate more b =
      room (expand can_allocate st more) (λ st' e. expand-Built can_allocate more st' b e)

  pub write_bytes-Room : (bs : List ℕ) → Built base st → Room base (write_bytes st (length base) bs)
  write_bytes-Room bs b =
      room (write_bytes st (length base) bs)
        (λ st' e. write_bytes-Built (length base) bs st' (omega arith) b e)

  pub fail_at-Fine :
      (e : Errno) (n : ℕ) (s : Source) → Built base st → Fine base n (fail_at e (length base) st s)
  fail_at-Fine e n s b = let t = truncate-Built b in (b.kept, t.is_stack)

-- What ends well with few bytes left does with more.
pub Fine-le : (base : List Token) (m n : ℕ) (o : Outcome) → m ≤ n → Fine base m o → Fine base n o
Fine-le base m n (loaded st s) h (b, l) = (b, omega (arith, l, h))
Fine-le base m n (failed e st s) h f = f
Fine-le base m n aborted h f = f
Fine-le base m n overflowed h f = f
Fine-le base m n unfinished h f = f

-- A continuation that ends well from less than `m` bytes left.
abbrev pub Continues : List Token → ℕ → ℕ → (Stack → Source → Outcome) → Type 0
Continues base m n next =
    (st : Stack) (s : Source) → Built base st → left s < m → Fine base n (next st s)

-- A value on the stack, and what follows it.
pub or_discard-Fine :
    (base : List Token) (st : Stack) (m n : ℕ) (next : Stack → Source → Outcome) (o : Outcome)
    → Built base st
    → Fine st.tokens m o
    → Continues base (suc m) n next
    → Fine base n (or_discard next (length base) o)
unfolding or_discard
or_discard-Fine base st m n next (loaded st' s) b f k =
    k st' s (Built-trans b f.0) (omega (arith, f.1))
or_discard-Fine base st m n next (failed e st' s) b f k =
    let kept : take (length base) st'.tokens ≡ base = ap (take (length base)) f.0 ∙ b.kept in
    fail_at-Fine e n s (record { kept = kept; is_stack = f.1 })
or_discard-Fine base st m n next aborted b f k = tt
or_discard-Fine base st m n next overflowed b f k = tt
or_discard-Fine base st m n next unfinished b f k = absurd f
