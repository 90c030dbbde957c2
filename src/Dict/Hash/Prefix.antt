-- ===== src/Dict/Hash/Prefix.antt =====
-- `meiyan` reads the first `count` bytes of the key and no other.
use Prim.Native.Nat.{◌^◌}
use libsxe.Base.{
  ℕ, zero, suc, ◌+◌, ◌-◌, ◌*◌, ◌/◌, ◌%◌, ◌≤◌, ◌<◌, ◌≡◌, refl, sym, ap, ap₂, ◌∙◌, ◌⊎◌, inl, inr,
  List, [], ◌∷◌, bit_xor, ◌==◌, if◌then◌else◌, Bool-cases, arith, get_or, take, drop,
}
use libsxe.Dict.Hash.{word16, word32, blocks, four, two, one, after_four, after_two, rest, meiyan}

byte-take : (n i : ℕ) (key : List ℕ) → i < n → get_or (take n key) i 0 ≡ get_or key i 0
byte-take zero i key h = absurd (omega arith)
byte-take (suc n) i [] h = refl
byte-take (suc n) zero (b ∷ key) h = refl
byte-take (suc n) (suc i) (b ∷ key) h = byte-take n i key (omega arith)

take-nil : (n : ℕ) → take {A = ℕ} n [] ≡ []
take-nil zero = refl
take-nil (suc n) = refl

drop-take : (m n : ℕ) (key : List ℕ) → m ≤ n → drop m (take n key) ≡ take (n - m) (drop m key)
drop-take zero n key h = ap (λ k. take k key) (omega arith)
drop-take (suc m) zero key h = absurd (omega arith)
drop-take (suc m) (suc n) [] h = sym (take-nil (suc n - suc m))
drop-take (suc m) (suc n) (b ∷ key) h =
    drop-take m n key (omega arith) ∙ ap (λ k. take k (drop m key)) (omega arith)

word16-take : (n i : ℕ) (key : List ℕ) → i + 1 < n → word16 (take n key) i ≡ word16 key i
unfolding word16
word16-take n i key h =
    ap₂ (λ a b. a + 256 * b) (byte-take n i key (omega arith)) (byte-take n (i + 1) key h)

word32-take : (n i : ℕ) (key : List ℕ) → i + 3 < n → word32 (take n key) i ≡ word32 key i
unfolding word32
word32-take n i key h =
    omega (arith, word16-take n i key (omega arith), word16-take n (i + 2) key (omega arith))

blocks-take : (k n h : ℕ) (key : List ℕ) → 8 * k ≤ n → blocks k h (take n key) ≡ blocks k h key
unfolding blocks
blocks-take zero n h key p = refl
blocks-take (suc k) n h key p =
    rw
      (
        word32-take n 0 key (omega arith),
        word32-take n 4 key (omega arith),
        drop-take 8 n key (omega arith),
      )
      (blocks-take k (n - 8) _ (drop 8 key) (omega arith))

-- Behind the blocks, at `m` bytes, `n` bytes are left.
module _ (count n h : ℕ) (key : List ℕ) where
  four-take : 4 ≤ n ⊎ (count / 4 % 2 ≡ 0) → four count h (take n key) ≡ four count h key
  unfolding four
  four-take p = elim (Bool-cases (count / 4 % 2 == 0)) [
    | inl e ↦ rw e refl
    | inr e ↦ rw (e, word16-take n 0 key (ground arith), word16-take n 2 key (ground arith)) refl
  ]

  two-take : 2 ≤ n ⊎ (count / 2 % 2 ≡ 0) → two count h (take n key) ≡ two count h key
  unfolding two
  two-take p = elim (Bool-cases (count / 2 % 2 == 0)) [
    | inl e ↦ rw e refl
    | inr e ↦ rw (e, word16-take n 0 key (ground arith)) refl
  ]

  one-take : 1 ≤ n ⊎ (count % 2 ≡ 0) → one count h (take n key) ≡ one count h key
  unfolding one
  one-take p = elim (Bool-cases (count % 2 == 0)) [
    | inl e ↦ rw e refl
    | inr e ↦ rw (e, byte-take n 0 key (ground arith)) refl
  ]

-- The bytes that are left behind the first test, and behind the second.
left_four : ℕ → ℕ → ℕ
left_four count n = if count / 4 % 2 == 0 then n else n - 4

left_two : ℕ → ℕ → ℕ
left_two count n = if count / 2 % 2 == 0 then n else n - 2

left_bounds :
    (count : ℕ)
    → (4 ≤ count % 8 ⊎ (count / 4 % 2 ≡ 0))
      × (2 ≤ left_four count (count % 8) ⊎ (count / 2 % 2 ≡ 0))
      × (1 ≤ left_two count (left_four count (count % 8)) ⊎ (count % 2 ≡ 0))
unfolding left_four left_two
left_bounds count = ground arith

after_four-take :
    (count n : ℕ) (key : List ℕ)
    → 4 ≤ n ⊎ (count / 4 % 2 ≡ 0)
    → after_four count (take n key) ≡ take (left_four count n) (after_four count key)
unfolding after_four left_four
after_four-take count n key p = elim (Bool-cases (count / 4 % 2 == 0)) [
  | inl e ↦ rw e refl
  | inr e ↦ rw e (drop-take 4 n key (ground arith))
]

after_two-take :
    (count n : ℕ) (key : List ℕ)
    → 2 ≤ n ⊎ (count / 2 % 2 ≡ 0)
    → after_two count (take n key) ≡ take (left_two count n) (after_two count key)
unfolding after_two left_two
after_two-take count n key p = elim (Bool-cases (count / 2 % 2 == 0)) [
  | inl e ↦ rw e refl
  | inr e ↦ rw e (drop-take 2 n key (ground arith))
]

rest-take : (count h : ℕ) (key : List ℕ) → rest count h (take (count % 8) key) ≡ rest count h key
unfolding rest
rest-take count h key =
    let (b4, b2, b1) = left_bounds count in
    rw
      (
        after_four-take count (count % 8) key b4,
        four-take count (count % 8) h key b4,
        two-take count (left_four count (count % 8)) (four count h key) (after_four count key) b2,
        after_two-take count (left_four count (count % 8)) (after_four count key) b2,
      )
      (one-take count (left_two count (left_four count (count % 8))) _
        (after_two count (after_four count key)) b1)

-- The hash of a key is that of its first `count` bytes, whatever stands behind them.
pub meiyan-take : (key : List ℕ) (count : ℕ) → meiyan (take count key) count ≡ meiyan key count
unfolding meiyan
meiyan-take key count = ap (λ h. bit_xor h (h / 2 ^ 16)) same
  where
    left : count - (count - count % 8) ≡ count % 8
    left = omega arith

    same :
        rest count
          (blocks (count / 8) 0x811c9dc5 (take count key))
          (drop (count - count % 8) (take count key))
        ≡ rest count (blocks (count / 8) 0x811c9dc5 key) (drop (count - count % 8) key)
    same =
        rw
          (
            blocks-take (count / 8) count 0x811c9dc5 key (omega arith),
            drop-take (count - count % 8) count key (omega arith),
            left,
          )
          (rest-take count _ (drop (count - count % 8) key))
