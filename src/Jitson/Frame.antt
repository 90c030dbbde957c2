-- ===== src/Jitson/Frame.antt =====
-- The tokens of lib-sxe-jitson/sxe-jitson-stack.c that stand below the value that is built.
use libsxe.Base.{
  ℕ, zero, suc, ◌+◌, ◌≤◌, ◌≡◌, refl, ap, sym, ◌∙◌, Bool, List, [], ◌∷◌, some, leb, Bool-cases, inl,
  inr, arith, length, take, set, length-take, length-set, take_all, take-take, take-append_le,
}
use libsxe.Jitson.{
  Token, Stack, expand, truncate, token_at, set_token, capacity, append_bytes, bytes_of,
  write_bytes,
}
use libsxe.Jitson.Expand.{IsStack, Grown, expand-Grown}

module _ {A : Type 0} where
  take-set : (k i : ℕ) (xs : List A) (v : A) → k ≤ i → take k (set xs i v) ≡ take k xs
  take-set zero i xs v h = refl
  take-set (suc k) i [] v h = refl
  take-set (suc k) zero (x ∷ xs) v h = absurd (omega (arith, h))
  take-set (suc k) (suc i) (x ∷ xs) v h = ap (◌∷◌ x) (take-set k i xs v (omega (arith, h)))

  take-take_le : (k m : ℕ) (xs : List A) → k ≤ m → take k (take m xs) ≡ take k xs
  take-take_le zero m xs h = refl
  take-take_le (suc k) zero xs h = absurd (omega (arith, h))
  take-take_le (suc k) (suc m) [] h = refl
  take-take_le (suc k) (suc m) (x ∷ xs) h = ap (◌∷◌ x) (take-take_le k m xs (omega (arith, h)))

-- A stack whose first tokens are `base`.
pub record Built (base : List Token) (st : Stack) : Type 0 where
  pub kept : take (length base) st.tokens ≡ base
  pub is_stack : IsStack st

module _ {base : List Token} {st : Stack} where
  pub Built-length : Built base st → length base ≤ length st.tokens
  Built-length b = omega (arith, ap length b.kept, length-take (length base) st.tokens)

  -- More tokens, with what is allocated.
  Grown-Built :
      {st' : Stack} {more : List Token} → Built base st → Grown st more st' → Built base st'
  Grown-Built {st'} {more} b g = record {
    kept = rw g.tokens (take-append_le (length base) st.tokens more (Built-length b) ∙ b.kept);
    is_stack = g.is_stack;
  }

  pub set-Built :
      (i : ℕ) (t : Token) → length base ≤ i → Built base st → Built base (set_token st i t)
  set-Built i t h b = record {
    kept = take-set (length base) i st.tokens t h ∙ b.kept;
    is_stack = record {
      maximum = b.is_stack.maximum;
      fits = omega (arith, b.is_stack.fits, length-set st.tokens i t);
    };
  }

  pub truncate-Built : Built base st → Built base (truncate st (length base))
  truncate-Built b = record {
    kept = take-take (length base) st.tokens ∙ b.kept;
    is_stack = record {
      maximum = b.is_stack.maximum;
      fits = omega (arith, b.is_stack.fits, length-take (length base) st.tokens);
    };
  }

  pub expand-Built :
      (can_allocate : ℕ → Bool) (more : ℕ) (st' : Stack)
      → Built base st
      → expand can_allocate st more ≡ some st'
      → Built base st'
  expand-Built can_allocate more st' b e =
      Grown-Built b (expand-Grown can_allocate st st' more b.is_stack e)

  pub write_bytes-Built :
      (i : ℕ) (bs : List ℕ) (st' : Stack)
      → length base ≤ i
      → Built base st
      → write_bytes st i bs ≡ some st'
      → Built base st'
  unfolding write_bytes
  write_bytes-Built i bs st' h b e =
      let t = append_bytes (token_at st i) bs in
      elim (Bool-cases (leb (length (bytes_of (token_at st i)) + length bs) (capacity st i))) [
        | inl q ↦ let same : set_token st i t ≡ st' = cc in rw (sym same) (set-Built i t h b)
        | inr q ↦ absurd cc
      ]

  -- What is built on a stack leaves what is below that.
  pub Built-trans : {st' : Stack} → Built base st → Built st.tokens st' → Built base st'
  Built-trans {st'} b b' = record {
    kept =
        sym (take-take_le (length base) (length st.tokens) st'.tokens (Built-length b))
        ∙ ap (take (length base)) b'.kept
        ∙ b.kept;
    is_stack = b'.is_stack;
  }

pub Built-self : {st : Stack} → IsStack st → Built st.tokens st
Built-self {st} v = record {
  kept = take_all (length st.tokens) st.tokens (omega arith);
  is_stack = v;
}
