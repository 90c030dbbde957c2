-- ===== src/Jitson/Expand.antt =====
-- sxe_jitson_stack_expand of lib-sxe-jitson/sxe-jitson-stack.c.
use libsxe.Base.{
  ℕ, ◌+◌, ◌-◌, ◌*◌, ◌/◌, ◌≤◌, ◌<◌, ◌≡◌, refl, ap, sym, ◌∙◌, Bool, true, false, ◌||◌, List, ◌++◌,
  some, ltb, if◌then◌else◌, Bool-cases, inl, inr, arith, length, replicate, length-append,
  length-replicate,
}
use native.Mathlib.Nat.{div-add-mod', mod-lt}
use libsxe.Jitson.{Token, raw, Stack, max_incr, reserved, new_maximum, expand}

-- Rounded up to a multiple of a positive number.
round_up : (n m : ℕ) → 0 < m → n ≤ ((n - 1) / m + 1) * m
round_up n m p = omega (arith, div-add-mod' (n - 1) m, mod-lt (n - 1) p)

round_up_pos : (n m : ℕ) → 0 < m → 0 < (n / m + 1) * m
round_up_pos n m p = omega (arith, p)

-- The tokens of a stack fit in what is allocated.
pub record IsStack (st : Stack) : Type 0 where
  pub maximum : 0 < st.maximum
  pub fits : length st.tokens ≤ st.maximum

-- A stack that has more tokens.
pub record Grown (st : Stack) (more : List Token) (st' : Stack) : Type 0 where
  pub tokens : st'.tokens ≡ st.tokens ++ more
  pub open_at : st'.open_at ≡ st.open_at
  pub is_stack : IsStack st'

module _ (can_allocate : ℕ → Bool) where
  new_maximum_lem :
      (maximum expanded : ℕ)
      → 0 < maximum
      → (expanded ≤ new_maximum can_allocate maximum expanded)
        × (0 < new_maximum can_allocate maximum expanded)
  unfolding new_maximum
  new_maximum_lem maximum expanded p = elim (Bool-cases (ltb expanded max_incr)) [
    | inl e ↦ rw e (round_up expanded maximum p, round_up_pos (expanded - 1) maximum p)
    | inr e ↦ rw e (
      round_up expanded max_incr (omega arith),
      round_up_pos (expanded - 1) max_incr (omega arith),
    )
  ]

  expanded_length :
      (st : Stack) (more : ℕ) → length (st.tokens ++ replicate more raw) ≡ length st.tokens + more
  expanded_length st more =
      omega
        (arith, length-append st.tokens (replicate more raw), length-replicate {A = Token} more raw)

  expanded_Grown :
      (st st' : Stack) (more maximum : ℕ) (enough : Bool)
      → 0 < maximum
      → length st.tokens + more ≤ maximum
      → reserved enough (record st {
        maximum = maximum;
        allocated = true;
        tokens = st.tokens ++ replicate more raw;
      })
        ≡ some st'
      → Grown st (replicate more raw) st'
  unfolding reserved
  expanded_Grown st st' more maximum false p f e = absurd cc
  expanded_Grown st st' more maximum true p f e =
      let full = record st {
        maximum = maximum;
        allocated = true;
        tokens = st.tokens ++ replicate more raw;
      } in
      let same : full ≡ st' = cc in
      rw (sym same) (record {
        tokens = refl;
        open_at = refl;
        is_stack = record { maximum = p; fits = omega (arith, f, expanded_length st more) };
      })

  expand-branch :
      (st : Stack) (more : ℕ) (b : Bool)
      → ltb st.maximum (length st.tokens + more) ≡ b
      → expand can_allocate st more ≡ (
          if b
          then reserved
              (can_allocate (new_maximum can_allocate st.maximum (length st.tokens + more)))
              (record st {
                maximum = new_maximum can_allocate st.maximum (length st.tokens + more);
                allocated = true;
                tokens = st.tokens ++ replicate more raw;
              })
          else reserved
              (st.allocated || can_allocate st.maximum)
              (record st { allocated = true; tokens = st.tokens ++ replicate more raw }))
  unfolding expand
  expand-branch st more b e = rw e refl

  -- What is expanded has as many new tokens as are wanted, all of them inside what is allocated.
  pub expand-Grown :
      (st st' : Stack) (more : ℕ)
      → IsStack st
      → expand can_allocate st more ≡ some st'
      → Grown st (replicate more raw) st'
  expand-Grown st st' more v e = elim (Bool-cases (ltb st.maximum (length st.tokens + more))) [
    | inl b ↦
        let size = new_maximum_lem st.maximum (length st.tokens + more) v.maximum in
        let maximum = new_maximum can_allocate st.maximum (length st.tokens + more) in
        expanded_Grown st st' more maximum (can_allocate maximum) size.1 size.0
          (sym (expand-branch st more true b) ∙ e)
    | inr b ↦
        expanded_Grown st st' more st.maximum (st.allocated || can_allocate st.maximum) v.maximum
          (ground (arith, b)) (sym (expand-branch st more false b) ∙ e)
  ]

  or_true : (a b : Bool) → b ≡ true → (a || b) ≡ true
  or_true true b e = refl
  or_true false b e = e

  -- Where all memory is there that is asked for, it does not fail.
  pub expand_total :
      (st : Stack) (more : ℕ)
      → ((n : ℕ) → can_allocate n ≡ true)
      → (st' : Stack) × (expand can_allocate st more ≡ some st')
  unfolding reserved
  expand_total st more a = elim (Bool-cases (ltb st.maximum (length st.tokens + more))) [
    | inl b ↦
        let maximum = new_maximum can_allocate st.maximum (length st.tokens + more) in
        (
          record st {
            maximum = maximum;
            allocated = true;
            tokens = st.tokens ++ replicate more raw;
          },
          expand-branch st more true b
              ∙ ap
                  (λ x. reserved x (record st {
                    maximum = maximum;
                    allocated = true;
                    tokens = st.tokens ++ replicate more raw;
                  }))
                  (a maximum),
        )
    | inr b ↦ (
      record st { allocated = true; tokens = st.tokens ++ replicate more raw },
      expand-branch st more false b
          ∙ ap
              (λ x.
                reserved x
                  (record st { allocated = true; tokens = st.tokens ++ replicate more raw }))
              (or_true st.allocated (can_allocate st.maximum) (a st.maximum)),
    )
  ]
