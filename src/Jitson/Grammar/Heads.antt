-- ===== src/Jitson/Grammar/Heads.antt =====
-- The token of a value of lib-sxe-jitson/sxe-jitson-stack.c, with what is below it and what is behind it.
use libsxe.Base.{
  suc, ◌-◌, ◌≡◌, ap, ◌∙◌, List, ◌∷◌, ◌++◌, arith, length, length-append, length-set, append_assoc,
}
use libsxe.Jitson.{Token, Stack, token_at, set_token, count_one, with_size, add_one, close_at}
use libsxe.Jitson.Expand.{IsStack}
use libsxe.Jitson.Strings.Tokens.{get_or-middle, set-middle}

pub record HeadAt (base : List Token) (t : Token) (behind : List Token) (st : Stack) : Type 0 where
  pub tokens : st.tokens ≡ base ++ t ∷ behind
  pub is_stack : IsStack st

module _ {base : List Token} {t : Token} {behind : List Token} {st : Stack}
    (p : HeadAt base t behind st) where
  pub set-HeadAt : (t' : Token) → HeadAt base t' behind (set_token st (length base) t')
  set-HeadAt t' = record {
    tokens = rw p.tokens (set-middle base behind t t');
    is_stack = record {
      maximum = p.is_stack.maximum;
      fits = omega (arith, p.is_stack.fits, length-set st.tokens (length base) t');
    };
  }

  pub HeadAt_token : token_at st (length base) ≡ t
  HeadAt_token = rw p.tokens (get_or-middle base behind t Token.raw)

  -- A value behind it.
  pub more-HeadAt :
      {st' : Stack} (more : List Token)
      → st'.tokens ≡ st.tokens ++ more
      → IsStack st'
      → HeadAt base t (behind ++ more) st'
  more-HeadAt {st'} more e v = record {
    tokens = e ∙ ap (λ l. l ++ more) p.tokens ∙ append_assoc base (t ∷ behind) more;
    is_stack = v;
  }

  pub add_one-HeadAt : HeadAt base (count_one t) behind (add_one st (length base))
  add_one-HeadAt = rw HeadAt_token (set-HeadAt (count_one t))

  pub close_at-HeadAt :
      HeadAt base (with_size (suc (length behind)) t) behind (close_at st (length base))
  close_at-HeadAt =
      let size : length st.tokens - length base ≡ suc (length behind) =
        omega (arith, ap length p.tokens, length-append base (t ∷ behind)) in
      rw (HeadAt_token, size) (set-HeadAt (with_size (suc (length behind)) t))

pub HeadAt-at :
    {base : List Token} {t t' : Token} {l l' : List Token} {st : Stack}
    → t ≡ t'
    → l ≡ l'
    → HeadAt base t l st
    → HeadAt base t' l' st
HeadAt-at {base} {t} {t'} {l} {l'} e f p = record {
  tokens = p.tokens ∙ ap (λ x. base ++ x ∷ l) e ∙ ap (λ x. base ++ t' ∷ x) f;
  is_stack = p.is_stack;
}
