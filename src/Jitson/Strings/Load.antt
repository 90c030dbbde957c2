-- ===== src/Jitson/Strings/Load.antt =====
-- Strings of lib-sxe-jitson/sxe-jitson-stack.c that are loaded, and the ones that are written behind their tokens.
use libsxe.Base.{
  ℕ, suc, ◌+◌, ◌/◌, ◌≤◌, ◌≡◌, refl, ap, ◌∙◌, Bool, true, List, [], ◌∷◌, ◌++◌, arith, length, set,
  replicate, length-set,
}
use libsxe.Jitson.{raw, string, Stack, set_token}
use libsxe.Jitson.Source.{Source, behind}
use libsxe.Jitson.Text.{loaded, string_loop, start_string, load_string}
use libsxe.Jitson.Consume.{left}
use libsxe.Jitson.Expand.{IsStack, expand-Grown, expand_total}
use libsxe.Jitson.Strings.Escapes.{Moved, Moved-trans, behind-Moved}
use libsxe.Jitson.Strings.Tokens.{set-middle, Whole}
use libsxe.Jitson.Strings.Loop.{Spelled, string_loop-Spelled, string_loop-quote}

module _ (can_allocate : ℕ → Bool) where
  -- The stack at the start of a string.
  started :
      (st : Stack) (s : Source) (key : Bool)
      → ((n : ℕ) → can_allocate n ≡ true)
      → IsStack st
      → (st' : Stack) × (load_string can_allocate st s key
          ≡ string_loop can_allocate (suc (left s)) (length st.tokens) st' s)
        × Whole st.tokens key [] st'
  unfolding load_string start_string
  started st s key total v =
      let r = expand_total can_allocate st 1 total in
      let g = expand-Grown can_allocate st r.0 1 v r.1 in
      let st' = set_token r.0 (length st.tokens) (string key []) in
      let tokens : st'.tokens ≡ st.tokens ++ string key [] ∷ [] =
        ap (λ l. set l (length st.tokens) (string key [])) g.tokens
        ∙ set-middle st.tokens [] raw (string key []) in
      let fits : length st'.tokens ≤ st'.maximum =
        omega (arith, g.is_stack.fits, length-set r.0.tokens (length st.tokens) (string key [])) in
      (
        st',
        rw r.1 refl,
        record { tokens = tokens; is_stack = record { maximum = g.is_stack.maximum; fits = fits } },
      )

  -- A string whose characters are spelled in any of the ways that JSON has, at places that `fits` allows, is
  -- loaded as a token with its bytes and as many more as it wants, and what stands behind its quote is left,
  -- when all memory is there that is asked for.
  pub load_string-Spelled :
      (st : Stack) (s : Source) (key : Bool) (t ws rest : List ℕ)
      → ((n : ℕ) → can_allocate n ≡ true)
      → IsStack st
      → Spelled 0 t ws
      → s.rest ≡ t ++ 34 ∷ rest
      → (st' : Stack) × (s' : Source) × (load_string can_allocate st s key ≡ loaded st' s')
        × (st'.tokens ≡ st.tokens ++ string key ws ∷ replicate ((length ws + 8) / 16) raw)
        × IsStack st'
        × Moved s s' rest
  load_string-Spelled st s key t ws rest total v sp e =
      let a = started st s key total v in
      let b =
        string_loop-Spelled can_allocate total st.tokens key sp (suc (left s)) a.0 s [] (34 ∷ rest)
          refl a.2 e (omega arith) in
      let q =
        string_loop-quote can_allocate total st.tokens key b.0 b.1 b.2 ws rest b.4 b.5.rest b.6 in
      (
        b.1,
        behind b.2 34 rest,
        a.1 ∙ b.3 ∙ q,
        b.4.tokens,
        b.4.is_stack,
        Moved-trans b.5 (behind-Moved b.2 34 rest),
      )
