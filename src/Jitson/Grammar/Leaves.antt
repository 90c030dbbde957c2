-- ===== src/Jitson/Grammar/Leaves.antt =====
-- Values of lib-sxe-jitson/sxe-jitson-stack.c that hold no others, behind white space.
use libsxe.Base.{
  ℕ, suc, ◌+◌, ◌/◌, ◌≡◌, refl, ap, ◌∙◌, Bool, true, false, List, [], ◌∷◌, ◌++◌, ◌==◌, arith, length,
  take, length-take, take-append, replicate,
}
use libsxe.Jitson.{Token, raw, Stack, set_token, truncate}
use libsxe.Jitson.Source.{Source, behind, isspace, isdigit, identifier_char}
use libsxe.Jitson.Text.{loaded}
use libsxe.Jitson.Load.{
  Environment, Class, numeric, alphabetic, class_of, load_class, load_json, load_number, named,
}
use libsxe.Jitson.Expand.{IsStack}
use libsxe.Jitson.Strings.Escapes.{Moved, Moved-trans, behind-Moved}
use libsxe.Jitson.Strings.Loop.{Spelled}
use libsxe.Jitson.Strings.Load.{load_string-Spelled}
use libsxe.Jitson.Value.{string_tokens}
use libsxe.Jitson.Grammar.{Every, Stops, Blank, digit, Numeral, positive, negative}
use libsxe.Jitson.Grammar.Heads.{HeadAt}
use libsxe.Jitson.Grammar.Scalars.{Parsed, Parsed-from, load_json-first, back-Parsed, word-Parsed}

-- A text starts with a byte of this class.
pub data Starts (k : Class) : List ℕ → Type 0 where
  starts :
      {c : ℕ} {cs : List ℕ}
      → class_of c ≡ k
      → isspace c ≡ false
      → (c == 0) ≡ false
      → (c == 93) ≡ false
      → Starts k (c ∷ cs)

digit-Starts : (c : ℕ) (cs : List ℕ) → isdigit c ≡ true → Starts numeric (c ∷ cs)
unfolding class_of
digit-Starts c cs h =
    starts (ground (arith, h)) (ground (arith, h)) (ground (arith, h)) (ground (arith, h))

pub Numeral-Starts :
    {b : Bool} {t : List ℕ} (rest : List ℕ) → Numeral b t → Starts numeric (t ++ rest)
unfolding class_of
Numeral-Starts rest (positive {ds = ds} {t} (digit {c} {cs} h es) x) =
    digit-Starts c ((cs ++ t) ++ rest) h
Numeral-Starts rest (negative d x) = starts refl refl refl refl

module _ (env : Environment) (total : (n : ℕ) → env.can_allocate n ≡ true) where
  pub word_value :
      (t : Token) (c : ℕ) (cs : List ℕ)
      → Starts alphabetic (c ∷ cs)
      → Every identifier_char (c ∷ cs)
      → ((index : ℕ) (st : Stack) (s : Source)
          → named env index st (c ∷ cs, s) ≡ loaded (set_token st index t) s)
      → (f : ℕ) (st : Stack) (s : Source) (a rest : List ℕ) → IsStack st
      → Blank a
      → Stops identifier_char rest
      → s.rest ≡ a ++ (c ∷ cs ++ rest)
      → Parsed st.tokens (t ∷ []) s rest (load_json env (suc f) st s)
  unfolding load_class
  word_value t c cs (starts k n z q) w d f st s a rest v b h e =
      let x = load_json-first env total f st s a (cs ++ rest) c v b n z e in
      Parsed-from
        (x.2
          ∙ ap
              (load_class env (load_json env f) f (length st.tokens) x.0 c
                (behind x.1 c (cs ++ rest)))
              k)
        x.4
        (word-Parsed env total st.tokens x.0 x.3 t c cs rest x.1 w (d (length st.tokens) x.0) h
          x.4.rest)

  pub number_value :
      (t : Token) (f : ℕ) (st : Stack) (s : Source) (a u rest : List ℕ)
      → Starts numeric u
      → IsStack st
      → Blank a
      → s.rest ≡ a ++ u
      → ((st' : Stack) (s' : Source)
          → HeadAt st.tokens raw [] st'
          → Moved s s' u
          → Parsed st.tokens (t ∷ []) s' rest (load_number env (length st.tokens) st' s'))
      → Parsed st.tokens (t ∷ []) s rest (load_json env (suc f) st s)
  unfolding load_class
  number_value t f st s a _ rest (starts {c} {cs} k n z q) v b e p =
      let x = load_json-first env total f st s a cs c v b n z e in
      Parsed-from
        (x.2 ∙ ap (load_class env (load_json env f) f (length st.tokens) x.0 c (behind x.1 c cs)) k)
        x.4
        (back-Parsed env total st.tokens x.0 x.3 (load_number env (length st.tokens)) (t ∷ []) c cs
          rest x.1 x.4.rest (λ s' m. p x.0 s' x.3 (Moved-trans x.4 m)))

  pub string_value :
      (w t : List ℕ) (f : ℕ) (st : Stack) (s : Source) (a rest : List ℕ)
      → Spelled 0 t w
      → IsStack st
      → Blank a
      → s.rest ≡ a ++ 34 ∷ (t ++ 34 ∷ rest)
      → Parsed st.tokens (string_tokens false w) s rest (load_json env (suc f) st s)
  unfolding load_class class_of string_tokens
  string_value w t f st s a rest sp v b e =
      let x = load_json-first env total f st s a (t ++ 34 ∷ rest) 34 v b refl refl e in
      let s1 = behind x.1 34 (t ++ 34 ∷ rest) in
      let cut = truncate x.0 (length st.tokens) in
      let kept : cut.tokens ≡ st.tokens =
        ap (take (length st.tokens)) x.3.tokens ∙ take-append st.tokens (raw ∷ []) in
      let fits : IsStack cut = record {
        maximum = x.3.is_stack.maximum;
        fits = omega (arith, x.3.is_stack.fits, length-take (length st.tokens) x.0.tokens);
      } in
      let r = load_string-Spelled env.can_allocate cut s1 false t w rest total fits sp refl in
      Parsed-from x.2 x.4 (record {
        stack = r.0;
        source = r.1;
        is_loaded = r.2;
        tokens =
            r.3 ∙ ap (λ l. l ++ Token.string false w ∷ replicate ((length w + 8) / 16) raw) kept;
        is_stack = r.4;
        moved = Moved-trans (behind-Moved x.1 34 (t ++ 34 ∷ rest)) r.5;
      })
