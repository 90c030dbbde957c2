-- ===== src/Jitson/Grammar/Scalars.antt =====
-- The first byte of a value of lib-sxe-jitson/sxe-jitson-stack.c, and the values that are one token.
use libsxe.Base.{
  ℕ, suc, ◌≡◌, refl, ap, ◌∙◌, true, false, List, [], ◌∷◌, ◌++◌, ◌==◌, arith, length, if◌then◌else◌,
}
use libsxe.Jitson.{Token, raw, Stack, set_token}
use libsxe.Jitson.Source.{
  Source, behind, push_char, isspace, isdigit, identifier_char, get_identifier,
}
use libsxe.Jitson.Text.{Outcome, loaded}
use libsxe.Jitson.Load.{
  Environment, numeric, class_of, load_class, load_first, load_json, pushed_back, load_number,
  number_loaded, converted, load_named, named,
}
use libsxe.Jitson.Expand.{IsStack, expand-Grown, expand_total}
use libsxe.Jitson.Strings.Escapes.{Moved, Moved-trans}
use libsxe.Jitson.Grammar.{Every, Stops, Blank, Numeral}
use libsxe.Jitson.Grammar.Scan.{get_while-Every, get_nonspace-Blank, push_char-behind}
use libsxe.Jitson.Grammar.Numerals.{get_number-Numeral}
use libsxe.Jitson.Grammar.Heads.{HeadAt, set-HeadAt}

-- A part of the parser puts the tokens `toks` behind `base`, and leaves `cs`.
pub record Parsed (base toks : List Token) (s : Source) (cs : List ℕ) (o : Outcome) : Type 0 where
  pub stack : Stack
  pub source : Source
  pub is_loaded : o ≡ loaded stack source
  pub tokens : stack.tokens ≡ base ++ toks
  pub is_stack : IsStack stack
  pub moved : Moved s source cs

-- The same for an equal outcome, from a source that moved.
pub Parsed-from :
    {base toks : List Token} {s s' : Source} {r rest : List ℕ} {o o' : Outcome}
    → o ≡ o'
    → Moved s s' r
    → Parsed base toks s' rest o'
    → Parsed base toks s rest o
Parsed-from e m p = record {
  stack = p.stack;
  source = p.source;
  is_loaded = e ∙ p.is_loaded;
  tokens = p.tokens;
  is_stack = p.is_stack;
  moved = Moved-trans m p.moved;
}

numeric_digit : (c : ℕ) → isdigit c ≡ true → class_of c ≡ numeric
unfolding class_of
numeric_digit c h = ground (arith, h)

digit_not_space : (c : ℕ) → isdigit c ≡ true → isspace c ≡ false
digit_not_space c h = ground (arith, h)

digit_not_zero : (c : ℕ) → isdigit c ≡ true → (c == 0) ≡ false
digit_not_zero c h = ground (arith, h)

module _ (env : Environment) (total : (n : ℕ) → env.can_allocate n ≡ true) where
  -- The first byte of a value, with its token taken.
  pub load_json-first :
      (f : ℕ) (st : Stack) (s : Source) (a cs : List ℕ) (c : ℕ)
      → IsStack st
      → Blank a
      → isspace c ≡ false
      → (c == 0) ≡ false
      → s.rest ≡ a ++ c ∷ cs
      → (st' : Stack) × (s' : Source) × (load_json env (suc f) st s
          ≡ load_class env
              (load_json env f)
              f
              (length st.tokens)
              st'
              c
              (behind s' c cs)
              (class_of c))
        × HeadAt st.tokens raw [] st'
        × Moved s s' (c ∷ cs)
  unfolding load_json load_first
  load_json-first f st s a cs c v b n z e =
      let g = get_nonspace-Blank s a c cs b n e in
      let x = expand_total env.can_allocate st 1 total in
      let y = expand-Grown env.can_allocate st x.0 1 v x.1 in
      (x.0, g.0, rw (g.1, z, x.1) refl, record { tokens = y.tokens; is_stack = y.is_stack }, g.2)

  module _ (base : List Token) (st : Stack) (p : HeadAt base raw [] st) where
    -- The token of a value is written.
    set-Parsed :
        (t : Token) (s s' : Source) (rest : List ℕ)
        → Moved s s' rest
        → Parsed base (t ∷ []) s rest (loaded (set_token st (length base) t) s')
    set-Parsed t s s' rest m =
        let h = set-HeadAt p t in
        record {
          stack = set_token st (length base) t;
          source = s';
          is_loaded = refl;
          tokens = h.tokens;
          is_stack = h.is_stack;
          moved = m;
        }

    pub uint-Parsed :
        (n : ℕ) (t rest : List ℕ) (s : Source)
        → Numeral true t
        → env.strtoul (t ++ rest) (if s.allow_hex then 0 else 10) ≡ (n, length t)
        → Stops identifier_char rest
        → s.rest ≡ t ++ rest
        → Parsed base (Token.uint n ∷ []) s rest (load_number env (length base) st s)
    unfolding load_number number_loaded converted
    uint-Parsed n t rest s x q h e =
        let r = get_number-Numeral rest s x h e in
        let same : env.strtoul (t ++ r.0.rest) (if r.0.allow_hex then 0 else 10) ≡ (n, length t) =
          ap (λ cs. env.strtoul (t ++ cs) (if r.0.allow_hex then 0 else 10)) r.2.rest
          ∙ ap (λ b. env.strtoul (t ++ rest) (if b then 0 else 10)) r.2.allow_hex
          ∙ q in
        let whole : (length t == length t) ≡ true = ground arith in
        rw (r.1, same, whole) (set-Parsed (Token.uint n) s r.0 rest r.2)

    pub double-Parsed :
        (d : ℕ) (t rest : List ℕ) (s : Source)
        → Numeral false t
        → env.strtod (t ++ rest) ≡ (d, length t)
        → Stops identifier_char rest
        → s.rest ≡ t ++ rest
        → Parsed base (Token.number d ∷ []) s rest (load_number env (length base) st s)
    unfolding load_number number_loaded converted
    double-Parsed d t rest s x q h e =
        let r = get_number-Numeral rest s x h e in
        let same : env.strtod (t ++ r.0.rest) ≡ (d, length t) =
          ap (λ cs. env.strtod (t ++ cs)) r.2.rest ∙ q in
        let whole : (length t == length t) ≡ true = ground arith in
        rw (r.1, same, whole) (set-Parsed (Token.number d) s r.0 rest r.2)

    -- A byte is pushed back.
    pub back-Parsed :
        (next : Stack → Source → Outcome) (toks : List Token) (c : ℕ) (cs rest : List ℕ)
        (s : Source)
        → s.rest ≡ c ∷ cs
        → ((s' : Source) → Moved s s' (c ∷ cs) → Parsed base toks s' rest (next st s'))
        → Parsed base toks s rest (pushed_back next st (push_char (behind s c cs) c))
    unfolding pushed_back
    back-Parsed next toks c cs rest s e k =
        let b = push_char-behind s c cs e in
        Parsed-from (ap (pushed_back next st) b.1) b.2 (k b.0 b.2)

    -- A keyword.
    pub word-Parsed :
        (t : Token) (c : ℕ) (cs rest : List ℕ) (s : Source)
        → Every identifier_char (c ∷ cs)
        → ((s' : Source)
            → named env (length base) st (c ∷ cs, s') ≡ loaded (set_token st (length base) t) s')
        → Stops identifier_char rest
        → s.rest ≡ c ∷ (cs ++ rest)
        → Parsed base
            (t ∷ [])
            s
            rest
            (pushed_back (load_named env (length base)) st (push_char (behind s c (cs ++ rest)) c))
    unfolding load_named get_identifier
    word-Parsed t c cs rest s w k h e =
        back-Parsed (load_named env (length base)) (t ∷ []) c (cs ++ rest) rest s e (λ s' m.
          let r = get_while-Every identifier_char s' (c ∷ cs) rest w h m.rest in
          Parsed-from (ap (named env (length base) st) r.1 ∙ k r.0) r.2 (
            set-Parsed t r.0 r.0 rest (record {
              rest = r.2.rest;
              allow_hex = refl;
              allow_consts = refl;
              allow_idents = refl;
            })))
