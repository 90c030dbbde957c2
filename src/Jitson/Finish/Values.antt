-- ===== src/Jitson/Finish/Values.antt =====
-- The parser of lib-sxe-jitson/sxe-jitson-stack.c: what parsing a text comes to, for all texts.
use libsxe.Base.{
  ℕ, zero, suc, ◌≤◌, ◌<◌, ◌≡◌, ◌≢◌, refl, ap, sym, Bool, false, List, [], ◌∷◌, Option, none, some,
  ◌==◌, Bool-cases, inl, inr, arith, length, take, length-append,
}
use libsxe.Jitson.{Token, raw, Stack, expand, truncate}
use libsxe.Jitson.Source.{
  Source, push_char, get_nonspace, get_identifier, identifier_char, get_number, source_from_buffer,
  source_from_string,
}
use libsxe.Jitson.Text.{Outcome, einval}
use libsxe.Jitson.Load.{
  Environment, Class, quote, open_object, open_array, numeric, alphabetic, invalid, class_of,
  pushed_back, load_number, load_named, load_class, load_first, load_json, parse_json,
}
use libsxe.Jitson.Consume.{
  left, get_nonspace_lt, get_nonspace-Read, Read, push_char_le, get_while_le, get_number-Leaves,
}
use libsxe.Jitson.Expand.{IsStack, expand-Grown}
use libsxe.Jitson.Frame.{Built, Built-self, expand-Built, truncate-Built}
use libsxe.Jitson.Finish.{Fine, Fine-le, fail_at-Fine}
use libsxe.Jitson.Finish.Strings.{load_string-Fine}
use libsxe.Jitson.Finish.Collections.{Ends, load_array-Fine, load_object-Fine}
use libsxe.Jitson.Finish.Scalars.{number_loaded-Fine, named-Fine}

module _ (env : Environment) where
  -- What ends well on the tokens that are kept ends well on `base`.
  Fine-kept :
      (base kept : List Token) (n : ℕ) (o : Outcome) → kept ≡ base → Fine kept n o → Fine base n o
  Fine-kept base kept n o e f = rw (sym e) f

  -- What follows a byte that is pushed back.
  resumed-Fine :
      (base : List Token) (n : ℕ) (next : Stack → Source → Outcome) (st : Stack) (o : Option Source)
      → ((s : Source) → o ≡ some s → left s ≤ n)
      → ((s : Source) → left s ≤ n → Fine base n (next st s))
      → Fine base n (pushed_back next st o)
  unfolding pushed_back
  resumed-Fine base n next st none h k = tt
  resumed-Fine base n next st (some s) h k = k s (h s refl)

  load_number-Fine :
      (base : List Token) (n : ℕ) (st : Stack) (s : Source)
      → Built base st
      → left s ≤ n
      → Fine base n (load_number env (length base) st s)
  unfolding load_number
  load_number-Fine base n st s b l =
      Fine-le base (left s) n _ l
        (number_loaded-Fine env base (left s) st (get_number s) b (get_number-Leaves s))

  load_named-Fine :
      (base : List Token) (n : ℕ) (st : Stack) (s : Source)
      → Built base st
      → length base < length st.tokens
      → left s ≤ n
      → Fine base n (load_named env (length base) st s)
  unfolding load_named get_identifier
  load_named-Fine base n st s b u l =
      named-Fine env base n st (get_identifier s) b u
        (omega (arith, l, get_while_le identifier_char s))

  load_class-Fine :
      (f : ℕ) (value : Stack → Source → Outcome) (base : List Token)
      → Ends f value
      → (st : Stack) (c : ℕ) (s : Source) (k : Class) → Built base st
      → length base < length st.tokens
      → Read s.before
      → left s < f
      → Fine base (suc (left s)) (load_class env value f (length base) st c s k)
  unfolding load_class
  load_class-Fine f value base v st c s quote b u r h =
      Fine-le base (left s) (suc (left s)) _ (omega arith) (
        Fine-kept base (take (length base) st.tokens) (left s) _ b.kept (
          load_string-Fine env.can_allocate (truncate st (length base)) s false
            (truncate-Built b).is_stack))
  load_class-Fine f value base v st c s open_object b u r h =
      Fine-le base (left s) (suc (left s)) _ (omega arith)
        (load_object-Fine env f value v base st s b h)
  load_class-Fine f value base v st c s open_array b u r h =
      Fine-le base (left s) (suc (left s)) _ (omega arith)
        (load_array-Fine f value v base st s b r h)
  load_class-Fine f value base v st c s numeric b u r h =
      resumed-Fine base (suc (left s)) (load_number env (length base)) st (push_char s c)
        (λ s' e. omega (arith, push_char_le s c s' e))
        (λ s' l. load_number-Fine base (suc (left s)) st s' b l)
  load_class-Fine f value base v st c s alphabetic b u r h =
      resumed-Fine base (suc (left s)) (load_named env (length base)) st (push_char s c)
        (λ s' e. omega (arith, push_char_le s c s' e))
        (λ s' l. load_named-Fine base (suc (left s)) st s' b u l)
  load_class-Fine f value base v st c s invalid b u r h = fail_at-Fine einval (suc (left s)) s b

  load_first-Fine :
      (f : ℕ) (value : Stack → Source → Outcome)
      → Ends f value
      → (st : Stack) (c : ℕ) (s : Source) (o : Option Stack) → expand env.can_allocate st 1 ≡ o
      → IsStack st
      → Read s.before
      → left s < f
      → Fine st.tokens (suc (left s)) (load_first env value f st c s o)
  unfolding load_first
  load_first-Fine f value v st c s none e i r h = (refl, i)
  load_first-Fine f value v st c s (some st') e i r h =
      let g = expand-Grown env.can_allocate st st' 1 i e in
      load_class-Fine f value st.tokens v st' c s (class_of c)
        (expand-Built env.can_allocate 1 st' (Built-self i) e)
        (omega (arith, ap length g.tokens, length-append st.tokens (raw ∷ []))) r h

  load_json-Fine : (fuel : ℕ) → Ends fuel (load_json env fuel)
  unfolding load_json
  load_json-Fine zero st s v h = absurd (omega (arith, h))
  load_json-Fine (suc fuel) st s v h = elim (Bool-cases ((get_nonspace s).0 == 0)) [
    | inl e ↦ rw e (refl, v)
    | inr e ↦
        let p : (get_nonspace s).0 ≢ 0 = ground (arith, e) in
        let q : left (get_nonspace s).1 < left s = get_nonspace_lt s p in
        rw e (
          Fine-le st.tokens (suc (left (get_nonspace s).1)) (left s) _ (omega (arith, q)) (
            load_first-Fine fuel (load_json env fuel) (load_json-Fine fuel) st (get_nonspace s).0
              (get_nonspace s).1 (expand env.can_allocate st 1) refl v (get_nonspace-Read s p)
              (omega (arith, q, h))))
  ]

  -- Parsing a text onto a stack whose tokens fit in what is allocated ends: with the value behind the tokens
  -- that were there and no more of the text left than there was; or in a failure, with just the tokens that
  -- were there; or at a failed assertion or a write behind the last token, where the program stops.
  -- The tokens still fit in what is allocated.
  pub parse_json-Fine :
      (st : Stack) (text : List ℕ) (hex consts idents : Bool)
      → IsStack st
      → Fine st.tokens (suc (length text)) (parse_json env st text hex consts idents)
  unfolding parse_json source_from_string source_from_buffer
  parse_json-Fine st text hex consts idents v =
      Fine-le st.tokens _ (suc (length text)) _ (omega (arith, length-append text (0 ∷ []))) (
        load_json-Fine (suc (suc (length text))) st (source_from_string text hex consts idents) v
          (omega (arith, length-append text (0 ∷ []))))
