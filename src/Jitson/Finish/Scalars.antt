-- ===== src/Jitson/Finish/Scalars.antt =====
-- Numbers, identifiers and constants of lib-sxe-jitson/sxe-jitson-stack.c.
use libsxe.Base.{
  ℕ, ◌+◌, ◌-◌, ◌/◌, ◌≤◌, ◌<◌, ◌≡◌, refl, ap, true, false, ◌&&◌, List, [], ◌∷◌, ◌++◌, Option, none,
  some, ◌==◌, ltb, leb, if◌then◌else◌, Bool-cases, inl, inr, arith, length, take, replicate,
  length-append, length-replicate, take-append, bytes_eq,
}
use libsxe.Jitson.{Token, raw, null, boolean, ident, Stack, expand, capacity}
use libsxe.Jitson.Source.{Source, Number, number_text, no_number}
use libsxe.Jitson.Text.{einval, enomem}
use libsxe.Jitson.Load.{
  Environment, number_loaded, converted, ident_room, push_ident, load_ident, dup_constant,
  load_constant, named,
}
use libsxe.Jitson.Consume.{left, Leaves}
use libsxe.Jitson.Expand.{expand-Grown}
use libsxe.Jitson.Frame.{Built, expand-Built}
use libsxe.Jitson.Finish.{Fine, Room, expand-Room, fail_at-Fine}
use libsxe.Jitson.Finish.Collections.{set-Fine}

module _ (env : Environment) (base : List Token) (n : ℕ) where
  converted-Fine :
      (st : Stack) (s : Source) (text_length : ℕ) (token : ℕ → Token) (x : ℕ × ℕ)
      → Built base st
      → left s ≤ n
      → Fine base n (converted env (length base) st s text_length token x)
  unfolding converted
  converted-Fine st s text_length token (value, read) b l =
      elim (Bool-cases (read == text_length)) [
        | inl e ↦ rw e (set-Fine base n st (token value) s b l)
        | inr e ↦ rw e tt
      ]

  pub number_loaded-Fine :
      (st : Stack) (x : Number)
      → Built base st
      → Leaves n x
      → Fine base n (number_loaded env (length base) st x)
  unfolding number_loaded
  number_loaded-Fine st (no_number s) b l = fail_at-Fine einval n s b
  number_loaded-Fine st (number_text text is_uint s) b l = elim (Bool-cases is_uint) [
    | inl e ↦ rw e (
        converted-Fine st s (length text) Token.uint
          (env.strtoul (text ++ s.rest) (if s.allow_hex then 0 else 10)) b l)
    | inr e ↦
        rw e (converted-Fine st s (length text) Token.number (env.strtod (text ++ s.rest)) b l)
  ]

  push_ident-Fine :
      (name : List ℕ) (before : Stack) (s : Source) (o : Option Stack)
      → Built base before
      → Room base o
      → left s ≤ n
      → Fine base n (push_ident env (length base) name before s o)
  unfolding push_ident
  push_ident-Fine name before s none b r l = fail_at-Fine enomem n s b
  push_ident-Fine name before s (some st) b r l =
      elim (Bool-cases (ltb (length name) (capacity st (length base)))) [
        | inl e ↦ rw e (set-Fine base n st (ident name) s r l)
        | inr e ↦ rw e tt
      ]

  ident_room-Room :
      (st : Stack) (name : List ℕ)
      → Built base st
      → Room base (ident_room env (length base) st name)
  unfolding ident_room
  ident_room-Room st name b = elim (Bool-cases (leb 8 (length name))) [
    | inl e ↦ rw e (expand-Room env.can_allocate ((length name + 8) / 16) b)
    | inr e ↦ rw e b
  ]

  pub load_ident-Fine :
      (name : List ℕ) (st : Stack) (s : Source)
      → Built base st
      → left s ≤ n
      → Fine base n (load_ident env (length base) name st s)
  unfolding load_ident
  load_ident-Fine name st s b l = elim (Bool-cases (env.idents_registered && s.allow_idents)) [
    | inl e ↦ rw e (
        push_ident-Fine name st s (ident_room env (length base) st name) b
          (ident_room-Room st name b) l)
    | inr e ↦ rw e (fail_at-Fine einval n s b)
  ]

  -- The stack behind the constant that takes the place of the last token.
  constant-Built :
      (value : List Token) (st : Stack)
      → Built base st
      → length base + length value ≤ st.maximum
      → Built base (record st { tokens = take (length base) st.tokens ++ value })
  constant-Built value st b h = record {
    kept = rw b.kept (take-append base value);
    is_stack = record {
      maximum = b.is_stack.maximum;
      fits = omega (arith, h, length-append (take (length base) st.tokens) value, ap length b.kept);
    };
  }

  -- A stack with room for `k` tokens behind `base`, if there is one.
  abbrev Space : ℕ → Option Stack → Type 0
  Space k none = Unit
  Space k (some st) = Built base st × (length base + k ≤ st.maximum)

  expanded-Space :
      (k : ℕ) (st : Stack) (o : Option Stack)
      → expand env.can_allocate st (k - 1) ≡ o
      → Built base st
      → length base < length st.tokens
      → Space k o
  expanded-Space k st none e b h = tt
  expanded-Space k st (some st') e b h =
      let g = expand-Grown env.can_allocate st st' (k - 1) b.is_stack e in
      (
        expand-Built env.can_allocate (k - 1) st' b e,
        omega (
          arith,
          h,
          g.is_stack.fits,
          ap length g.tokens,
          length-append st.tokens (replicate (k - 1) raw),
          length-replicate {A = Token} (k - 1) raw,
        ),
      )

  constant-Space :
      (k : ℕ) (st : Stack)
      → Built base st
      → length base < length st.tokens
      → Space k (if ltb 1 k then expand env.can_allocate st (k - 1) else some st)
  constant-Space k st b h = elim (Bool-cases (ltb 1 k)) [
    | inl e ↦ rw e (expanded-Space k st (expand env.can_allocate st (k - 1)) refl b h)
    | inr e ↦ let p : k ≤ 1 = ground (arith, e) in rw e (b, omega (arith, h, p, b.is_stack.fits))
  ]

  dup_constant-Fine :
      (value : List Token) (before : Stack) (s : Source) (o : Option Stack)
      → Built base before
      → Space (length value) o
      → left s ≤ n
      → Fine base n (dup_constant env (length base) value before s o)
  unfolding dup_constant
  dup_constant-Fine value before s none b r l = fail_at-Fine enomem n s b
  dup_constant-Fine value before s (some st) b r l = (constant-Built value st r.0 r.1, l)

  load_constant-Fine :
      (name : List ℕ) (st : Stack) (s : Source) (o : Option (List Token))
      → Built base st
      → length base < length st.tokens
      → left s ≤ n
      → Fine base n (load_constant env (length base) name st s o)
  unfolding load_constant
  load_constant-Fine name st s none b h l = load_ident-Fine name st s b l
  load_constant-Fine name st s (some value) b h l =
      dup_constant-Fine value st s
        (if ltb 1 (length value) then expand env.can_allocate st (length value - 1) else some st) b
        (constant-Space (length value) st b h) l

  pub named-Fine :
      (st : Stack) (r : List ℕ × Source)
      → Built base st
      → length base < length st.tokens
      → left r.1 ≤ n
      → Fine base n (named env (length base) st r)
  unfolding named
  named-Fine st (name, s) b h l =
      elim (Bool-cases (bytes_eq name (102 ∷ 97 ∷ 108 ∷ 115 ∷ 101 ∷ []))) [
        | inl e ↦ rw e (set-Fine base n st (boolean false) s b l)
        | inr e ↦ elim (Bool-cases (bytes_eq name (110 ∷ 117 ∷ 108 ∷ 108 ∷ []))) [
          | inl q ↦ rw (e, q) (set-Fine base n st null s b l)
          | inr q ↦ elim (Bool-cases (bytes_eq name (116 ∷ 114 ∷ 117 ∷ 101 ∷ []))) [
            | inl t ↦ rw (e, q, t) (set-Fine base n st (boolean true) s b l)
            | inr t ↦
                rw (e, q, t)
                  (load_constant-Fine name st s (if s.allow_consts then env.constant name else none)
                    b h l)
          ]
        ]
      ]
