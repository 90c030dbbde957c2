-- ===== src/Jitson/Strings/Tokens.antt =====
-- The tokens of a string of lib-sxe-jitson/sxe-jitson-stack.c while its bytes are written.
use libsxe.Base.{
  ℕ, zero, suc, ◌+◌, ◌*◌, ◌/◌, ◌%◌, ◌≤◌, ◌<◌, ◌≡◌, refl, ap, ◌∙◌, Bool, true, false, List, [], ◌∷◌,
  ◌++◌, none, some, ◌==◌, ◌&&◌, ◌||◌, ltb, leb, if◌then◌else◌, Bool-cases, inl, inr, arith, length,
  get_or, set, replicate, length-append, length-set, length-replicate, append_assoc,
}
use libsxe.Jitson.{
  Token, raw, string, Stack, expand, token_at, set_token, capacity, append_bytes, bytes_of,
  write_bytes,
}
use libsxe.Jitson.Text.{at_edge, make_room}
use libsxe.Jitson.Expand.{IsStack, expand-Grown, expand_total}

module _ {A : Type 0} where
  pub get_or-middle : (xs ys : List A) (x d : A) → get_or (xs ++ x ∷ ys) (length xs) d ≡ x
  get_or-middle [] ys x d = refl
  get_or-middle (y ∷ xs) ys x d = get_or-middle xs ys x d

  pub set-middle : (xs ys : List A) (x v : A) → set (xs ++ x ∷ ys) (length xs) v ≡ xs ++ v ∷ ys
  set-middle [] ys x v = refl
  set-middle (y ∷ xs) ys x v = ap (◌∷◌ y) (set-middle xs ys x v)

  replicate_snoc : (n : ℕ) (x : A) → replicate n x ++ x ∷ [] ≡ x ∷ replicate n x
  replicate_snoc zero x = refl
  replicate_snoc (suc n) x = ap (◌∷◌ x) (replicate_snoc n x)

-- The stack is `base`, the token of a string with the bytes `w`, and `k` tokens for more of them.
pub record StringAt (base : List Token) (key : Bool) (w : List ℕ) (k : ℕ) (st : Stack)
    : Type 0 where
  pub tokens : st.tokens ≡ base ++ string key w ∷ replicate k raw
  pub is_stack : IsStack st

-- The tokens behind the first one of a string that is `n` bytes long.
abbrev pub behind_first : ℕ → ℕ
behind_first n = (n + 8) / 16

-- The test for more room is right for a character of `i` bytes behind `n` bytes.
abbrev pub RightlyTested : ℕ → ℕ → Type 0
RightlyTested n i = behind_first (n + i) ≡ behind_first n + (if at_edge (suc n) i then 1 else 0)

-- A character of `i` bytes behind `n` bytes ends before byte 8 of a run of 16, or starts at its byte 7, or at
-- byte 7 + i or later, as one byte always does. Then the parser makes just the room that it wants.
abbrev pub fits : ℕ → ℕ → Bool
fits n i = ltb (n % 16 + i) 8 || (n % 16 == 7 && leb i 4) || leb (7 + i) (n % 16)

pub fits-RightlyTested : (n i : ℕ) → fits n i ≡ true → RightlyTested n i
fits-RightlyTested n i h = ground (arith, h)

pub fits_one : (n : ℕ) → fits n 1 ≡ true
fits_one n = ground arith

module _ {base : List Token} {key : Bool} {w : List ℕ} {k : ℕ} {st : Stack}
    (p : StringAt base key w k st) where
  pub StringAt_token : token_at st (length base) ≡ string key w
  StringAt_token = rw p.tokens (get_or-middle base (replicate k raw) (string key w) raw)

  pub StringAt_capacity : capacity st (length base) ≡ 8 + 16 * k
  StringAt_capacity = omega (
    arith,
    ap length p.tokens,
    length-append base (string key w ∷ replicate k raw),
    length-replicate {A = Token} k raw,
  )

  set-StringAt : (v : List ℕ) → StringAt base key v k (set_token st (length base) (string key v))
  set-StringAt v = record {
    tokens = rw p.tokens (set-middle base (replicate k raw) (string key w) (string key v));
    is_stack = record {
      maximum = p.is_stack.maximum;
      fits = omega (arith, p.is_stack.fits, length-set st.tokens (length base) (string key v));
    };
  }

  -- What is written where there is room.
  pub write-StringAt :
      (more : List ℕ)
      → length w + length more ≤ 8 + 16 * k
      → (st' : Stack) × (write_bytes st (length base) more ≡ some st')
        × StringAt base key (w ++ more) k st'
  unfolding write_bytes append_bytes bytes_of
  write-StringAt more h =
      let room : leb (length w + length more) (8 + 16 * k) ≡ true = ground (arith, h) in
      (
        set_token st (length base) (string key (w ++ more)),
        rw (StringAt_token, StringAt_capacity, room) refl,
        set-StringAt (w ++ more),
      )

  -- What is written where there is none.
  pub write-full :
      (more : List ℕ)
      → 8 + 16 * k < length w + length more
      → write_bytes st (length base) more ≡ none
  unfolding write_bytes append_bytes bytes_of
  write-full more h =
      let room : leb (length w + length more) (8 + 16 * k) ≡ false = ground (arith, h) in
      rw (StringAt_token, StringAt_capacity, room) refl

  -- One more token behind the string.
  more-StringAt :
      (can_allocate : ℕ → Bool)
      → ((n : ℕ) → can_allocate n ≡ true)
      → (st' : Stack) × (expand can_allocate st 1 ≡ some st') × StringAt base key w (suc k) st'
  more-StringAt can_allocate a =
      let r = expand_total can_allocate st 1 a in
      let g = expand-Grown can_allocate st r.0 1 p.is_stack r.1 in
      let tokens : r.0.tokens ≡ base ++ string key w ∷ replicate (suc k) raw =
        g.tokens
        ∙ ap (λ l. l ++ raw ∷ []) p.tokens
        ∙ append_assoc base (string key w ∷ replicate k raw) (raw ∷ [])
        ∙ ap (λ l. base ++ string key w ∷ l) (replicate_snoc k raw) in
      (r.0, r.1, record { tokens = tokens; is_stack = g.is_stack })

  pub make_room-StringAt :
      (can_allocate : ℕ → Bool) (i : ℕ)
      → ((n : ℕ) → can_allocate n ≡ true)
      → (st' : Stack) × (make_room can_allocate i st (length base) ≡ some st')
        × StringAt base key w (k + (if at_edge (length w) i then 1 else 0)) st'
  unfolding make_room bytes_of
  make_room-StringAt can_allocate i a = elim (Bool-cases (at_edge (length w) i)) [
    | inl e ↦
        let r = more-StringAt can_allocate a in
        let n : k + 1 ≡ suc k = omega arith in (r.0, rw (StringAt_token, e) r.1, rw (e, n) r.2)
    | inr e ↦ let n : k + 0 ≡ k = omega arith in (st, rw (StringAt_token, e) refl, rw (e, n) p)
  ]

-- The same state, described by other terms.
pub StringAt-at :
    {base : List Token} {key : Bool} {w w' : List ℕ} {k k' : ℕ} {st : Stack}
    → w ≡ w'
    → k ≡ k'
    → StringAt base key w k st
    → StringAt base key w' k' st
StringAt-at {base} {key} {w} {w'} {k} {k'} e f p = record {
  tokens =
      p.tokens
      ∙ ap (λ v. base ++ string key v ∷ replicate k raw) e
      ∙ ap (λ n. base ++ string key w' ∷ replicate n raw) f;
  is_stack = p.is_stack;
}

-- A string with all the tokens that its bytes want, and no more.
abbrev pub Whole : List Token → Bool → List ℕ → Stack → Type 0
Whole base key w st = StringAt base key w (behind_first (length w)) st
