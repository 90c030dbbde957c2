-- ===== src/Jitson/Finish/Strings.antt =====
-- The strings of lib-sxe-jitson/sxe-jitson-stack.c: what parsing one comes to, for all texts.
use libsxe.Base.{
  ℕ, zero, suc, ◌+◌, ◌*◌, ◌≤◌, ◌<◌, ◌≢◌, refl, Bool, List, [], ◌∷◌, Option, none, some, ◌==◌, ltb,
  Bool-cases, inl, inr, arith, length,
}
use libsxe.Jitson.{
  Token, string, Stack, expand, set_token, capacity, token_at, bytes_of, write_bytes,
}
use libsxe.Jitson.Source.{Source, get_char}
use libsxe.Jitson.Text.{
  Outcome, hex_digit, Escape, escaped, illegal, hex_next, unicode_digits, simple_escape, escape_of,
  escape, einval, eilseq, enomem, written, make_room, at_edge, with_room, with_first, put_char,
  put_escape, terminate, string_round, string_loop, start_string, load_string,
}
use libsxe.Jitson.Consume.{left, get_char_le, get_char_lt}
use libsxe.Jitson.Expand.{IsStack}
use libsxe.Jitson.Frame.{Built, Built-self, set-Built}
use libsxe.Jitson.Finish.{Fine, Room, Continues, expand-Room, write_bytes-Room, fail_at-Fine}

-- An escape sequence leaves at most `n` bytes.
abbrev Within : ℕ → Escape → Type 0
Within n (escaped bs s) = left s ≤ n
Within n (illegal s) = Unit

hex_next-Within :
    (n : ℕ) (more : ℕ → Source → Escape) (u : ℕ) (s : Source) (o : Option ℕ)
    → ((v : ℕ) → Within n (more v s))
    → Within n (hex_next more u s o)
unfolding hex_next
hex_next-Within n more u s none h = tt
hex_next-Within n more u s (some d) h = h (u * 16 + d)

unicode_digits-Within : (n k u : ℕ) (s : Source) → left s ≤ n → Within n (unicode_digits k u s)
unfolding unicode_digits
unicode_digits-Within n zero u s h = h
unicode_digits-Within n (suc k) u s h =
    let s' : Source = (get_char s).1 in
    hex_next-Within n (unicode_digits k) u s' (hex_digit (get_char s).0)
      (λ v. unicode_digits-Within n k v s' (omega (arith, h, get_char_le s)))

escape_of-Within : (n c : ℕ) (s : Source) (o : Option ℕ) → left s ≤ n → Within n (escape_of c s o)
unfolding escape_of
escape_of-Within n c s (some b) h = h
escape_of-Within n c s none h = elim (Bool-cases (c == 117)) [
  | inl e ↦ rw e (unicode_digits-Within n 4 0 s h)
  | inr e ↦ rw e tt
]

escape-Within : (n : ℕ) (s : Source) → left s ≤ n → Within n (escape s)
unfolding escape
escape-Within n s h =
    escape_of-Within n (get_char s).0 (get_char s).1 (simple_escape (get_char s).0)
      (omega (arith, h, get_char_le s))

module _ (can_allocate : ℕ → Bool) (base : List Token) (m n : ℕ)
    (next : Stack → Source → Outcome) where
  written-Fine :
      (s : Source) (o : Option Stack)
      → left s < m
      → Continues base m n next
      → Room base o
      → Fine base n (written next s o)
  unfolding written
  written-Fine s none l k r = tt
  written-Fine s (some st) l k r = k st s r l

  with_room-Fine :
      (bs : List ℕ) (before : Stack) (s : Source) (o : Option Stack)
      → Built base before
      → left s < m
      → Continues base m n next
      → Room base o
      → Fine base n (with_room next bs (length base) before s o)
  unfolding with_room
  with_room-Fine bs before s none b l k r = fail_at-Fine enomem n s b
  with_room-Fine bs before s (some st) b l k r =
      written-Fine s (write_bytes st (length base) bs) l k (write_bytes-Room bs r)

  make_room-Room :
      (i : ℕ) (st : Stack) → Built base st → Room base (make_room can_allocate i st (length base))
  unfolding make_room
  make_room-Room i st b =
      elim (Bool-cases (at_edge (length (bytes_of (token_at st (length base)))) i)) [
        | inl e ↦ rw e (expand-Room can_allocate 1 b)
        | inr e ↦ rw e b
      ]

  with_first-Fine :
      (bs : List ℕ) (i : ℕ) (s : Source) (o : Option Stack)
      → left s < m
      → Continues base m n next
      → Room base o
      → Fine base n (with_first can_allocate next bs i (length base) s o)
  unfolding with_first
  with_first-Fine bs i s none l k r = tt
  with_first-Fine bs i s (some st) l k r =
      with_room-Fine bs st s (make_room can_allocate i st (length base)) r l k
        (make_room-Room i st r)

  put_char-Fine :
      (st : Stack) (s : Source) (bs : List ℕ)
      → Built base st
      → left s < m
      → Continues base m n next
      → Fine base n (put_char can_allocate next (length base) st s bs)
  unfolding put_char
  put_char-Fine st s [] b l k = k st s b l
  put_char-Fine st s (c ∷ bs) b l k =
      with_first-Fine bs (suc (length bs)) s (write_bytes st (length base) (c ∷ [])) l k
        (write_bytes-Room (c ∷ []) b)

  put_escape-Fine :
      (st : Stack) (s : Source) (x : Escape)
      → Built base st
      → Within (left s) x
      → left s < m
      → Continues base m n next
      → Fine base n (put_escape can_allocate next (length base) st x)
  unfolding put_escape
  put_escape-Fine st s (escaped bs s') b w l k = put_char-Fine st s' bs b (omega (arith, w, l)) k
  put_escape-Fine st s (illegal s') b w l k = fail_at-Fine eilseq n s' b

  terminate-Fine :
      (st : Stack) (s : Source)
      → Built base st
      → left s ≤ n
      → Fine base n (terminate (length base) st s)
  unfolding terminate
  terminate-Fine st s b l =
      elim (Bool-cases
        (ltb (length (bytes_of (token_at st (length base)))) (capacity st (length base)))) [
          | inl e ↦ rw e (b, l)
          | inr e ↦ rw e tt
        ]

  string_round-Fine :
      (st : Stack) (c : ℕ) (s : Source)
      → Built base st
      → left s ≤ n
      → (c ≢ 0 → left s < m)
      → Continues base m n next
      → Fine base n (string_round can_allocate next (length base) st c s)
  unfolding string_round
  string_round-Fine st c s b l h k = elim (Bool-cases (c == 34)) [
    | inl e ↦ rw e (terminate-Fine st s b l)
    | inr e ↦ elim (Bool-cases (c == 0)) [
      | inl z ↦ rw (e, z) (fail_at-Fine einval n s b)
      | inr z ↦
          let l' : left s < m = h (ground (arith, z)) in
          elim (Bool-cases (c == 92)) [
            | inl q ↦
                rw (e, z, q)
                  (put_escape-Fine st s (escape s) b (escape-Within (left s) s (omega arith)) l' k)
            | inr q ↦ rw (e, z, q) (put_char-Fine st s (c ∷ []) b l' k)
          ]
    ]
  ]

module _ (can_allocate : ℕ → Bool) where
  string_loop-Fine :
      (base : List Token) (n fuel : ℕ) (st : Stack) (s : Source)
      → Built base st
      → left s < fuel
      → fuel ≤ suc n
      → Fine base n (string_loop can_allocate fuel (length base) st s)
  unfolding string_loop
  string_loop-Fine base n zero st s b f l = absurd (omega (arith, f))
  string_loop-Fine base n (suc fuel) st s b f l =
      string_round-Fine can_allocate base fuel n (string_loop can_allocate fuel (length base)) st
        (get_char s).0 (get_char s).1 b (omega (arith, f, l, get_char_le s))
        (λ h. omega (arith, f, get_char_lt s h))
        (λ st' s' b' l'. string_loop-Fine base n fuel st' s' b' l' (omega (arith, l)))

  start_string-Fine :
      (st : Stack) (key : Bool) (s : Source) (o : Option Stack)
      → IsStack st
      → Room st.tokens o
      → Fine st.tokens (left s) (start_string can_allocate key (length st.tokens) st s o)
  unfolding start_string
  start_string-Fine st key s none v r = (refl, v)
  start_string-Fine st key s (some st') v r =
      string_loop-Fine st.tokens (left s) (suc (left s))
        (set_token st' (length st.tokens) (string key [])) s
        (set-Built (length st.tokens) (string key []) (omega arith) r) (omega arith) (omega arith)

  pub load_string-Fine :
      (st : Stack) (s : Source) (key : Bool)
      → IsStack st
      → Fine st.tokens (left s) (load_string can_allocate st s key)
  unfolding load_string
  load_string-Fine st s key v =
      start_string-Fine st key s (expand can_allocate st 1) v
        (expand-Room can_allocate 1 (Built-self v))
