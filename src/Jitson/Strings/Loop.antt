-- ===== src/Jitson/Strings/Loop.antt =====
-- The loop of lib-sxe-jitson/sxe-jitson-stack.c over the characters of a string.
use libsxe.Base.{
  ℕ, zero, suc, ◌+◌, ◌*◌, ◌%◌, ◌≤◌, ◌<◌, ◌≡◌, refl, ap, sym, ◌∙◌, Bool, true, false, List, [], ◌∷◌,
  ◌++◌, ltb, if◌then◌else◌, inl, inr, arith, length, length-append, append-nil, append_assoc,
  le-or-gt,
}
use libsxe.Jitson.{Token, Stack, bytes_of}
use libsxe.Jitson.Source.{Source, behind}
use libsxe.Jitson.Text.{
  Outcome, loaded, overflowed, written, at_edge, with_room, with_first, put_char, terminate,
  string_round, string_loop,
}
use libsxe.Jitson.Consume.{left}
use libsxe.Jitson.Strings.Escapes.{
  Moved, Moved-trans, get_char-cons, Written, plain, short, coded, string_round-Written,
}
use libsxe.Jitson.Strings.Tokens.{
  StringAt, behind_first, RightlyTested, fits, fits-RightlyTested, StringAt_token,
  StringAt_capacity, write-StringAt, write-full, make_room-StringAt, StringAt-at, Whole,
}

-- Spellings of characters, behind `n` bytes, each of which fits in its token.
pub data Spelled : ℕ → List ℕ → List ℕ → Type 0 where
  done : {n : ℕ} → Spelled n [] []
  more :
      {n : ℕ} (t bs : List ℕ) {ts ws : List ℕ}
      → Written t bs
      → fits n (length bs) ≡ true
      → Spelled (n + length bs) ts ws
      → Spelled n (t ++ ts) (bs ++ ws)

pub Written-pos : {t bs : List ℕ} → Written t bs → 0 < length t
Written-pos (plain z q b) = omega arith
Written-pos (short e) = omega arith
Written-pos (coded a b c d ha hb hc hd u) = omega arith

module _ (can_allocate : ℕ → Bool) (total : (n : ℕ) → can_allocate n ≡ true) (base : List Token)
    (key : Bool) where
  module _ (next : Stack → Source → Outcome) (s : Source) where
    -- A character whose test is right.
    put_char-Whole :
        (w : List ℕ) (st : Stack) (bs : List ℕ)
        → Whole base key w st
        → RightlyTested (length w) (length bs)
        → (st' : Stack) × (put_char can_allocate next (length base) st s bs ≡ next st' s)
          × Whole base key (w ++ bs) st'
    unfolding put_char with_first with_room written
    put_char-Whole w st [] p r = (st, refl, rw (append-nil w) p)
    put_char-Whole w st (b ∷ bs) p r =
        let i = suc (length bs) in
        let one : length (w ++ b ∷ []) ≡ suc (length w) = omega (arith, length-append w (b ∷ [])) in
        let k : ℕ = behind_first (length w) in
        let k' : ℕ = k + (if at_edge (length (w ++ b ∷ [])) i then 1 else 0) in
        let count : k' ≡ behind_first (length w + i) =
          ap (λ n. k + (if at_edge n i then 1 else 0)) one ∙ sym r in
        let x = write-StringAt p (b ∷ []) (omega arith) in
        let y = make_room-StringAt x.2 can_allocate i total in
        let z = write-StringAt y.2 bs (omega (arith, count, one)) in
        let whole : k' ≡ behind_first (length (w ++ b ∷ bs)) =
          count ∙ ap behind_first (sym (length-append w (b ∷ bs))) in
        (z.0, rw (x.1, y.1, z.1) refl, StringAt-at (append_assoc w (b ∷ []) bs) whole z.2)

  -- What is left to do behind a spelling.
  abbrev Behind : ℕ → Stack → Source → List ℕ → List ℕ → Type 0
  Behind fuel st s w rest =
      (fuel' : ℕ) × (st' : Stack) × (s' : Source) × (string_loop can_allocate fuel (length base) st
          s
        ≡ string_loop can_allocate fuel' (length base) st' s')
      × Whole base key w st'
      × Moved s s' rest
      × (left s' < fuel')

  pub string_loop-Spelled :
      {n : ℕ} {t ws : List ℕ}
      → Spelled n t ws
      → (fuel : ℕ) (st : Stack) (s : Source) (w rest : List ℕ) → length w ≡ n
      → Whole base key w st
      → s.rest ≡ t ++ rest
      → left s < fuel
      → Behind fuel st s (w ++ ws) rest
  unfolding string_loop
  string_loop-Spelled {n} done fuel st s w rest e p q f =
      let here : Moved s s rest = record {
        rest = q;
        allow_hex = refl;
        allow_consts = refl;
        allow_idents = refl;
      } in
      (fuel, st, s, refl, rw (append-nil w) p, here, f)
  string_loop-Spelled {n} (more t bs sp x r) zero st s w rest e p q f = absurd (omega (arith, f))
  string_loop-Spelled {n} (more t bs {ts} {ws} x r sp) (suc fuel) st s w rest e p q f =
      let next = string_loop can_allocate fuel (length base) in
      let a =
        string_round-Written can_allocate next (length base) st s t bs (ts ++ rest) x
          (q ∙ append_assoc t ts rest) in
      let y = put_char-Whole next a.0 w st bs p (rw e (fits-RightlyTested n (length bs) r)) in
      let shorter : left a.0 < fuel = omega (
        arith,
        f,
        Written-pos x,
        ap length q,
        ap length (append_assoc t ts rest),
        length-append t (ts ++ rest),
        ap length a.2.rest,
      ) in
      let ih =
        string_loop-Spelled sp fuel y.0 a.0 (w ++ bs) rest (omega (arith, e, length-append w bs))
          y.2 a.2.rest shorter in
      let same : (w ++ bs) ++ ws ≡ w ++ (bs ++ ws) = append_assoc w bs ws in
      (
        ih.0,
        ih.1,
        ih.2,
        a.1 ∙ y.1 ∙ ih.3,
        StringAt-at same (ap (λ v. behind_first (length v)) same) ih.4,
        Moved-trans a.2 ih.5,
        ih.6,
      )

  -- The quote behind a string with room for its NUL, and behind one without.
  pub string_loop-quote :
      (fuel : ℕ) (st : Stack) (s : Source) (w rest : List ℕ)
      → Whole base key w st
      → s.rest ≡ 34 ∷ rest
      → left s < fuel
      → string_loop can_allocate fuel (length base) st s ≡ loaded st (behind s 34 rest)
  unfolding string_loop string_round terminate bytes_of
  string_loop-quote zero st s w rest p e f = absurd (omega (arith, f))
  string_loop-quote (suc fuel) st s w rest p e f =
      let room : ltb (length w) (8 + 16 * behind_first (length w)) ≡ true = ground arith in
      rw (get_char-cons s 34 rest e, StringAt_token p, StringAt_capacity p, room) refl

  string_loop-full :
      (fuel k : ℕ) (st : Stack) (s : Source) (w rest : List ℕ)
      → StringAt base key w k st
      → s.rest ≡ 34 ∷ rest
      → left s < fuel
      → 8 + 16 * k ≤ length w
      → string_loop can_allocate fuel (length base) st s ≡ overflowed
  unfolding string_loop string_round terminate bytes_of
  string_loop-full zero k st s w rest p e f h = absurd (omega (arith, f))
  string_loop-full (suc fuel) k st s w rest p e f h =
      let room : ltb (length w) (8 + 16 * k) ≡ false = ground (arith, h) in
      rw (get_char-cons s 34 rest e, StringAt_token p, StringAt_capacity p, room) refl

  -- A character that fills the last token, for which no more room is made.
  pub put_char-overflow :
      (fuel : ℕ) (st : Stack) (s : Source) (w bs rest : List ℕ)
      → Whole base key w st
      → s.rest ≡ 34 ∷ rest
      → left s < fuel
      → length w % 16 < 7
      → 8 ≤ length w % 16 + length bs
      → put_char can_allocate (string_loop can_allocate fuel (length base)) (length base) st s bs
        ≡ overflowed
  unfolding put_char with_first with_room written
  put_char-overflow fuel st s w [] rest p e f u h = absurd (omega (arith, u, h))
  put_char-overflow fuel st s w (b ∷ bs) rest p e f u h =
      let i = suc (length bs) in
      let k : ℕ = behind_first (length w) in
      let one : length (w ++ b ∷ []) ≡ suc (length w) = omega (arith, length-append w (b ∷ [])) in
      let edge : at_edge (suc (length w)) i ≡ false = ground (arith, u) in
      let x = write-StringAt p (b ∷ []) (omega arith) in
      let y = make_room-StringAt x.2 can_allocate i total in
      let count : k + (if at_edge (length (w ++ b ∷ [])) i then 1 else 0) ≡ k =
        ap (λ n. k + (if at_edge n i then 1 else 0)) one
        ∙ ap (λ (c : Bool). k + (if c then 1 else 0)) edge
        ∙ omega arith in
      let q : StringAt base key (w ++ b ∷ []) k y.0 = StringAt-at refl count y.2 in
      elim (le-or-gt (length w + i) (8 + 16 * k)) [
        | inl m ↦
            let z = write-StringAt q bs (omega (arith, one, m)) in
            rw (x.1, y.1, z.1)
              (string_loop-full fuel k z.0 s ((w ++ b ∷ []) ++ bs) rest z.2 e f
                (omega (arith, one, u, h, length-append (w ++ b ∷ []) bs)))
        | inr m ↦ rw (x.1, y.1, write-full q bs (omega (arith, one, m))) refl
      ]
