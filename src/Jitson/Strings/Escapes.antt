-- ===== src/Jitson/Strings/Escapes.antt =====
-- The spellings of characters that lib-sxe-jitson/sxe-jitson-stack.c reads in a string.
use libsxe.Base.{
  ℕ, suc, ◌+◌, ◌*◌, ◌≡◌, ◌≢◌, refl, ap, ◌∙◌, Bool, false, List, [], ◌∷◌, ◌++◌, some, ◌==◌, arith,
}
use libsxe.Jitson.{Stack}
use libsxe.Jitson.Source.{Source, behind, get_from, get_char}
use libsxe.Jitson.Text.{
  Outcome, hex_digit, escaped, hex_next, unicode_digits, unicode_to_utf8, simple_escape, escape_of,
  escape, put_char, put_escape, string_round,
}

-- The source `s'` is `s` with `cs` left.
pub record Moved (s s' : Source) (cs : List ℕ) : Type 0 where
  pub rest : s'.rest ≡ cs
  pub allow_hex : s'.allow_hex ≡ s.allow_hex
  pub allow_consts : s'.allow_consts ≡ s.allow_consts
  pub allow_idents : s'.allow_idents ≡ s.allow_idents

pub Moved-trans :
    {s s' s'' : Source} {r r' : List ℕ} → Moved s s' r → Moved s' s'' r' → Moved s s'' r'
Moved-trans m m' = record {
  rest = m'.rest;
  allow_hex = m'.allow_hex ∙ m.allow_hex;
  allow_consts = m'.allow_consts ∙ m.allow_consts;
  allow_idents = m'.allow_idents ∙ m.allow_idents;
}

pub behind-Moved : (s : Source) (c : ℕ) (cs : List ℕ) → Moved s (behind s c cs) cs
behind-Moved s c cs = record {
  rest = refl;
  allow_hex = refl;
  allow_consts = refl;
  allow_idents = refl;
}

pub get_char-cons :
    (s : Source) (c : ℕ) (cs : List ℕ) → s.rest ≡ c ∷ cs → get_char s ≡ (c, behind s c cs)
unfolding get_char get_from
get_char-cons s c cs e = ap (get_from s) e

-- A spelling of one character, and its bytes: itself, a short escape, or its number in four digits.
pub data Written : List ℕ → List ℕ → Type 0 where
  plain : {c : ℕ} → c ≢ 0 → c ≢ 34 → c ≢ 92 → Written (c ∷ []) (c ∷ [])
  short : {e b : ℕ} → simple_escape e ≡ some b → Written (92 ∷ e ∷ []) (b ∷ [])
  coded :
      {h i j k : ℕ} (a b c d : ℕ) {bs : List ℕ}
      → hex_digit h ≡ some a
      → hex_digit i ≡ some b
      → hex_digit j ≡ some c
      → hex_digit k ≡ some d
      → unicode_to_utf8 (((a * 16 + b) * 16 + c) * 16 + d) ≡ bs
      → Written (92 ∷ 117 ∷ h ∷ i ∷ j ∷ k ∷ []) bs

-- One more digit.
unicode_digits-cons :
    (k u h d : ℕ) (s : Source) (cs : List ℕ)
    → s.rest ≡ h ∷ cs
    → hex_digit h ≡ some d
    → unicode_digits (suc k) u s ≡ unicode_digits k (u * 16 + d) (behind s h cs)
unfolding unicode_digits hex_next
unicode_digits-cons k u h d s cs e q = rw (get_char-cons s h cs e, q) refl

short-escape :
    (s : Source) (x b : ℕ) (cs : List ℕ)
    → s.rest ≡ x ∷ cs
    → simple_escape x ≡ some b
    → escape s ≡ escaped (b ∷ []) (behind s x cs)
unfolding escape escape_of
short-escape s x b cs e q = rw (get_char-cons s x cs e, q) refl

coded-escape :
    (s : Source) (h i j k a b c d : ℕ) (bs cs : List ℕ)
    → s.rest ≡ 117 ∷ h ∷ i ∷ j ∷ k ∷ cs
    → hex_digit h ≡ some a
    → hex_digit i ≡ some b
    → hex_digit j ≡ some c
    → hex_digit k ≡ some d
    → unicode_to_utf8 (((a * 16 + b) * 16 + c) * 16 + d) ≡ bs
    → (s' : Source) × (escape s ≡ escaped bs s') × Moved s s' cs
unfolding escape escape_of simple_escape
coded-escape s h i j k a b c d bs cs e ha hb hc hd u =
    let s0 = behind s 117 (h ∷ i ∷ j ∷ k ∷ cs) in
    let s1 = behind s0 h (i ∷ j ∷ k ∷ cs) in
    let s2 = behind s1 i (j ∷ k ∷ cs) in
    let s3 = behind s2 j (k ∷ cs) in
    let s4 = behind s3 k cs in
    let zero_times : 0 * 16 + a ≡ a = omega arith in
    let last : unicode_digits 0 (((a * 16 + b) * 16 + c) * 16 + d) s4 ≡ escaped bs s4 =
      unfold unicode_digits in ap (λ x. escaped x s4) u in
    let all : unicode_digits 4 0 s0 ≡ escaped bs s4 =
      unicode_digits-cons 3 0 h a s0 _ refl ha
      ∙ ap (λ u. unicode_digits 3 u s1) zero_times
      ∙ unicode_digits-cons 2 a i b s1 _ refl hb
      ∙ unicode_digits-cons 1 (a * 16 + b) j c s2 _ refl hc
      ∙ unicode_digits-cons 0 ((a * 16 + b) * 16 + c) k d s3 _ refl hd
      ∙ last in
    (
      s4,
      rw (get_char-cons s 117 (h ∷ i ∷ j ∷ k ∷ cs) e) all,
      record { rest = refl; allow_hex = refl; allow_consts = refl; allow_idents = refl },
    )

module _ (can_allocate : ℕ → Bool) (next : Stack → Source → Outcome) (index : ℕ) (st : Stack) where
  -- What one round comes to on the source `s` that starts with a spelling of `bs`.
  abbrev Round : Source → List ℕ → List ℕ → Type 0
  Round s bs rest =
      (s' : Source) × (string_round can_allocate next index st (get_char s).0 (get_char s).1
        ≡ put_char can_allocate next index st s' bs)
      × Moved s s' rest

  plain-Round :
      (c : ℕ) (s : Source) (rest : List ℕ)
      → s.rest ≡ c ∷ rest
      → c ≢ 0
      → c ≢ 34
      → c ≢ 92
      → Round s (c ∷ []) rest
  unfolding string_round
  plain-Round c s rest e z q b =
      let zf : (c == 0) ≡ false = ground (arith, z) in
      let qf : (c == 34) ≡ false = ground (arith, q) in
      let bf : (c == 92) ≡ false = ground (arith, b) in
      (behind s c rest, rw (get_char-cons s c rest e, zf, qf, bf) refl, behind-Moved s c rest)

  escape-Round :
      (s s' : Source) (bs cs rest : List ℕ)
      → s.rest ≡ 92 ∷ cs
      → escape (behind s 92 cs) ≡ escaped bs s'
      → Moved s s' rest
      → Round s bs rest
  unfolding string_round put_escape
  escape-Round s s' bs cs rest e q m = (s', rw (get_char-cons s 92 cs e, q) refl, m)

  pub string_round-Written :
      (s : Source) (t bs rest : List ℕ) → Written t bs → s.rest ≡ t ++ rest → Round s bs rest
  string_round-Written s _ _ rest (plain {c} z q b) e = plain-Round c s rest e z q b
  string_round-Written s _ _ rest (short {e = x} {b} q) e =
      let s1 = behind s 92 (x ∷ rest) in
      let m : Moved s (behind s1 x rest) rest = record {
        rest = refl;
        allow_hex = refl;
        allow_consts = refl;
        allow_idents = refl;
      } in
      escape-Round s (behind s1 x rest) (b ∷ []) (x ∷ rest) rest e (short-escape s1 x b rest refl q)
        m
  string_round-Written s _ bs rest (coded {h} {i} {j} {k} a b c d ha hb hc hd u) e =
      let cs = 117 ∷ h ∷ i ∷ j ∷ k ∷ rest in
      let r = coded-escape (behind s 92 cs) h i j k a b c d bs rest refl ha hb hc hd u in
      escape-Round s r.0 bs cs rest e r.1 (Moved-trans (behind-Moved s 92 cs) r.2)
