-- ===== src/Jitson/Grammar/Numbers.antt =====
-- Numbers of lib-sxe-jitson/sxe-jitson-source.c, as they are read from their texts.
use libsxe.Base.{
  ℕ, ◌≡◌, refl, ap, ◌∙◌, Bool, true, false, ◌&&◌, ◌||◌, List, [], ◌∷◌, ◌++◌, some, ◌==◌, arith,
  append-nil, append_assoc,
}
use libsxe.Jitson.Source.{
  Source, behind, get_char, get_from, peek_from, peek_next, isdigit, identifier_char, Number,
  number_text, digits, exponent_digits, exponent_sign, exponent, fraction_digits, fraction,
}
use libsxe.Jitson.Strings.Escapes.{Moved, Moved-trans, behind-Moved, get_char-cons}
use libsxe.Jitson.Grammar.{
  and_then, Stops, Digits, digit, Exponent, no_exponent, unsigned_exponent, signed_exponent,
  Fraction, no_fraction, with_fraction,
}
use libsxe.Jitson.Grammar.Scan.{Moved_here, get_while-Every}

-- The next byte.
get_from-peek : (s : Source) (cs : List ℕ) → (get_from s cs).0 ≡ peek_from cs
unfolding get_from peek_from
get_from-peek s [] = refl
get_from-peek s (c ∷ cs) = refl

pub get_char-peek : (s : Source) (cs : List ℕ) → s.rest ≡ cs → (get_char s).0 ≡ peek_from cs
unfolding get_char
get_char-peek s cs e = get_from-peek s s.rest ∙ ap peek_from e

not_exponent : (c : ℕ) → identifier_char c ≡ false → (c == 69 || c == 101) ≡ false
not_exponent c h = ground (arith, h)

not_point : (c : ℕ) → identifier_char c ≡ false → (c == 46) ≡ false
not_point c h = ground (arith, h)

not_digit : (c : ℕ) → identifier_char c ≡ false → isdigit c ≡ false
not_digit c h = ground (arith, h)

exponent_not_digit : (c : ℕ) → (c == 69 || c == 101) ≡ true → isdigit c ≡ false
exponent_not_digit c h = ground (arith, h)

exponent_not_point : (c : ℕ) → (c == 69 || c == 101) ≡ true → (c == 46) ≡ false
exponent_not_point c h = ground (arith, h)

digit_not_sign : (c : ℕ) → isdigit c ≡ true → (c == 45 || c == 43) ≡ false
digit_not_sign c h = ground (arith, h)

-- What stands behind digits.
Exponent-Stops :
    {b : Bool} {t : List ℕ} (rest : List ℕ)
    → Exponent b t
    → Stops identifier_char rest
    → Stops isdigit (t ++ rest)
unfolding peek_from
Exponent-Stops rest no_exponent h = not_digit (peek_from rest) h
Exponent-Stops rest (unsigned_exponent {e} q ds) h = exponent_not_digit e q
Exponent-Stops rest (signed_exponent {e} q p ds) h = exponent_not_digit e q

pub Fraction-Stops :
    {b : Bool} {t : List ℕ} (rest : List ℕ)
    → Fraction b t
    → Stops identifier_char rest
    → Stops isdigit (t ++ rest)
unfolding peek_from
Fraction-Stops rest (no_fraction x) h = Exponent-Stops rest x h
Fraction-Stops rest (with_fraction d x) h = refl

digits-Digits :
    (s : Source) (ds rest : List ℕ)
    → Digits ds
    → Stops isdigit rest
    → s.rest ≡ ds ++ rest
    → (s' : Source) × (digits s ≡ (some ds, s')) × Moved s s' rest
unfolding digits peek_next peek_from
digits-Digits s _ rest (digit {c} {cs} h es) n e =
    let r = get_while-Every isdigit s (c ∷ cs) rest (and_then h es) n e in
    (r.0, rw (r.1, e, h) refl, r.2)

unsigned_first :
    (ds rest : List ℕ) (s : Source)
    → Digits ds
    → s.rest ≡ ds ++ rest
    → ((get_char s).0 == 45 || (get_char s).0 == 43) ≡ false
unsigned_first _ rest s (digit {c} {cs} h es) e =
    rw (get_char-cons s c (cs ++ rest) e) (digit_not_sign c h)

pub and_false : (b : Bool) → (b && false) ≡ false
and_false true = refl
and_false false = refl

get_char-peek_not_point :
    {b : Bool} (s : Source) (t rest : List ℕ)
    → Exponent b t
    → Stops identifier_char rest
    → s.rest ≡ t ++ rest
    → ((get_char s).0 == 46) ≡ false
unfolding peek_from
get_char-peek_not_point s _ rest no_exponent h e =
    rw (get_char-peek s rest e) (not_point (peek_from rest) h)
get_char-peek_not_point s _ rest (unsigned_exponent {e = x} {ds} q d) h e =
    rw (get_char-peek s (x ∷ (ds ++ rest)) e) (exponent_not_point x q)
get_char-peek_not_point s _ rest (signed_exponent {e = x} {sign} {ds} q p d) h e =
    rw (get_char-peek s (x ∷ sign ∷ (ds ++ rest)) e) (exponent_not_point x q)

-- The text that is read, with the source behind it.
abbrev pub Reads : Number → List ℕ → Bool → Source → List ℕ → Type 0
Reads x text u s rest = (s' : Source) × (x ≡ number_text text u s') × Moved s s' rest

signed-Reads :
    (text ds rest : List ℕ) (s : Source)
    → Digits ds
    → Stops isdigit rest
    → s.rest ≡ ds ++ rest
    → Reads (exponent_digits text (digits s)) (text ++ ds) false s rest
unfolding exponent_digits
signed-Reads text ds rest s d n e = let r = digits-Digits s ds rest d n e in (r.0, rw r.1 refl, r.2)

exponent-Reads :
    {b : Bool} {t : List ℕ} (text rest : List ℕ) (u : Bool) (s : Source)
    → Exponent b t
    → Stops identifier_char rest
    → s.rest ≡ t ++ rest
    → Reads (exponent text u s) (text ++ t) (b && u) s rest
unfolding exponent exponent_sign
exponent-Reads text rest u s no_exponent h e =
    let c : (get_char s).0 ≡ peek_from rest = get_char-peek s rest e in
    let no : ((get_char s).0 == 69 || (get_char s).0 == 101) ≡ false =
      rw c (not_exponent (peek_from rest) h) in
    (s, rw (no, append-nil text) refl, Moved_here s rest e)
exponent-Reads text rest u s (unsigned_exponent {e = x} {ds} q d) h e =
    let s1 = behind s x (ds ++ rest) in
    let r = signed-Reads (text ++ x ∷ []) ds rest s1 d (not_digit (peek_from rest) h) refl in
    let sign = unsigned_first ds rest s1 d refl in
    let joined = ap (λ t. number_text t false r.0) (append_assoc text (x ∷ []) ds) in
    (
      r.0,
      rw (get_char-cons s x (ds ++ rest) e, q, sign) (r.1 ∙ joined),
      Moved-trans (behind-Moved s x (ds ++ rest)) r.2,
    )
exponent-Reads text rest u s (signed_exponent {e = x} {sign} {ds} q p d) h e =
    let s1 = behind s x (sign ∷ (ds ++ rest)) in
    let s2 = behind s1 sign (ds ++ rest) in
    let r =
      signed-Reads ((text ++ x ∷ []) ++ sign ∷ []) ds rest s2 d (not_digit (peek_from rest) h)
        refl in
    let joined =
      ap (λ t. number_text t false r.0)
        (append_assoc (text ++ x ∷ []) (sign ∷ []) ds ∙ append_assoc text (x ∷ []) (sign ∷ ds)) in
    let m : Moved s s2 (ds ++ rest) = record {
      rest = refl;
      allow_hex = refl;
      allow_consts = refl;
      allow_idents = refl;
    } in
    (
      r.0,
      rw (get_char-cons s x (sign ∷ (ds ++ rest)) e, q, get_char-cons s1 sign (ds ++ rest) refl, p)
          (r.1 ∙ joined),
      Moved-trans m r.2,
    )

pub fraction-Reads :
    {b : Bool} {t : List ℕ} (text rest : List ℕ) (u : Bool) (s : Source)
    → Fraction b t
    → Stops identifier_char rest
    → s.rest ≡ t ++ rest
    → Reads (fraction text u s) (text ++ t) (b && u) s rest
unfolding fraction fraction_digits
fraction-Reads {b} {t} text rest u s (no_fraction x) h e =
    let c : ((get_char s).0 == 46) ≡ false = get_char-peek_not_point s t rest x h e in
    let r = exponent-Reads text rest u s x h e in (r.0, rw c r.1, r.2)
fraction-Reads text rest u s (with_fraction {b} {ds} {t} d x) h e =
    let s1 = behind s 46 (ds ++ t ++ rest) in
    let r = digits-Digits s1 ds (t ++ rest) d (Exponent-Stops rest x h) (append_assoc ds t rest) in
    let y = exponent-Reads ((text ++ 46 ∷ []) ++ ds) rest false r.0 x h r.2.rest in
    let joined = append_assoc (text ++ 46 ∷ []) ds t ∙ append_assoc text (46 ∷ []) (ds ++ t) in
    let flag : (b && false) ≡ false = and_false b in
    let m : Moved s s1 (ds ++ t ++ rest) = record {
      rest = refl;
      allow_hex = refl;
      allow_consts = refl;
      allow_idents = refl;
    } in
    (
      y.0,
      rw (get_char-cons s 46 (ds ++ t ++ rest) e, r.1)
          (y.1
            ∙ ap (λ v. number_text v (b && false) y.0) joined
            ∙ ap (λ f. number_text (text ++ 46 ∷ (ds ++ t)) f y.0) flag),
      Moved-trans (Moved-trans m r.2) y.2,
    )
