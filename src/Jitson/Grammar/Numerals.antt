-- ===== src/Jitson/Grammar/Numerals.antt =====
-- Numbers of lib-sxe-jitson/sxe-jitson-source.c with their signs.
use libsxe.Base.{
  ℕ, ◌≡◌, refl, ap, ◌∙◌, Bool, true, false, ◌&&◌, ◌||◌, List, [], ◌∷◌, ◌++◌, ◌==◌, arith, length,
  append_assoc,
}
use libsxe.Jitson.Source.{
  Source, behind, get_char, peek_from, isdigit, identifier_char, number_text, unsigned_number,
  get_number,
}
use libsxe.Jitson.Strings.Escapes.{Moved-trans, behind-Moved, get_char-cons}
use libsxe.Jitson.Grammar.{
  Every, none_left, and_then, Stops, Digits, digit, no_exponent, unsigned_exponent, signed_exponent,
  Fraction, no_fraction, with_fraction, Numeral, positive, negative,
}
use libsxe.Jitson.Grammar.Scan.{get_while-Every}
use libsxe.Jitson.Grammar.Numbers.{Reads, get_char-peek, fraction-Reads, Fraction-Stops, and_false}

-- What stands behind a digit is not an x.
identifier_not_x : (c : ℕ) → identifier_char c ≡ false → (c == 120) ≡ false
identifier_not_x c h = ground (arith, h)

digit_not_x : (c : ℕ) → isdigit c ≡ true → (c == 120) ≡ false
digit_not_x c h = ground (arith, h)

exponent_not_x : (c : ℕ) → (c == 69 || c == 101) ≡ true → (c == 120) ≡ false
exponent_not_x c h = ground (arith, h)

digit_not_minus : (c : ℕ) → isdigit c ≡ true → (c == 45) ≡ false
digit_not_minus c h = ground (arith, h)

no_x_behind :
    {b : Bool} {t : List ℕ} (rest : List ℕ)
    → Fraction b t
    → Stops identifier_char rest
    → (peek_from (t ++ rest) == 120) ≡ false
unfolding peek_from
no_x_behind rest (no_fraction no_exponent) h = identifier_not_x (peek_from rest) h
no_x_behind rest (no_fraction (unsigned_exponent {e} q d)) h = exponent_not_x e q
no_x_behind rest (no_fraction (signed_exponent {e} q p d)) h = exponent_not_x e q
no_x_behind rest (with_fraction d x) h = refl

digits_not_x :
    {b : Bool} {t : List ℕ} (cs rest : List ℕ)
    → Every isdigit cs
    → Fraction b t
    → Stops identifier_char rest
    → (peek_from (cs ++ (t ++ rest)) == 120) ≡ false
unfolding peek_from
digits_not_x _ rest none_left x h = no_x_behind rest x h
digits_not_x _ rest (and_then {c} e es) x h = digit_not_x c e

unsigned-Reads :
    {b : Bool} {ds t : List ℕ} (sign rest : List ℕ) (s : Source)
    → Digits ds
    → Fraction b t
    → Stops identifier_char rest
    → s.rest ≡ ds ++ (t ++ rest)
    → Reads (unsigned_number sign s) (sign ++ (ds ++ t)) (b && (length sign == 0)) s rest
unfolding unsigned_number
unsigned-Reads {b} {ds} {t} sign rest s (digit {c} {cs} z es) x h e =
    let s1 = behind s c (cs ++ (t ++ rest)) in
    let w = get_while-Every isdigit s1 cs (t ++ rest) es (Fraction-Stops rest x h) refl in
    let f = fraction-Reads (sign ++ c ∷ cs) rest (length sign == 0) w.0 x h w.2.rest in
    let no_x : ((get_char s1).0 == 120) ≡ false =
      rw (get_char-peek s1 (cs ++ (t ++ rest)) refl) (digits_not_x cs rest es x h) in
    let no_hex : (s.allow_hex && length sign == 0 && c == 48 && (get_char s1).0 == 120) ≡ false =
      ap (λ d. s.allow_hex && length sign == 0 && c == 48 && d) no_x
      ∙ and_false (s.allow_hex && length sign == 0 && c == 48) in
    let joined =
      ap (λ v. number_text v (b && (length sign == 0)) f.0) (append_assoc sign (c ∷ cs) t) in
    let m = Moved-trans (behind-Moved s c (cs ++ (t ++ rest))) w.2 in
    (
      f.0,
      rw (get_char-cons s c (cs ++ (t ++ rest)) e, z, no_hex, w.1) (f.1 ∙ joined),
      Moved-trans m f.2,
    )

not_minus :
    (s : Source) (ds rest : List ℕ)
    → Digits ds
    → s.rest ≡ ds ++ rest
    → ((get_char s).0 == 45) ≡ false
unfolding peek_from
not_minus s _ rest (digit {c} {cs} h es) e =
    rw (get_char-cons s c (cs ++ rest) e) (digit_not_minus c h)

and_true : (b : Bool) → (b && true) ≡ b
and_true true = refl
and_true false = refl

-- A number is read up to its end, where what stands behind it is no byte of an identifier.
pub get_number-Numeral :
    {b : Bool} {t : List ℕ} (rest : List ℕ) (s : Source)
    → Numeral b t
    → Stops identifier_char rest
    → s.rest ≡ t ++ rest
    → Reads (get_number s) t b s rest
unfolding get_number
get_number-Numeral rest s (positive {b} {ds} {t} d x) h e =
    let r = unsigned-Reads [] rest s d x h (e ∙ append_assoc ds t rest) in
    let no_sign : ((get_char s).0 == 45) ≡ false =
      not_minus s ds (t ++ rest) d (e ∙ append_assoc ds t rest) in
    (r.0, rw no_sign (r.1 ∙ ap (λ u. number_text (ds ++ t) u r.0) (and_true b)), r.2)
get_number-Numeral rest s (negative {b} {ds} {t} d x) h e =
    let s1 = behind s 45 (ds ++ t ++ rest) in
    let r = unsigned-Reads (45 ∷ []) rest s1 d x h (append_assoc ds t rest) in
    (
      r.0,
      rw (get_char-cons s 45 (ds ++ t ++ rest) e)
          (r.1 ∙ ap (λ u. number_text (45 ∷ (ds ++ t)) u r.0) (and_false b)),
      Moved-trans (behind-Moved s 45 (ds ++ t ++ rest)) r.2,
    )
