-- ===== src/Jitson/Consume.antt =====
-- What is left of the text of lib-sxe-jitson/sxe-jitson-source.c when a part of it is read.
use libsxe.Base.{
  ℕ, zero, suc, ◌≤◌, ◌<◌, ◌≡◌, ◌≢◌, refl, ap, sym, ◌∙◌, Bool, true, false, ◌&&◌, ◌||◌, List, [],
  ◌∷◌, ◌++◌, Option, none, some, ◌==◌, Bool-cases, inl, inr, arith, length,
}
use libsxe.Jitson.Source.{
  Source, behind, get_from, get_char, push_from, push_char, peek_next, isspace, isdigit, isxdigit,
  span, get_while, get_nonspace, Number, number_text, no_number, digits, exponent_digits,
  exponent_sign, exponent, fraction_digits, fraction, hex_digits, unsigned_number, get_number,
}

-- The bytes that are left.
abbrev pub left : Source → ℕ
left s = length s.rest

get_from_le : (s : Source) (cs : List ℕ) → s.rest ≡ cs → left (get_from s cs).1 ≤ left s
unfolding get_from
get_from_le s [] e = omega arith
get_from_le s (c ∷ cs) e = omega (arith, ap length e)

-- No more is left than before.
pub get_char_le : (s : Source) → left (get_char s).1 ≤ left s
unfolding get_char
get_char_le s = get_from_le s s.rest refl

get_from_lt :
    (s : Source) (cs : List ℕ)
    → s.rest ≡ cs
    → (get_from s cs).0 ≢ 0
    → left (get_from s cs).1 < left s
unfolding get_from
get_from_lt s [] e h = absurd (h refl)
get_from_lt s (c ∷ cs) e h = omega (arith, ap length e)

-- What is read before the end is a byte less.
pub get_char_lt : (s : Source) → (get_char s).0 ≢ 0 → left (get_char s).1 < left s
unfolding get_char
get_char_lt s h = get_from_lt s s.rest refl h

span_le : (test : ℕ → Bool) (s : Source) (cs : List ℕ) → left (span test s cs).1 ≤ length cs
unfolding span
span_le test s [] = omega arith
span_le test s (c ∷ cs) = elim (Bool-cases (test c)) [
  | inl e ↦ rw e (omega (arith, span_le test (behind s c cs) cs))
  | inr e ↦ rw e (omega arith)
]

pub get_while_le : (test : ℕ → Bool) (s : Source) → left (get_while test s).1 ≤ left s
get_while_le test s = span_le test s s.rest

pub get_nonspace_le : (s : Source) → left (get_nonspace s).1 ≤ left s
unfolding get_nonspace
get_nonspace_le s = omega (arith, get_char_le (get_while isspace s).1, get_while_le isspace s)

pub get_nonspace_lt : (s : Source) → (get_nonspace s).0 ≢ 0 → left (get_nonspace s).1 < left s
unfolding get_nonspace
get_nonspace_lt s h = omega (arith, get_char_lt (get_while isspace s).1 h, get_while_le isspace s)

-- Something was read, and it is not NUL.
pub data Read : List ℕ → Type 0 where
  a_byte : {c : ℕ} {cs : List ℕ} → c ≢ 0 → Read (c ∷ cs)

get_from-Read : (s : Source) (cs : List ℕ) → (get_from s cs).0 ≢ 0 → Read (get_from s cs).1.before
unfolding get_from
get_from-Read s [] h = absurd (h refl)
get_from-Read s (c ∷ cs) h = a_byte h

pub get_char-Read : (s : Source) → (get_char s).0 ≢ 0 → Read (get_char s).1.before
unfolding get_char
get_char-Read s h = get_from-Read s s.rest h

pub get_nonspace-Read : (s : Source) → (get_nonspace s).0 ≢ 0 → Read (get_nonspace s).1.before
unfolding get_nonspace
get_nonspace-Read s h = get_char-Read (get_while isspace s).1 h

-- A byte that is pushed back is left again.
push_from_le :
    (s : Source) (bs : List ℕ) (c : ℕ) (s' : Source)
    → push_from s bs c ≡ some s'
    → left s' ≡ suc (left s)
unfolding push_from
push_from_le s [] c s' e = absurd cc
push_from_le s (b ∷ bs) c s' e = elim (Bool-cases (b == c)) [
  | inl t ↦ let same : record s { before = bs; rest = b ∷ s.rest } ≡ s' = cc in ap left (sym same)
  | inr t ↦ absurd cc
]

pub push_char_le :
    (s : Source) (c : ℕ) (s' : Source) → push_char s c ≡ some s' → left s' ≡ suc (left s)
unfolding push_char
push_char_le s c s' e = push_from_le s s.before c s' e

isspace_pos : (c : ℕ) → isspace c ≡ true → c ≢ 0
isspace_pos zero e = absurd cc
isspace_pos (suc c) e = omega arith

pub span-Read : (s : Source) (cs : List ℕ) → Read s.before → Read (span isspace s cs).1.before
unfolding span
span-Read s [] r = r
span-Read s (c ∷ cs) r = elim (Bool-cases (isspace c)) [
  | inl e ↦ rw e (span-Read (behind s c cs) cs (a_byte (isspace_pos c e)))
  | inr e ↦ rw e r
]

pub none_pushed : (s : Source) (bs : List ℕ) → Read bs → push_from s bs 0 ≡ none
unfolding push_from
none_pushed s [] r = elim r [ ]
none_pushed s (zero ∷ bs) (a_byte h) = absurd (h refl)
none_pushed s (suc c ∷ bs) (a_byte h) = ground arith

from_pushed :
    (s s' : Source) (cs : List ℕ)
    → s.rest ≡ cs
    → Read s.before
    → push_char (get_from s cs).1 (get_from s cs).0 ≡ some s'
    → left s' ≤ left s
unfolding get_from push_char
from_pushed s s' [] q r e =
    let no : none ≡ some s' = sym (none_pushed s s.before r) ∙ e in absurd cc
from_pushed s s' (c ∷ cs) q r e =
    omega (arith, push_from_le (behind s c cs) (c ∷ s.before) c s' e, ap length q)

-- What is read behind white space and pushed back leaves no more than before.
pub nonspace_pushed :
    (s s' : Source)
    → Read s.before
    → push_char (get_nonspace s).1 (get_nonspace s).0 ≡ some s'
    → left s' ≤ left s
unfolding get_nonspace get_char
nonspace_pushed s s' r e =
    let w : Source = (get_while isspace s).1 in
    let p : left s' ≤ left w = from_pushed w s' w.rest refl (span-Read s s.rest r) e in
    omega (arith, p, get_while_le isspace s)

-- A number leaves at most `n` bytes, if it is one.
abbrev pub Leaves : ℕ → Number → Type 0
Leaves n (number_text text is_uint s) = left s ≤ n
Leaves n (no_number s) = Unit

digits_le : (s : Source) → left (digits s).1 ≤ left s
unfolding digits
digits_le s = elim (Bool-cases (isdigit (peek_next s))) [
  | inl e ↦ rw e (get_while_le isdigit s)
  | inr e ↦ rw e (omega arith)
]

exponent_digits-Leaves :
    (n : ℕ) (text : List ℕ) (r : Option (List ℕ) × Source)
    → left r.1 ≤ n
    → Leaves n (exponent_digits text r)
unfolding exponent_digits
exponent_digits-Leaves n text (none, s) h = tt
exponent_digits-Leaves n text (some ds, s) h = h

exponent-Leaves :
    (n : ℕ) (text : List ℕ) (u : Bool) (s : Source) → left s ≤ n → Leaves n (exponent text u s)
unfolding exponent exponent_sign
exponent-Leaves n text u s h =
    let s1 : Source = (get_char s).1 in
    let s2 : Source = (get_char s1).1 in
    let c : ℕ = (get_char s).0 in
    let d : ℕ = (get_char s1).0 in
    elim (Bool-cases (c == 69 || c == 101)) [
      | inr e ↦ rw e h
      | inl e ↦ elim (Bool-cases (d == 45 || d == 43)) [
        | inl q ↦
            rw (e, q)
              (exponent_digits-Leaves n _ (digits s2)
                (omega (arith, digits_le s2, get_char_le s1, get_char_le s)))
        | inr q ↦
            rw (e, q)
              (exponent_digits-Leaves n _ (digits s1) (omega (arith, digits_le s1, get_char_le s)))
      ]
    ]

fraction_digits-Leaves :
    (n : ℕ) (text : List ℕ) (r : Option (List ℕ) × Source)
    → left r.1 ≤ n
    → Leaves n (fraction_digits text r)
unfolding fraction_digits
fraction_digits-Leaves n text (none, s) h = tt
fraction_digits-Leaves n text (some ds, s) h = exponent-Leaves n (text ++ ds) false s h

fraction-Leaves :
    (n : ℕ) (text : List ℕ) (u : Bool) (s : Source) → left s ≤ n → Leaves n (fraction text u s)
unfolding fraction
fraction-Leaves n text u s h =
    let s1 : Source = (get_char s).1 in
    let c : ℕ = (get_char s).0 in
    elim (Bool-cases (c == 46)) [
      | inl e ↦
          rw e (fraction_digits-Leaves n _ (digits s1) (omega (arith, digits_le s1, get_char_le s)))
      | inr e ↦ rw e (exponent-Leaves n text u s h)
    ]

hex_digits-Leaves : (n : ℕ) (r : List ℕ × Source) → left r.1 ≤ n → Leaves n (hex_digits r)
unfolding hex_digits
hex_digits-Leaves n ([], s) h = tt
hex_digits-Leaves n (c ∷ cs, s) h = h

unsigned_number-Leaves :
    (n : ℕ) (sign : List ℕ) (s : Source) → left s ≤ n → Leaves n (unsigned_number sign s)
unfolding unsigned_number
unsigned_number-Leaves n sign s h =
    let s1 : Source = (get_char s).1 in
    let s2 : Source = (get_char s1).1 in
    let s3 : Source = (get_while isdigit s1).1 in
    let c : ℕ = (get_char s).0 in
    let b : Bool = (s.allow_hex && length sign == 0 && c == 48 && (get_char s1).0 == 120) in
    elim (Bool-cases (isdigit c)) [
      | inr e ↦ rw e tt
      | inl e ↦ elim (Bool-cases b) [
        | inl q ↦
            rw (e, q)
              (hex_digits-Leaves n (get_while isxdigit s2)
                (omega (arith, get_while_le isxdigit s2, get_char_le s1, get_char_le s, h)))
        | inr q ↦
            rw (e, q)
              (fraction-Leaves n _ _ s3 (omega (arith, get_while_le isdigit s1, get_char_le s, h)))
      ]
    ]

pub get_number-Leaves : (s : Source) → Leaves (left s) (get_number s)
unfolding get_number
get_number-Leaves s =
    let s1 : Source = (get_char s).1 in
    let c : ℕ = (get_char s).0 in
    elim (Bool-cases (c == 45)) [
      | inl e ↦ rw e (unsigned_number-Leaves (left s) (45 ∷ []) s1 (get_char_le s))
      | inr e ↦ rw e (unsigned_number-Leaves (left s) [] s (omega arith))
    ]
