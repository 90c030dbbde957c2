-- ===== src/Jitson/Grammar.antt =====
-- The texts of JSON values, as RFC 8259 has them and with what lib-sxe-jitson allows besides (zeros in front of
-- a number, control characters in strings, other white space), and how they are read.
pub mod Scan
pub mod Numbers
pub mod Numerals
pub mod Heads
pub mod Scalars
pub mod Steps
pub mod Leaves
pub mod Texts
pub mod Tokens
pub mod Parse
pub mod Cut
use libsxe.Base.{
  ℕ, zero, suc, ◌+◌, ◌≡◌, Bool, true, false, ◌||◌, List, [], ◌∷◌, ◌++◌, ◌==◌, if◌then◌else◌, length,
}
use libsxe.Jitson.Source.{isspace, isdigit, identifier_char, peek_from}
use libsxe.Jitson.Value.{
  Value, null, boolean, uint, number, string, array, object, Elements, nil, cons, Members, end,
  member,
}
use libsxe.Jitson.Load.{Environment}
use libsxe.Jitson.Strings.Loop.{Spelled}

-- Bytes that all pass a test.
pub data Every (test : ℕ → Bool) : List ℕ → Type 0 where
  none_left : Every test []
  and_then : {c : ℕ} {cs : List ℕ} → test c ≡ true → Every test cs → Every test (c ∷ cs)

-- The text behind does not go on with such a byte.
abbrev pub Stops : (ℕ → Bool) → List ℕ → Type 0
Stops test rest = test (peek_from rest) ≡ false

-- White space.
abbrev pub Blank : List ℕ → Type 0
Blank = Every isspace

-- One digit or more.
pub data Digits : List ℕ → Type 0 where
  digit : {c : ℕ} {cs : List ℕ} → isdigit c ≡ true → Every isdigit cs → Digits (c ∷ cs)

-- The exponent of a number, and whether there is none.
pub data Exponent : Bool → List ℕ → Type 0 where
  no_exponent : Exponent true []
  unsigned_exponent :
      {e : ℕ} {ds : List ℕ} → (e == 69 || e == 101) ≡ true → Digits ds → Exponent false (e ∷ ds)
  signed_exponent :
      {e sign : ℕ} {ds : List ℕ}
      → (e == 69 || e == 101) ≡ true
      → (sign == 45 || sign == 43) ≡ true
      → Digits ds
      → Exponent false (e ∷ sign ∷ ds)

-- The fraction and the exponent of a number, and whether there is neither.
pub data Fraction : Bool → List ℕ → Type 0 where
  no_fraction : {b : Bool} {t : List ℕ} → Exponent b t → Fraction b t
  with_fraction :
      {b : Bool} {ds t : List ℕ} → Digits ds → Exponent b t → Fraction false (46 ∷ (ds ++ t))

-- A number, zeros in front included, and whether it is just digits.
pub data Numeral : Bool → List ℕ → Type 0 where
  positive : {b : Bool} {ds t : List ℕ} → Digits ds → Fraction b t → Numeral b (ds ++ t)
  negative : {b : Bool} {ds t : List ℕ} → Digits ds → Fraction b t → Numeral false (45 ∷ (ds ++ t))

-- The texts of values without the white space around them, where `hex` says whether hexadecimal numbers are
-- allowed. The members and the elements have their closing brace or bracket, and not their opening one; members lack the quote in front of the first name, too.
mutual
  pub data Json (env : Environment) (hex : Bool) : Value → List ℕ → Type 0 where
    null_text : Json env hex null (110 ∷ 117 ∷ 108 ∷ 108 ∷ [])
    true_text : Json env hex (boolean true) (116 ∷ 114 ∷ 117 ∷ 101 ∷ [])
    false_text : Json env hex (boolean false) (102 ∷ 97 ∷ 108 ∷ 115 ∷ 101 ∷ [])
    uint_text :
        {n : ℕ} {t : List ℕ}
        → Numeral true t
        → ((rest : List ℕ)
            → Stops identifier_char rest
            → env.strtoul (t ++ rest) (if hex then 0 else 10) ≡ (n, length t))
        → Json env hex (uint n) t
    double_text :
        {d : ℕ} {t : List ℕ}
        → Numeral false t
        → ((rest : List ℕ) → Stops identifier_char rest → env.strtod (t ++ rest) ≡ (d, length t))
        → Json env hex (number d) t
    string_text : {w t : List ℕ} → Spelled 0 t w → Json env hex (string w) (34 ∷ (t ++ 34 ∷ []))
    array_empty : {a : List ℕ} → Blank a → Json env hex (array nil) (91 ∷ (a ++ 93 ∷ []))
    array_text :
        {es : Elements} {a t : List ℕ}
        → Blank a
        → ElementsText env hex es t
        → Json env hex (array es) (91 ∷ (a ++ t))
    object_empty : {a : List ℕ} → Blank a → Json env hex (object end) (123 ∷ (a ++ 125 ∷ []))
    object_text :
        {ms : Members} {a t : List ℕ}
        → Blank a
        → MembersText env hex ms t
        → Json env hex (object ms) (123 ∷ (a ++ 34 ∷ t))

  pub data ElementsText (env : Environment) (hex : Bool) : Elements → List ℕ → Type 0 where
    last_element :
        {v : Value} {t b : List ℕ}
        → Json env hex v t
        → Blank b
        → ElementsText env hex (cons v nil) (t ++ (b ++ 93 ∷ []))
    next_element :
        {v : Value} {es : Elements} {t b a ts : List ℕ}
        → Json env hex v t
        → Blank b
        → Blank a
        → ElementsText env hex es ts
        → ElementsText env hex (cons v es) (t ++ (b ++ 44 ∷ (a ++ ts)))

  pub data MembersText (env : Environment) (hex : Bool) : Members → List ℕ → Type 0 where
    last_member :
        {key k : List ℕ} {v : Value} {a b t c : List ℕ}
        → Spelled 0 k key
        → Blank a
        → Blank b
        → Json env hex v t
        → Blank c
        → MembersText env hex
            (member key v end)
            (k ++ 34 ∷ (a ++ 58 ∷ (b ++ (t ++ (c ++ 125 ∷ [])))))
    next_member :
        {key k : List ℕ} {v : Value} {ms : Members} {a b t c d ts : List ℕ}
        → Spelled 0 k key
        → Blank a
        → Blank b
        → Json env hex v t
        → Blank c
        → Blank d
        → MembersText env hex ms ts
        → MembersText env hex
            (member key v ms)
            (k ++ 34 ∷ (a ++ 58 ∷ (b ++ (t ++ (c ++ 44 ∷ (d ++ 34 ∷ ts))))))
