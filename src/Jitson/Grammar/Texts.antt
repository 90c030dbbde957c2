-- ===== src/Jitson/Grammar/Texts.antt =====
-- How the texts of JSON values start and stop, and how they are put together.
use libsxe.Base.{
  ℕ, suc, ◌≤◌, ◌<◌, ◌≡◌, refl, ap, sym, ◌∙◌, Bool, true, false, List, [], ◌∷◌, ◌++◌, arith, length,
  length-append, append_assoc,
}
use libsxe.Jitson.Source.{Source, isspace, identifier_char, peek_from}
use libsxe.Jitson.Load.{Environment, Class, class_of}
use libsxe.Jitson.Consume.{left}
use libsxe.Jitson.Value.{Value, Elements}
use libsxe.Jitson.Grammar.{
  none_left, and_then, Stops, Blank, Json, null_text, true_text, false_text, uint_text, double_text,
  string_text, array_empty, array_text, object_empty, object_text, ElementsText, last_element,
  next_element,
}
use libsxe.Jitson.Grammar.Leaves.{Starts, starts, Numeral-Starts}

pub space_not_identifier : (c : ℕ) → isspace c ≡ true → identifier_char c ≡ false
space_not_identifier c h = ground (arith, h)

pub Blank-Stops :
    (b : List ℕ) (c : ℕ) (r : List ℕ)
    → Blank b
    → identifier_char c ≡ false
    → Stops identifier_char (b ++ c ∷ r)
unfolding peek_from
Blank-Stops _ c r none_left h = h
Blank-Stops _ c r (and_then {c = x} e es) h = space_not_identifier x e

module _ {env : Environment} {hex : Bool} where
  pub Json-Starts :
      {v : Value} {t : List ℕ} (rest : List ℕ)
      → Json env hex v t
      → (k : Class) × Starts k (t ++ rest)
  unfolding class_of
  Json-Starts rest null_text = (Class.alphabetic, starts refl refl refl refl)
  Json-Starts rest true_text = (Class.alphabetic, starts refl refl refl refl)
  Json-Starts rest false_text = (Class.alphabetic, starts refl refl refl refl)
  Json-Starts rest (uint_text x q) = (Class.numeric, Numeral-Starts rest x)
  Json-Starts rest (double_text x q) = (Class.numeric, Numeral-Starts rest x)
  Json-Starts rest (string_text x) = (Class.quote, starts refl refl refl refl)
  Json-Starts rest (array_empty b) = (Class.open_array, starts refl refl refl refl)
  Json-Starts rest (array_text b x) = (Class.open_array, starts refl refl refl refl)
  Json-Starts rest (object_empty b) = (Class.open_object, starts refl refl refl refl)
  Json-Starts rest (object_text b x) = (Class.open_object, starts refl refl refl refl)

  pub ElementsText-Starts :
      {es : Elements} {t : List ℕ} (rest : List ℕ)
      → ElementsText env hex es t
      → (k : Class) × Starts k (t ++ rest)
  ElementsText-Starts rest (last_element {t} {b} j c) =
      rw (append_assoc t (b ++ 93 ∷ []) rest) (Json-Starts ((b ++ 93 ∷ []) ++ rest) j)
  ElementsText-Starts rest (next_element {t} {b} {a} {ts} j c d x) =
      rw (append_assoc t (b ++ 44 ∷ (a ++ ts)) rest) (Json-Starts ((b ++ 44 ∷ (a ++ ts)) ++ rest) j)

-- What is left behind white space and the first byte.
pub shorter :
    (s s' : Source) (a cs u : List ℕ) (c f : ℕ)
    → s.rest ≡ a ++ c ∷ cs
    → left s < suc f
    → s'.rest ≡ u
    → length u ≤ length cs
    → left s' < f
shorter s s' a cs u c f e l e' h =
    omega (arith, ap length e, ap length e', length-append a (c ∷ cs), l, h)

-- The text of a collection behind its opening bracket, with what stands behind it.
pub unpacked : (a t rest : List ℕ) → (a ++ t) ++ rest ≡ a ++ (t ++ rest)
unpacked a t rest = append_assoc a t rest

pub unpacked_length : (a t rest : List ℕ) → length (t ++ rest) ≤ length ((a ++ t) ++ rest)
unpacked_length a t rest =
    omega (arith, length-append (a ++ t) rest, length-append a t, length-append t rest)

-- A value and the byte behind it, with what stands behind them.
pub one_packed :
    (t b : List ℕ) (c : ℕ) (rest : List ℕ) → (t ++ (b ++ c ∷ [])) ++ rest ≡ t ++ (b ++ c ∷ rest)
one_packed t b c rest =
    append_assoc t (b ++ c ∷ []) rest ∙ ap (λ z. t ++ z) (append_assoc b (c ∷ []) rest)

pub two_packed :
    (t b : List ℕ) (c : ℕ) (u rest : List ℕ)
    → (t ++ (b ++ c ∷ u)) ++ rest ≡ t ++ (b ++ c ∷ (u ++ rest))
two_packed t b c u rest =
    append_assoc t (b ++ c ∷ u) rest ∙ ap (λ z. t ++ z) (append_assoc b (c ∷ u) rest)

pub fewer :
    (s s' : Source) (a t b u : List ℕ) (c : ℕ)
    → s.rest ≡ a ++ (t ++ (b ++ c ∷ u))
    → s'.rest ≡ u
    → left s' < left s
fewer s s' a t b u c e e' = omega (
  arith,
  ap length e,
  ap length e',
  length-append a (t ++ (b ++ c ∷ u)),
  length-append t (b ++ c ∷ u),
  length-append b (c ∷ u),
)

pub member_packed :
    (k a b x rest : List ℕ)
    → (k ++ 34 ∷ (a ++ 58 ∷ (b ++ x))) ++ rest ≡ k ++ 34 ∷ (a ++ 58 ∷ (b ++ (x ++ rest)))
member_packed k a b x rest =
    append_assoc k (34 ∷ (a ++ 58 ∷ (b ++ x))) rest
    ∙ ap (λ z. k ++ 34 ∷ z) (append_assoc a (58 ∷ (b ++ x)) rest)
    ∙ ap (λ z. k ++ 34 ∷ (a ++ 58 ∷ z)) (append_assoc b x rest)

pub comma_packed :
    (c d ts rest : List ℕ) → c ++ 44 ∷ ((d ++ 34 ∷ ts) ++ rest) ≡ (c ++ 44 ∷ d) ++ 34 ∷ (ts ++ rest)
comma_packed c d ts rest =
    ap (λ z. c ++ 44 ∷ z) (append_assoc d (34 ∷ ts) rest)
    ∙ sym (append_assoc c (44 ∷ d) (34 ∷ (ts ++ rest)))

pub named_fewer :
    (s s' : Source) (k a u : List ℕ)
    → s.rest ≡ k ++ 34 ∷ (a ++ 58 ∷ u)
    → s'.rest ≡ u
    → left s' < left s
named_fewer s s' k a u e e' = omega (
  arith,
  ap length e,
  ap length e',
  length-append k (34 ∷ (a ++ 58 ∷ u)),
  length-append a (58 ∷ u),
)
