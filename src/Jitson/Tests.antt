-- ===== src/Jitson/Tests.antt =====
-- The parser on small texts.
use libsxe.Base.{
  ℕ, ◌+◌, ◌*◌, ◌-◌, ◌≡◌, refl, true, false, List, [], ◌∷◌, ◌++◌, none, arith, strlen, length,
  if◌then◌else◌,
}
use libsxe.Jitson.{Stack}
use libsxe.Jitson.Source.{
  isdigit, identifier_char, peek_from, source_from_string, source_from_buffer,
}
use libsxe.Jitson.Text.{aborted}
use libsxe.Jitson.Load.{Environment, load_json, parse_json}
use libsxe.Jitson.Expand.{IsStack}
use libsxe.Jitson.Value.{Value, uint, boolean, array, object, cons, nil, member, end, encode}
use libsxe.Jitson.Strings.Escapes.{Written, plain}
use libsxe.Jitson.Strings.Tokens.{fits_one}
use libsxe.Jitson.Strings.Loop.{Spelled, done, more}
use libsxe.Jitson.Grammar.{
  Stops, none_left, and_then, digit, no_exponent, no_fraction, Numeral, positive, Json, true_text,
  uint_text, array_text, object_text, last_element, next_element, last_member,
}
use libsxe.Jitson.Grammar.Scalars.{Parsed}
use libsxe.Jitson.Grammar.Parse.{parse_json-Json}
use libsxe.Jitson.Grammar.Cut.{load_json-aborted}
use libsxe.Jitson.Value.{Elements, Members}
use libsxe.Jitson.Access.{Array, get_element, get_member}
use libsxe.Jitson.Access.Elements.{nth, IsArray, Given, get_element-IsArray}
use libsxe.Jitson.Access.Buckets.{last_value}
use libsxe.Jitson.Access.Members.{Obtained}
use libsxe.Jitson.Access.Texts.{get_member-parse_json}
use libsxe.Jitson.Finish.{Fine}
use libsxe.Jitson.Finish.Values.{parse_json-Fine}

-- The value of the decimal digits that a text begins with, behind `k` digits with the value `n`, and how
-- many digits they are.
abbrev decimal : ℕ → ℕ → List ℕ → ℕ × ℕ
decimal n k [] = (n, k)
decimal n k (c ∷ cs) =
    let rest = decimal (n * 10 + (c - 48)) (k + 1) cs in if isdigit c then rest else (n, k)

abbrev env : Environment
env = record {
  can_allocate = λ n. true;
  strtoul = λ text base. decimal 0 0 text;
  strtod = λ text. (0, length text);
  constant = λ name. none;
  idents_registered = false;
}

abbrev empty : Stack
empty = record { maximum = 1; allocated = true; tokens = []; open_at = 0 }

empty-IsStack : IsStack empty
empty-IsStack = record { maximum = omega arith; fits = omega arith }

-- [1, {"a":true}]
abbrev two : Value
two = array (cons (uint 1) (cons (object (member (97 ∷ []) (boolean true) end)) nil))

abbrev two_text : List ℕ
two_text = 91 ∷ 49 ∷ 44 ∷ 32 ∷ 123 ∷ 34 ∷ 97 ∷ 34 ∷ 58 ∷ 116 ∷ 114 ∷ 117 ∷ 101 ∷ 125 ∷ 93 ∷ []

ordinary : Written (97 ∷ []) (97 ∷ [])
ordinary = plain (omega arith) (omega arith) (omega arith)

identifier_not_digit : (c : ℕ) → identifier_char c ≡ false → isdigit c ≡ false
identifier_not_digit c h = ground (arith, h)

one_number : (rest : List ℕ) → Stops identifier_char rest → decimal 0 0 (49 ∷ rest) ≡ (1, 1)
unfolding peek_from
one_number [] h = refl
one_number (c ∷ rest) h =
    let behind : isdigit c ≡ false = identifier_not_digit c h in rw behind refl

two-Json : Json env false two two_text
two-Json =
    let one : Numeral true (49 ∷ []) = positive (digit refl none_left) (no_fraction no_exponent) in
    let key : Spelled 0 (97 ∷ []) (97 ∷ []) = more (97 ∷ []) (97 ∷ []) ordinary (fits_one 0) done in
    array_text none_left (
      next_element (uint_text one one_number) none_left (and_then refl none_left) (
        last_element
          (object_text none_left (last_member key none_left none_left true_text none_left))
          none_left))

parse_json-Json_example :
    Parsed []
      (encode two)
      (source_from_string ([] ++ (two_text ++ [])) false false false)
      (0 ∷ [])
      (parse_json env empty ([] ++ (two_text ++ [])) false false false)
parse_json-Json_example =
    parse_json-Json env false (λ n. refl) two [] two_text [] empty false false empty-IsStack
      none_left two-Json none_left

-- [1
parse_json-Fine_example : Fine [] 3 (parse_json env empty (91 ∷ 49 ∷ []) false false false)
parse_json-Fine_example = parse_json-Fine env empty (91 ∷ 49 ∷ []) false false false empty-IsStack

abbrev accent_text : List ℕ
accent_text = 97 ∷ 97 ∷ 97 ∷ 97 ∷ 97 ∷ 97 ∷ 92 ∷ 117 ∷ 48 ∷ 48 ∷ 101 ∷ 57 ∷ 34 ∷ []

-- A buffer that is just [
load_json-aborted_example :
    load_json env 3 empty (source_from_buffer (91 ∷ []) false false false) ≡ aborted
unfolding source_from_buffer
load_json-aborted_example =
    load_json-aborted env 2 empty (source_from_buffer (91 ∷ []) false false false) [] [] (λ n. refl)
      empty-IsStack none_left none_left refl

-- [1]
abbrev one_element : Elements
one_element = cons (uint 1) nil

abbrev one_array : Array
one_array = record { tokens = encode (array one_element) ++ []; offsets = none }

one_array-IsArray : IsArray one_element [] one_array
one_array-IsArray = record { tokens = refl; made = λ offsets e. absurd cc }

get_element-IsArray_example :
    Given one_element [] one_array (nth one_element 0) (get_element (λ n. true) one_array 0)
get_element-IsArray_example =
    get_element-IsArray (λ n. true) (λ n. refl) one_element [] one_array one_array-IsArray 0

-- {"a":true}
abbrev one_member : Members
one_member = member (97 ∷ []) (boolean true) end

abbrev member_text : List ℕ
member_text = 123 ∷ 34 ∷ 97 ∷ 34 ∷ 58 ∷ 116 ∷ 114 ∷ 117 ∷ 101 ∷ 125 ∷ []

member-Json : Json env false (object one_member) member_text
member-Json =
    let key : Spelled 0 (97 ∷ []) (97 ∷ []) = more (97 ∷ []) (97 ∷ []) ordinary (fits_one 0) done in
    object_text none_left (last_member key none_left none_left true_text none_left)

member-Parsed :
    Parsed []
      (encode (object one_member))
      (source_from_string ([] ++ (member_text ++ [])) false false false)
      (0 ∷ [])
      (parse_json env empty ([] ++ (member_text ++ [])) false false false)
member-Parsed =
    parse_json-Json env false (λ n. refl) (object one_member) [] member_text [] empty false false
      empty-IsStack none_left member-Json none_left

get_member-parse_json_example :
    Obtained
      (λ bytes. 0)
      one_member
      []
      (last_value one_member (97 ∷ []) none)
      (get_member
        (λ n. true)
        (λ bytes. 0)
        (record { tokens = member-Parsed.stack.tokens; buckets = none })
        (97 ∷ []))
unfolding strlen
get_member-parse_json_example =
    get_member-parse_json env false (λ n. refl) (λ bytes. 0) one_member [] member_text [] empty
      member-Parsed.stack member-Parsed.source false false (97 ∷ []) empty-IsStack refl none_left
      member-Json none_left (refl, tt) member-Parsed.is_loaded
