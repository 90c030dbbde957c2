-- ===== src/Http/Message/Tests.antt =====
-- The request line "GET  /a HTTP" and the header "Ab: xy ", whole and in fragments.
use libsxe.Base.{ℕ, ◌≡◌, refl, Bool, false, List, [], ◌∷◌, ◌==◌, ltb, ◌&&◌, some, arith}
use libsxe.Http.Message.{
  HttpMessage, Outcome, ok, end_of_file, would_block, token, line_parsed, message_construct,
  parse_next_line_element, parsed, move_along, start_element, skip_whitespace, skip_loop, skipped,
  read_element, scan_loop, scanned, end_element, terminates,
}
use libsxe.Http.Message.Line.{Element, line}
use libsxe.Http.Message.Elements.{elements, elements-message_construct}
use libsxe.Http.Message.Header.{parse_next_header, line_done}
use libsxe.Http.Message.Total.{parse_next_header_total}
use libsxe.Http.Message.Field.{Field, parse_next_header-returned}

abbrev fresh : List ℕ → ℕ → HttpMessage
fresh buffer buffer_length = record {
  buffer = buffer;
  buffer_length = buffer_length;
  consumed = 0;
  element_length = 0;
  name_length = 0;
  value_offset = 0;
  value_length = 0;
  next_field = 0;
  ignore_line = false;
  ignore_length = 0;
}

abbrev get_element : Element
get_element = record { blanks = 0; first = 71; others = 69 ∷ 84 ∷ [] }

abbrev path_element : Element
path_element = record { blanks = 1; first = 47; others = 97 ∷ [] }

abbrev http_element : Element
http_element = record { blanks = 0; first = 72; others = 84 ∷ 84 ∷ 80 ∷ [] }

elements-message_construct_example :
    elements 4 (
      message_construct
        (fresh [] 0)
        (line get_element (path_element ∷ http_element ∷ []) (65 ∷ []))
        15)
    ≡ ((71 ∷ 69 ∷ 84 ∷ []) ∷ (47 ∷ 97 ∷ []) ∷ (72 ∷ 84 ∷ 84 ∷ 80 ∷ []) ∷ [], end_of_file)
unfolding terminates
elements-message_construct_example =
    elements-message_construct (fresh [] 0) get_element (path_element ∷ http_element ∷ []) (65 ∷ [])
      15
      (
        (refl, refl, (refl, refl, (refl, refl, tt))),
        (
          (refl, refl, (refl, refl, tt)),
          ((refl, refl, (refl, refl, (refl, refl, (refl, refl, tt)))), tt),
        ),
      )
      (omega arith) (omega arith)

-- "\r\nAb: xy \r\nC", with the line parsed.
abbrev one_field : HttpMessage
one_field = record (fresh (13 ∷ 10 ∷ 65 ∷ 98 ∷ 58 ∷ 32 ∷ 120 ∷ 121 ∷ 32 ∷ 13 ∷ 10 ∷ 67 ∷ []) 12) {
  element_length = line_parsed;
  next_field = 2;
}

-- Printable characters and spaces of ASCII.
abbrev isgraph : ℕ → Bool
isgraph c = ltb 32 c && ltb c 127

abbrev isspace : ℕ → Bool
isspace c = c == 32

one_field_done : line_done one_field ≡ some one_field
unfolding line_done
one_field_done = refl

parse_next_header_total_example :
    (next : HttpMessage) × (outcome : Outcome) × (parse_next_header isgraph isspace one_field
      ≡ some (next, outcome))
parse_next_header_total_example =
    parse_next_header_total isgraph isspace one_field one_field one_field_done

abbrev ab_field : Field isgraph isspace one_field 2 65 (98 ∷ []) 1 (120 ∷ []) 121 (32 ∷ []) 67 []
ab_field = record {
  there = refl;
  is_name = (refl, refl, (refl, refl, tt));
  in_line = (refl, refl, (refl, refl, (refl, refl, tt)));
  begins = refl;
  ends_solid = refl;
  spaces = (refl, tt);
  next_line = refl;
  room = omega arith;
  bound = omega arith;
}

parse_next_header-returned_example :
    parse_next_header isgraph isspace one_field
    ≡ some (
      record one_field {
        consumed = 2;
        name_length = 2;
        value_offset = 6;
        value_length = 2;
        next_field = 11;
      },
      ok,
    )
parse_next_header-returned_example =
    parse_next_header-returned isgraph isspace one_field 2 65 (98 ∷ []) 1 (120 ∷ []) 121 (32 ∷ [])
      67 [] ab_field refl refl refl (omega arith) refl

-- Of "GET" that is received as "GE" (with "A" in the memory behind it) and then "T ", the part "T" is
-- returned.
abbrev fragment : HttpMessage × Outcome
fragment = parse_next_line_element (fresh (71 ∷ 69 ∷ 65 ∷ []) 2) token

test_fragment :
    (fragment.1 ≡ would_block)
    × (fragment.0 ≡ record (fresh (71 ∷ 69 ∷ 65 ∷ []) 2) { consumed = 2; element_length = 2 })
unfolding parse_next_line_element parsed move_along start_element skip_whitespace skip_loop skipped
    read_element scan_loop scanned terminates
test_fragment = (refl, refl)

test_rest :
    parse_next_line_element
      (record (fresh (71 ∷ 69 ∷ 84 ∷ 32 ∷ 47 ∷ []) 5) { consumed = 2; element_length = 2 })
      token
    ≡ (
      record (fresh (71 ∷ 69 ∷ 84 ∷ 32 ∷ 47 ∷ []) 5) {
        consumed = 2;
        element_length = 1;
        next_field = 4;
      },
      ok,
    )
unfolding parse_next_line_element parsed move_along start_element read_element scan_loop scanned
    end_element terminates
test_rest = refl
