-- ===== src/Http/Message.antt =====
-- lib-sxe-http/sxe-http-message.c: the request or response line and the headers of a message, in a buffer
-- that grows as data is received. A position behind the memory that is modelled reads 0.
pub mod Line
pub mod Elements
pub mod Header
pub mod Total
pub mod Scans
pub mod Value
pub mod Field
mod Tests
use libsxe.Base.{
  ℕ, zero, suc, ◌+◌, ◌-◌, ◌%◌, ◌^◌, Bool, true, false, not, ◌&&◌, ◌||◌, List, [], ◌∷◌, Option, none,
  some, ◌==◌, ltb, leb, if◌then◌else◌, get_or,
}

-- The values of SXE_RETURN that the parser returns.
pub data Outcome : Type 0 where
  ok : Outcome
  end_of_file : Outcome
  would_block : Outcome
  bad_message : Outcome

-- SXE_HTTP_LINE_ELEMENT_TYPE
pub data ElementType : Type 0 where
  token : ElementType
  end_of_line : ElementType

-- struct SXE_HTTP_MESSAGE, with the memory at `buffer`.
pub record HttpMessage : Type 0 where
  pub buffer : List ℕ
  pub buffer_length : ℕ
  pub consumed : ℕ
  pub element_length : ℕ
  pub name_length : ℕ
  pub value_offset : ℕ
  pub value_length : ℕ
  pub next_field : ℕ
  pub ignore_line : Bool
  pub ignore_length : ℕ

-- SXE_HTTP_LINE_PARSED
abbrev pub line_parsed : ℕ
line_parsed = 2 ^ 32 - 1

abbrev pub carriage_return : ℕ
carriage_return = 13

abbrev pub new_line : ℕ
new_line = 10

abbrev pub blank : ℕ → Bool
blank c = c == 32 || c == 9

abbrev pub byte_at : HttpMessage → ℕ → ℕ
byte_at m i = get_or m.buffer i 0

-- The difference of two unsigned lengths.
abbrev pub minus : ℕ → ℕ → ℕ
minus a b = (a + 2 ^ 32 - b) % 2 ^ 32

-- The name and the value are not initialised: they are those of `m`, what the memory held.
unfoldable pub message_construct : HttpMessage → List ℕ → ℕ → HttpMessage
message_construct m buffer buffer_length = record m {
  buffer = buffer;
  buffer_length = buffer_length;
  consumed = 0;
  element_length = 0;
  next_field = 0;
  ignore_line = false;
  ignore_length = 0;
}

-- `none` is the failed assertion; `buffer` is the memory with what was received.
unfoldable pub increase_buffer_length : HttpMessage → List ℕ → ℕ → Option HttpMessage
increase_buffer_length m buffer buffer_length =
    if leb m.buffer_length buffer_length
    then some (record m { buffer = buffer; buffer_length = buffer_length })
    else none

-- `left` bytes are left of the buffer.
unfoldable pub skip_loop : List ℕ → ℕ → ℕ → Outcome × ℕ
skip_loop buffer zero offset = (would_block, offset)
skip_loop buffer (suc left) offset =
    let rest = skip_loop buffer left (offset + 1) in
    if blank (get_or buffer offset 0) then rest else (ok, offset)

unfoldable pub skip_whitespace : HttpMessage → ℕ → Outcome × ℕ
skip_whitespace m offset = skip_loop m.buffer (m.buffer_length - offset) offset

-- strchr(terminator, c) != NULL, which also finds the NUL of the terminators.
unfoldable pub terminates : ElementType → ℕ → Bool
terminates token c = blank c || c == carriage_return || c == 0
terminates end_of_line c = c == carriage_return || c == 0

-- How the loop over an element ends: at a terminator, at a new line, or behind the buffer.
pub data Scan : Type 0 where
  found : ℕ → Scan
  bare_new_line : Scan
  partial : ℕ → Scan

-- The byte behind the buffer is read before the offset is compared with the length.
unfoldable pub scan_loop : ElementType → List ℕ → ℕ → ℕ → Scan
scan_loop type buffer zero offset =
    let c = get_or buffer offset 0 in
    if terminates type c
    then found offset
    else if c == new_line
    then bare_new_line
    else partial offset
scan_loop type buffer (suc left) offset =
    let c = get_or buffer offset 0 in
    let rest = scan_loop type buffer left (offset + 1) in
    if terminates type c then found offset else if c == new_line then bare_new_line else rest

-- The element that the loop found, up to `offset`.
unfoldable pub end_element : HttpMessage → ElementType → ℕ → HttpMessage × Outcome
end_element m type offset =
    let m' = record m { element_length = offset - m.consumed } in
    if byte_at m offset == carriage_return
    then (if leb m.buffer_length (offset + 1)
        then (record m { element_length = offset + 1 - m.consumed }, would_block)
        else if byte_at m (offset + 1) == new_line
        then (record m' { next_field = offset + 2 }, ok)
        else (m', bad_message))
    else (elim type [
      | token ↦ (record m' { next_field = offset + 1 }, ok)
      | end_of_line ↦ (m', would_block)
    ])

unfoldable pub scanned : HttpMessage → ElementType → Scan → HttpMessage × Outcome
scanned m type (found offset) = end_element m type offset
scanned m type bare_new_line = (m, bad_message)
scanned m type (partial offset) =
    (record m { element_length = offset - m.consumed; consumed = offset }, would_block)

unfoldable pub read_element : HttpMessage → ElementType → HttpMessage × Outcome
read_element m type =
    if ltb (minus m.buffer_length m.consumed) 2
    then (m, would_block)
    else if byte_at m m.consumed == carriage_return && byte_at m (m.consumed + 1) == new_line
    then (
      record m {
        consumed = m.consumed + 2;
        next_field = m.consumed + 2;
        element_length = line_parsed;
      },
      end_of_file,
    )
    else scanned m type (scan_loop type m.buffer (m.buffer_length - m.consumed) m.consumed)

-- The whitespace in front of an element is skipped.
unfoldable pub skipped : HttpMessage → ElementType → Outcome × ℕ → HttpMessage × Outcome
skipped m type (ok, offset) = read_element (record m { consumed = offset }) type
skipped m type (end_of_file, offset) = (record m { consumed = offset }, would_block)
skipped m type (would_block, offset) = (record m { consumed = offset }, would_block)
skipped m type (bad_message, offset) = (record m { consumed = offset }, would_block)

unfoldable pub start_element : HttpMessage → ElementType → HttpMessage × Outcome
start_element m type =
    if m.element_length == 0
    then skipped m type (skip_whitespace m m.consumed)
    else read_element m type

unfoldable pub move_along : HttpMessage → HttpMessage
move_along m =
    if not (m.next_field == 0) || m.consumed == 0
    then record m { element_length = 0; consumed = m.next_field; next_field = 0 }
    else m

-- The request or response line is parsed already.
unfoldable pub parsed : HttpMessage → Bool
parsed m =
    m.element_length == line_parsed
    || (leb 2 m.next_field
        && byte_at m (m.next_field - 2) == carriage_return
        && byte_at m (m.next_field - 1) == new_line)

unfoldable pub parse_next_line_element : HttpMessage → ElementType → HttpMessage × Outcome
parse_next_line_element m type =
    if parsed m
    then (record m { element_length = line_parsed }, end_of_file)
    else start_element (move_along m) type

unfoldable pub consume_parsed_headers : HttpMessage → HttpMessage × ℕ
consume_parsed_headers m =
    if not (m.next_field == 0)
    then (
      record m {
        name_length = 0;
        value_offset = 0;
        value_length = 0;
        next_field = 0;
        consumed = 0;
        buffer_length = minus m.buffer_length m.next_field;
      },
      m.next_field,
    )
    else (
      record m {
        value_offset =
            if m.value_offset == 0 then m.value_offset else minus m.value_offset m.consumed;
        consumed = 0;
        buffer_length = minus m.buffer_length m.consumed;
      },
      m.consumed,
    )
