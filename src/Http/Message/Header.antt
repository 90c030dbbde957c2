-- ===== src/Http/Message/Header.antt =====
-- sxe_http_message_parse_next_header of lib-sxe-http/sxe-http-message.c. isgraph and isspace of the C
-- library are parameters. `none` is a failed assertion, or a loop that is out of fuel.
use libsxe.Base.{
  ℕ, zero, suc, ◌+◌, ◌-◌, Bool, false, not, ◌&&◌, List, Option, none, some, ◌==◌, ltb, leb,
  if◌then◌else◌, get_or,
}
use libsxe.Http.Message.{
  HttpMessage, Outcome, ok, end_of_file, would_block, bad_message, line_parsed, blank, byte_at,
  minus, skip_whitespace, Scan, found, bare_new_line, partial, carriage_return, new_line,
}

-- What a part of the function comes to: it returns, or goes on.
pub data Stage : Type 0 where
  stop : HttpMessage → Outcome → Stage
  go : HttpMessage → Stage

-- The request or response line has to be parsed, up to its CR and new line.
unfoldable pub line_done : HttpMessage → Option HttpMessage
line_done m =
    if m.element_length == line_parsed
    then some m
    else if leb 2 m.next_field
        && byte_at m (m.next_field - 2) == carriage_return
        && byte_at m (m.next_field - 1) == new_line
    then some (record m { element_length = line_parsed })
    else none

-- A field that was returned is left behind.
unfoldable pub leave_field : HttpMessage → Stage
leave_field m =
    let m' = record m {
      consumed = m.next_field;
      name_length = 0;
      value_offset = 0;
      value_length = 0;
      next_field = 0;
    } in
    if m.next_field == 0
    then go m
    else if ltb (minus m'.buffer_length m'.consumed) 2
    then stop m' would_block
    else if byte_at m' m'.consumed == carriage_return && byte_at m' (m'.consumed + 1) == new_line
    then stop (record m' { consumed = m'.consumed + 2 }) end_of_file
    else go m'

-- The loop up to a byte, which is read before the offset is compared with the length.
unfoldable pub until : ℕ → List ℕ → ℕ → ℕ → Scan
until byte buffer zero offset =
    if get_or buffer offset 0 == byte then found offset else partial offset
until byte buffer (suc left) offset =
    let rest = until byte buffer left (offset + 1) in
    if get_or buffer offset 0 == byte then found offset else rest

-- SXE_IGNORE_LINE_EARLY_OUT
unfoldable pub ignore_out : HttpMessage → ℕ → Stage
ignore_out m ignore_length =
    stop
      (record m {
        ignore_length = ignore_length;
        buffer_length = minus m.buffer_length ignore_length;
        consumed = 0;
      })
      would_block

-- The rest of a line that is ignored, behind a new line at `offset`: `go` is a line continuation.
unfoldable pub ignore_line_end : HttpMessage → ℕ → Stage
ignore_line_end m offset =
    if leb m.buffer_length (offset + 2)
    then ignore_out m (minus m.buffer_length 2)
    else if byte_at m (offset + 1) == carriage_return && byte_at m (offset + 2) == new_line
    then stop
        (record m {
          ignore_line = false;
          ignore_length = offset + 3;
          consumed = offset + 3;
          buffer_length = minus m.buffer_length (offset + 3);
        })
        end_of_file
    else if not (blank (byte_at m (offset + 1)))
    then ignore_out
        (record m { ignore_line = false; name_length = 0; value_offset = 0; value_length = 0 })
        (offset + 1)
    else go (record m { consumed = offset + 1 })

unfoldable pub ignore_found : HttpMessage → Scan → Stage
ignore_found m (found offset) = ignore_line_end m offset
ignore_found m bare_new_line = ignore_out m m.buffer_length
ignore_found m (partial offset) = ignore_out m m.buffer_length

unfoldable pub ignore_loop : ℕ → HttpMessage → Option Stage
ignore_loop zero m = none
ignore_loop (suc fuel) m =
    elim (ignore_found m (until new_line m.buffer (m.buffer_length - m.consumed) m.consumed)) [
      | stop m' outcome ↦ some (stop m' outcome)
      | go m' ↦ ignore_loop fuel m'
    ]

-- Each continuation is behind the one before, so a round for each byte is enough.
unfoldable pub ignore_current : HttpMessage → Option Stage
ignore_current m =
    let ignored = ignore_loop (suc (m.buffer_length - m.consumed)) m in
    if m.ignore_line then ignored else some (go m)

-- The end of a value that is searched from its end so far on: a CR, a bare new line, or the buffer's end.
unfoldable pub value_scan : List ℕ → ℕ → ℕ → Scan
value_scan buffer zero offset =
    let c = get_or buffer offset 0 in
    if c == carriage_return
    then found offset
    else if c == new_line
    then bare_new_line
    else partial offset
value_scan buffer (suc left) offset =
    let c = get_or buffer offset 0 in
    let rest = value_scan buffer left (offset + 1) in
    if c == carriage_return then found offset else if c == new_line then bare_new_line else rest

-- Where a part of the value ends: `go` is a line continuation.
pub data ValueEnd : Type 0 where
  ends : HttpMessage → Outcome → ValueEnd
  whole : HttpMessage → ValueEnd
  continues : HttpMessage → ValueEnd

unfoldable pub value_end : HttpMessage → Scan → ValueEnd
value_end m bare_new_line = ends m bad_message
value_end m (partial offset) =
    ends (record m { value_length = offset - m.value_offset }) would_block
value_end m (found offset) =
    let m' = record m { value_length = offset - m.value_offset } in
    if leb m.buffer_length (offset + 2)
    then ends m' would_block
    else if not (byte_at m (offset + 1) == new_line)
    then ends m' bad_message
    else if not (blank (byte_at m (offset + 2)))
    then whole (record m' { next_field = offset + 2 })
    else continues (record m { value_length = offset + 2 - m.value_offset })

module _ (isgraph isspace : ℕ → Bool) where
  -- Trailing white space of a value of a length.
  unfoldable pub trimmed : HttpMessage → ℕ → ℕ
  trimmed m zero = zero
  trimmed m (suc n) =
      let rest = trimmed m n in if isspace (byte_at m (m.value_offset + n)) then rest else suc n

  unfoldable pub value_loop : ℕ → HttpMessage → Option (HttpMessage × Outcome)
  value_loop zero m = none
  value_loop (suc fuel) m =
      let from = m.value_offset + m.value_length in
      elim (value_end m (value_scan m.buffer (m.buffer_length - from) from)) [
        | ends m' outcome ↦ some (m', outcome)
        | whole m' ↦ some (record m' { value_length = trimmed m' m'.value_length }, ok)
        | continues m' ↦ value_loop fuel m'
      ]

  unfoldable pub parse_value : HttpMessage → Option (HttpMessage × Outcome)
  parse_value m = value_loop (suc (m.buffer_length - (m.value_offset + m.value_length))) m

  unfoldable pub value_skipped : HttpMessage → Outcome × ℕ → Option (HttpMessage × Outcome)
  value_skipped m (ok, offset) = parse_value (record m { value_offset = offset })
  value_skipped m (end_of_file, offset) = some (record m { value_offset = offset }, would_block)
  value_skipped m (would_block, offset) = some (record m { value_offset = offset }, would_block)
  value_skipped m (bad_message, offset) = some (record m { value_offset = offset }, would_block)

  unfoldable pub start_value : HttpMessage → Option (HttpMessage × Outcome)
  start_value m =
      if m.value_length == 0
      then value_skipped m (skip_whitespace m m.value_offset)
      else parse_value m

  -- `bare_new_line` is a character that is not printable.
  unfoldable pub name_scan : List ℕ → ℕ → ℕ → Scan
  name_scan buffer zero offset =
      if get_or buffer offset 0 == 58 then found offset else partial offset
  name_scan buffer (suc left) offset =
      let c = get_or buffer offset 0 in
      let rest = name_scan buffer left (offset + 1) in
      if c == 58 then found offset else if not (isgraph c) then bare_new_line else rest

  unfoldable pub name_end : HttpMessage → Scan → Option (HttpMessage × Outcome)
  name_end m bare_new_line = some (m, bad_message)
  name_end m (partial offset) = some (record m { name_length = offset - m.consumed }, would_block)
  name_end m (found offset) =
      start_value (record m { name_length = offset - m.consumed; value_offset = offset + 1 })

  unfoldable pub parse_name : HttpMessage → Option (HttpMessage × Outcome)
  parse_name m =
      let from = m.consumed + m.name_length in
      if not (m.value_offset == 0)
      then start_value m
      else if m.name_length == 0 && byte_at m m.consumed == 58
      then some (m, bad_message)
      else name_end m (name_scan m.buffer (m.buffer_length - from) from)

  unfoldable pub behind_ignored : Option Stage → Option (HttpMessage × Outcome)
  behind_ignored none = none
  behind_ignored (some (stop m outcome)) = some (m, outcome)
  behind_ignored (some (go m)) = parse_name m

  unfoldable pub behind_left : Stage → Option (HttpMessage × Outcome)
  behind_left (stop m outcome) = some (m, outcome)
  behind_left (go m) = behind_ignored (ignore_current m)

  unfoldable pub behind_line : Option HttpMessage → Option (HttpMessage × Outcome)
  behind_line none = none
  behind_line (some m) = behind_left (leave_field (record m { ignore_length = 0 }))

  unfoldable pub parse_next_header : HttpMessage → Option (HttpMessage × Outcome)
  parse_next_header m = behind_line (line_done m)
