-- ===== src/Http/Message/Field.antt =====
-- A header field on one line, as sxe_http_message_parse_next_header of lib-sxe-http/sxe-http-message.c
-- returns it.
use libsxe.Base.{
  ℕ, suc, ◌+◌, ◌-◌, ◌^◌, ◌<◌, ◌≡◌, refl, ap, sym, ◌∙◌, Bool, true, false, ◌&&◌, List, ◌∷◌, ◌++◌,
  some, ◌==◌, ltb, if◌then◌else◌, length, drop, replicate, arith, length-replicate,
}
use libsxe.Http.Message.{
  HttpMessage, ok, line_parsed, blank, byte_at, minus, carriage_return, new_line,
}
use libsxe.Http.Message.Header.{
  go, line_done, leave_field, ignore_current, ignore_loop, start_value, name_scan, name_end,
  parse_name, behind_ignored, behind_left, behind_line, parse_next_header,
}
use libsxe.Http.Message.Line.{drop-cons, drop-parts}
use libsxe.Http.Message.Scans.{InLine, IsName, Spaces, name_scan_lem}
use libsxe.Http.Message.Value.{text, Stands, first_of, start_value_lem}

module _ (isgraph isspace : ℕ → Bool) where
  -- A field on one line from position `p` on: a name, a colon, blanks, a value that ends with `last`, and
  -- behind white space, CR and new line a byte `c` that is no blank.
  pub record Field (m : HttpMessage) (p : ℕ) (c0 : ℕ) (name : List ℕ) (k : ℕ) (value : List ℕ)
      (last : ℕ) (trail : List ℕ) (c : ℕ) (rest : List ℕ) : Type 0 where
    pub there :
        drop p m.buffer
        ≡ (c0 ∷ name)
          ++ 58
            ∷ (replicate k 32
                ++ (text isgraph isspace value last trail ++ carriage_return ∷ new_line ∷ c ∷ rest))
    pub is_name : IsName isgraph (c0 ∷ name)
    pub in_line : InLine (text isgraph isspace value last trail)
    pub begins : blank (first_of value last) ≡ false
    pub ends_solid : isspace last ≡ false
    pub spaces : Spaces isgraph isspace trail
    pub next_line : blank c ≡ false
    pub room : p + length (c0 ∷ name) + 1 + k + length value + length trail + 3 < m.buffer_length
    pub bound : m.buffer_length < 2 ^ 32

  module _ (m : HttpMessage) (p c0 : ℕ) (name : List ℕ) (k : ℕ) (value : List ℕ) (last : ℕ)
      (trail : List ℕ) (c : ℕ) (rest : List ℕ)
      (f : Field m p c0 name k value last trail c rest) where
    -- The text of the value and what is behind it.
    abbrev tail : List ℕ
    tail = text isgraph isspace value last trail ++ carriage_return ∷ new_line ∷ c ∷ rest

    behind_colon : drop (p + length (c0 ∷ name) + 1) m.buffer ≡ replicate k 32 ++ tail
    behind_colon =
        (drop-cons (p + length (c0 ∷ name)) 58 m.buffer (replicate k 32 ++ tail)
          (drop-parts p m.buffer (c0 ∷ name) (58 ∷ (replicate k 32 ++ tail)) f.there)).1

    -- The message with the name looked for.
    abbrev looking : HttpMessage
    looking = record m {
      ignore_length = 0;
      consumed = p;
      name_length = 0;
      value_offset = 0;
      value_length = 0;
      next_field = 0;
    }

    field_Stands :
        Stands isgraph isspace
          (record looking {
            name_length = length (c0 ∷ name);
            value_offset = p + length (c0 ∷ name) + 1 + k;
          })
          value
          last
          trail
          c
          rest
    field_Stands = record {
      there =
          ap (λ j. drop (p + length (c0 ∷ name) + 1 + j) m.buffer) (sym (length-replicate k 32))
          ∙ drop-parts (p + length (c0 ∷ name) + 1) m.buffer (replicate k 32) tail behind_colon;
      in_line = f.in_line;
      solid = f.ends_solid;
      spaces = f.spaces;
      next_line = f.next_line;
      room = omega (arith, f.room);
    }

    -- The message with the field.
    abbrev pub returned : HttpMessage
    returned = record m {
      ignore_length = 0;
      consumed = p;
      name_length = length (c0 ∷ name);
      value_offset = p + length (c0 ∷ name) + 1 + k;
      value_length = suc (length value);
      next_field = p + length (c0 ∷ name) + 1 + k + (suc (length value) + length trail) + 2;
    }

    parse_name_lem : parse_name isgraph isspace looking ≡ some (returned, ok)
    unfolding parse_name name_end
    parse_name_lem =
        let first = drop-cons p c0 m.buffer (name ++ 58 ∷ (replicate k 32 ++ tail)) f.there in
        let test : (byte_at m p == 58) ≡ false = ap (λ b. b == 58) first.0 ∙ f.is_name.1 in
        let start : p + 0 ≡ p = omega arith in
        let size : p + length (c0 ∷ name) - p ≡ length (c0 ∷ name) = omega arith in
        let scan =
          ap (λ j. name_scan isgraph isspace m.buffer (m.buffer_length - j) j) start
          ∙ name_scan_lem isgraph isspace m.buffer (c0 ∷ name) (m.buffer_length - p) p
              (replicate k 32 ++ tail) f.there f.is_name (omega (arith, f.room)) in
        rw test (
          ap (name_end isgraph isspace looking) scan
          ∙ ap
              (λ j.
                start_value isgraph isspace
                  (record looking { name_length = j; value_offset = p + length (c0 ∷ name) + 1 }))
              size
          ∙ start_value_lem isgraph isspace
              (record looking {
                name_length = length (c0 ∷ name);
                value_offset = p + length (c0 ∷ name) + 1;
              })
              k value last trail c rest refl behind_colon f.begins field_Stands)

    leave_field_lem :
        m.next_field ≡ p
        → 0 < p
        → isgraph carriage_return ≡ false
        → leave_field (record m { ignore_length = 0 }) ≡ go looking
    unfolding leave_field
    leave_field_lem e q g =
        let first = drop-cons p c0 m.buffer (name ++ 58 ∷ (replicate k 32 ++ tail)) f.there in
        let returned_one : (m.next_field == 0) ≡ false = ground (arith, e, q) in
        let long : ltb (minus m.buffer_length p) 2 ≡ false = ground (arith, f.room, f.bound) in
        let more : (byte_at m p == carriage_return && byte_at m (p + 1) == new_line) ≡ false =
          ground (arith, first.0, f.is_name.0, g) in
        rw returned_one (rw e (rw long (rw more refl)))

    -- Where the line is parsed, no line is being ignored and the next field starts at `p`, in a buffer of less
    -- than 2 ^ 32 bytes: this field, whose name is printable and whose value is on one line, is returned, without
    -- the spaces in front of the value and the white space behind it, and the position of what is behind its line
    -- is that of the next field. CR is not printable.
    pub parse_next_header-returned :
        m.element_length ≡ line_parsed
        → m.ignore_line ≡ false
        → m.next_field ≡ p
        → 0 < p
        → isgraph carriage_return ≡ false
        → parse_next_header isgraph isspace m ≡ some (returned, ok)
    unfolding parse_next_header behind_line line_done behind_left behind_ignored ignore_current
    parse_next_header-returned l i e q g =
        let parsed : (m.element_length == line_parsed) ≡ true = ground (arith, l) in
        let done : line_done m ≡ some m = rw parsed refl in
        let here : ignore_current looking ≡ some (go looking) =
          ap (λ b. if b then ignore_loop (suc (m.buffer_length - p)) looking else some (go looking))
            i in
        ap (behind_line isgraph isspace) done
        ∙ ap (behind_left isgraph isspace) (leave_field_lem e q g)
        ∙ ap (behind_ignored isgraph isspace) here
        ∙ parse_name_lem
