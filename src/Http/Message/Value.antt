-- ===== src/Http/Message/Value.antt =====
-- The name and the value of a header field on one line, as sxe_http_message_parse_next_header of
-- lib-sxe-http/sxe-http-message.c finds their ends.
use libsxe.Base.{
  ℕ, suc, ◌+◌, ◌-◌, ◌<◌, ◌≡◌, ap, ◌∙◌, Bool, true, false, List, [], ◌∷◌, ◌++◌, some, ◌==◌, leb,
  length, drop, replicate, arith, length-append, append_assoc,
}
use libsxe.Http.Message.{
  HttpMessage, ok, found, skip_loop, skip_whitespace, blank, byte_at, carriage_return, new_line,
}
use libsxe.Http.Message.Header.{
  value_scan, whole, value_end, trimmed, value_loop, parse_value, value_skipped, start_value,
}
use libsxe.Http.Message.Line.{drop-cons, drop-parts, skip_loop_lem}
use libsxe.Http.Message.Scans.{
  InLine, value_scan_lem, Spaces, space_at, trimmed_spaces, trimmed_lem,
}

-- The first byte of a value.
abbrev pub first_of : List ℕ → ℕ → ℕ
first_of [] last = last
first_of (v ∷ value) last = v

module _ (isgraph isspace : ℕ → Bool) where
  -- The bytes of a value up to its CR.
  abbrev pub text : List ℕ → ℕ → List ℕ → List ℕ
  text value last trail = (value ++ last ∷ []) ++ trail

  -- Where the value, the white space behind it and what is behind that stand.
  pub record Stands (m : HttpMessage) (value : List ℕ) (last : ℕ) (trail : List ℕ) (c : ℕ)
      (rest : List ℕ) : Type 0 where
    pub there :
        drop m.value_offset m.buffer
        ≡ text value last trail ++ carriage_return ∷ new_line ∷ c ∷ rest
    pub in_line : InLine (text value last trail)
    pub solid : isspace last ≡ false
    pub spaces : Spaces isgraph isspace trail
    pub next_line : blank c ≡ false
    pub room : m.value_offset + length value + length trail + 3 < m.buffer_length

  -- The field of the value, with a length of the value and a length of it with its trailing white space.
  abbrev pub ended : HttpMessage → ℕ → ℕ → HttpMessage
  ended m n whole_length = record m {
    value_length = n;
    next_field = m.value_offset + whole_length + 2;
  }

  module _ (m : HttpMessage) (value : List ℕ) (last : ℕ) (trail : List ℕ) (c : ℕ) (rest : List ℕ)
      (s : Stands m value last trail c rest) where
    abbrev size : ℕ
    size = suc (length value)

    abbrev whole_size : ℕ
    whole_size = size + length trail

    size_lem : length (text value last trail) ≡ whole_size
    size_lem =
        omega (arith, length-append (value ++ last ∷ []) trail, length-append value (last ∷ []))

    value_there :
        (byte_at m (m.value_offset + length value) ≡ last)
        × (drop (m.value_offset + size) m.buffer ≡ trail ++ carriage_return ∷ new_line ∷ c ∷ rest)
    value_there =
        let behind = trail ++ carriage_return ∷ new_line ∷ c ∷ rest in
        let begin = drop-parts m.value_offset m.buffer value (last ∷ behind) (
          s.there
          ∙ append_assoc (value ++ last ∷ []) trail (carriage_return ∷ new_line ∷ c ∷ rest)
          ∙ append_assoc value (last ∷ []) behind) in
        let one = drop-cons (m.value_offset + length value) last m.buffer behind begin in
        let n : m.value_offset + size ≡ m.value_offset + length value + 1 = omega arith in
        (one.0, ap (λ k. drop k m.buffer) n ∙ one.1)

    line_there :
        (byte_at m (m.value_offset + whole_size + 1) ≡ new_line)
        × (byte_at m (m.value_offset + whole_size + 2) ≡ c)
    line_there =
        let at = m.value_offset + size + length trail in
        let begin =
          drop-parts (m.value_offset + size) m.buffer trail (carriage_return ∷ new_line ∷ c ∷ rest)
            value_there.1 in
        let two = drop-cons at carriage_return m.buffer (new_line ∷ c ∷ rest) begin in
        let three = drop-cons (at + 1) new_line m.buffer (c ∷ rest) two.1 in
        let four = drop-cons (at + 1 + 1) c m.buffer rest three.1 in
        let n2 : m.value_offset + whole_size + 1 ≡ at + 1 = omega arith in
        let n3 : m.value_offset + whole_size + 2 ≡ at + 1 + 1 = omega arith in
        (ap (λ k. byte_at m k) n2 ∙ three.0, ap (λ k. byte_at m k) n3 ∙ four.0)

    value_end_lem :
        value_end m (found (m.value_offset + whole_size)) ≡ whole (ended m whole_size whole_size)
    unfolding value_end
    value_end_lem =
        let n = whole_size in
        let inside : leb m.buffer_length (m.value_offset + n + 2) ≡ false =
          ground (arith, s.room) in
        let feed : (byte_at m (m.value_offset + n + 1) == new_line) ≡ true =
          ground (arith, line_there.0) in
        let solid : blank (byte_at m (m.value_offset + n + 2)) ≡ false =
          ap blank line_there.1 ∙ s.next_line in
        let long : m.value_offset + n - m.value_offset ≡ n = omega arith in
        rw inside (
          rw feed (
            rw solid (
              ap (λ k. whole (record m { value_length = k; next_field = m.value_offset + n + 2 }))
                long)))

    -- What is left of the value behind the trimming.
    trimmed_value : trimmed isgraph isspace (ended m whole_size whole_size) whole_size ≡ size
    trimmed_value =
        let end = ended m whole_size whole_size in
        trimmed_spaces isgraph isspace end size (length trail) (λ i h.
          space_at isgraph isspace m.buffer trail (m.value_offset + size) i
            (carriage_return ∷ new_line ∷ c ∷ rest) value_there.1 s.spaces h)
        ∙ trimmed_lem isgraph isspace end (length value) (ap isspace value_there.0 ∙ s.solid)

    -- The value is found from its first byte on, and ends behind its last byte that is no white space.
    pub parse_value_lem :
        m.value_length ≡ 0 → parse_value isgraph isspace m ≡ some (ended m size whole_size, ok)
    unfolding parse_value value_loop
    parse_value_lem z =
        let start : m.value_offset + m.value_length ≡ m.value_offset = omega (arith, z) in
        let scan =
          ap (λ k. value_scan m.buffer (m.buffer_length - k) k) start
          ∙ value_scan_lem m.buffer (text value last trail) (m.buffer_length - m.value_offset)
              m.value_offset (new_line ∷ c ∷ rest) s.there s.in_line
              (omega (arith, size_lem, s.room))
          ∙ ap (λ k. found (m.value_offset + k)) size_lem in
        let end = ap (value_end m) scan ∙ value_end_lem in
        rw (end, value_loop)
          (ap (λ k. some (record (ended m whole_size whole_size) { value_length = k }, ok))
            trimmed_value)

  skip_value :
      (buffer : List ℕ) (k left p : ℕ) (value : List ℕ) (last : ℕ) (trail rest : List ℕ)
      → drop p buffer ≡ replicate k 32 ++ (text value last trail ++ rest)
      → blank (first_of value last) ≡ false
      → k < left
      → skip_loop buffer left p ≡ (ok, p + k)
  skip_value buffer k left p [] last trail rest e b h =
      skip_loop_lem buffer k left p last (trail ++ rest) e b h
  skip_value buffer k left p (v ∷ value) last trail rest e b h =
      skip_loop_lem buffer k left p v (text value last trail ++ rest) e b h

  pub start_value_lem :
      (m : HttpMessage) (k : ℕ) (value : List ℕ) (last : ℕ) (trail : List ℕ) (c : ℕ) (rest : List ℕ)
      → m.value_length ≡ 0
      → drop m.value_offset m.buffer
        ≡ replicate k 32 ++ (text value last trail ++ carriage_return ∷ new_line ∷ c ∷ rest)
      → blank (first_of value last) ≡ false
      → Stands (record m { value_offset = m.value_offset + k }) value last trail c rest
      → start_value isgraph isspace m
        ≡ some (
          ended
              (record m { value_offset = m.value_offset + k })
              (suc (length value))
              (suc (length value) + length trail),
          ok,
        )
  unfolding start_value value_skipped skip_whitespace
  start_value_lem m k value last trail c rest z e b s =
      let test : (m.value_length == 0) ≡ true = ground (arith, z) in
      rw test (
        ap (value_skipped isgraph isspace m) (
          skip_value m.buffer k (m.buffer_length - m.value_offset) m.value_offset value last trail
            (carriage_return ∷ new_line ∷ c ∷ rest) e b (omega (arith, s.room)))
        ∙ parse_value_lem (record m { value_offset = m.value_offset + k }) value last trail c rest s
            z)
