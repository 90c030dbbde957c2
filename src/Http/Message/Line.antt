-- ===== src/Http/Message/Line.antt =====
-- The elements of a request or response line of lib-sxe-http/sxe-http-message.c, one after another.
use libsxe.Base.{
  ℕ, zero, suc, ◌+◌, ◌-◌, ◌^◌, ◌≤◌, ◌<◌, ◌≡◌, refl, ap, sym, ◌∙◌, true, false, ◌&&◌, List, [], ◌∷◌,
  ◌++◌, ◌==◌, ltb, leb, get_or, length, drop, replicate, arith, drop-drop, drop-append,
  length-replicate,
}
use libsxe.Http.Message.{
  HttpMessage, ok, token, blank, byte_at, minus, skip_loop, skip_whitespace, terminates, found,
  scan_loop, end_element, scanned, read_element, skipped, start_element, move_along, parsed,
  parse_next_line_element, carriage_return, new_line,
}

-- The bytes of an element: no blank, no CR, no new line and no NUL.
abbrev pub Plain : List ℕ → Type 0
Plain [] = Unit {0}
Plain (c ∷ cs) = (terminates token c ≡ false) × (c == new_line ≡ false) × Plain cs

pub drop-cons :
    (p c : ℕ) (xs cs : List ℕ) → drop p xs ≡ c ∷ cs → (get_or xs p 0 ≡ c) × (drop (p + 1) xs ≡ cs)
drop-cons zero c [] cs e = absurd cc
drop-cons zero c (x ∷ xs) cs e = (cc, cc)
drop-cons (suc p) c [] cs e = absurd cc
drop-cons (suc p) c (x ∷ xs) cs e =
    let r = drop-cons p c xs cs e in
    let n : suc p + 1 ≡ suc (p + 1) = omega arith in (r.0, ap (λ k. drop k (x ∷ xs)) n ∙ r.1)

pub skip_loop_lem :
    (buffer : List ℕ) (k left p c : ℕ) (cs : List ℕ)
    → drop p buffer ≡ replicate k 32 ++ c ∷ cs
    → blank c ≡ false
    → k < left
    → skip_loop buffer left p ≡ (ok, p + k)
unfolding skip_loop
skip_loop_lem buffer k zero p c cs e b h = absurd (omega (arith, h))
skip_loop_lem buffer zero (suc left) p c cs e b h = ground (arith, drop-cons p c buffer cs e, b)
skip_loop_lem buffer (suc k) (suc left) p c cs e b h =
    let s = drop-cons p 32 buffer (replicate k 32 ++ c ∷ cs) e in
    ground (arith, s.0, skip_loop_lem buffer k left (p + 1) c cs s.1 b (omega (arith, h)))

scan_loop_lem :
    (buffer word : List ℕ) (left p c : ℕ) (cs : List ℕ)
    → drop p buffer ≡ word ++ c ∷ cs
    → Plain word
    → terminates token c ≡ true
    → length word ≤ left
    → scan_loop token buffer left p ≡ found (p + length word)
unfolding scan_loop
scan_loop_lem buffer [] zero p c cs e w t h = ground (arith, drop-cons p c buffer cs e, t)
scan_loop_lem buffer [] (suc left) p c cs e w t h = ground (arith, drop-cons p c buffer cs e, t)
scan_loop_lem buffer (b ∷ word) zero p c cs e w t h = absurd (omega (arith, h))
scan_loop_lem buffer (b ∷ word) (suc left) p c cs e w t h =
    let s = drop-cons p b buffer (word ++ c ∷ cs) e in
    ground (
      arith,
      s.0,
      w.0,
      w.1,
      scan_loop_lem buffer word left (p + 1) c cs s.1 w.2 t (omega (arith, h)),
    )

pub drop-parts :
    (p : ℕ) (xs front back : List ℕ) → drop p xs ≡ front ++ back → drop (p + length front) xs ≡ back
drop-parts p xs front back e =
    sym (drop-drop (length front) p xs) ∙ ap (drop (length front)) e ∙ drop-append front back

read_element_lem :
    (m : HttpMessage) (c d : ℕ) (cs rest : List ℕ)
    → drop m.consumed m.buffer ≡ (c ∷ cs) ++ d ∷ rest
    → Plain (c ∷ cs)
    → terminates token d ≡ true
    → m.consumed + length (c ∷ cs) < m.buffer_length
    → m.buffer_length < 2 ^ 32
    → read_element m token ≡ end_element m token (m.consumed + length (c ∷ cs))
unfolding read_element scanned terminates
read_element_lem m c d cs rest e w t h b =
    let first = drop-cons m.consumed c m.buffer (cs ++ d ∷ rest) e in
    let long : ltb (minus m.buffer_length m.consumed) 2 ≡ false = ground (arith, h, b) in
    let more : (byte_at m m.consumed == carriage_return && byte_at m (m.consumed + 1) == new_line)
        ≡ false =
      ground (arith, first.0, w.0) in
    rw long (
      rw more (
        ap (scanned m token) (
          scan_loop_lem m.buffer (c ∷ cs) (m.buffer_length - m.consumed) m.consumed d rest e w t
            (omega (arith, h)))))

start_element_lem :
    (m : HttpMessage) (k c : ℕ) (rest : List ℕ)
    → m.element_length ≡ 0
    → drop m.consumed m.buffer ≡ replicate k 32 ++ c ∷ rest
    → blank c ≡ false
    → m.consumed + k < m.buffer_length
    → start_element m token ≡ read_element (record m { consumed = m.consumed + k }) token
unfolding start_element skip_whitespace skipped
start_element_lem m k c rest z e b h =
    let test : (m.element_length == 0) ≡ true = ground (arith, z) in
    rw test (
      ap (skipped m token) (
        skip_loop_lem m.buffer k (m.buffer_length - m.consumed) m.consumed c rest e b
          (omega (arith, h))))

-- An element of a line, with so many blanks in front of it (beside the one that ends the element before).
pub record Element : Type 0 where
  pub blanks : ℕ
  pub first : ℕ
  pub others : List ℕ

abbrev pub bytes : Element → List ℕ
bytes w = w.first ∷ w.others

-- What stands behind an element, and the line from an element on, with `rest` behind the line.
abbrev pub behind : List Element → List ℕ → List ℕ
behind [] rest = carriage_return ∷ new_line ∷ rest
behind (w ∷ ws) rest = 32 ∷ (replicate w.blanks 32 ++ (bytes w ++ behind ws rest))

abbrev pub line : Element → List Element → List ℕ → List ℕ
line w ws rest = replicate w.blanks 32 ++ (bytes w ++ behind ws rest)

abbrev pub AllPlain : List Element → Type 0
AllPlain [] = Unit {0}
AllPlain (w ∷ ws) = Plain (bytes w) × AllPlain ws

-- The next element starts at position `p`, or in front of it are blanks.
pub record Ready (m : HttpMessage) (p : ℕ) : Type 0 where
  pub going : parsed m ≡ false
  pub along : move_along m ≡ record m { element_length = 0; consumed = p; next_field = 0 }

-- The message behind an element that starts at `q`.
abbrev pub got : HttpMessage → ℕ → Element → ℕ → HttpMessage
got m q w next_field = record m {
  element_length = length (bytes w);
  consumed = q;
  next_field = next_field;
}

parse_lem :
    (m : HttpMessage) (p : ℕ) (w : Element) (d : ℕ) (rest : List ℕ)
    → Ready m p
    → drop p m.buffer ≡ replicate w.blanks 32 ++ (bytes w ++ d ∷ rest)
    → Plain (bytes w)
    → terminates token d ≡ true
    → p + w.blanks + length (bytes w) < m.buffer_length
    → m.buffer_length < 2 ^ 32
    → parse_next_line_element m token
      ≡ end_element
          (record m { element_length = 0; consumed = p + w.blanks; next_field = 0 })
          token
          (p + w.blanks + length (bytes w))
unfolding parse_next_line_element terminates
parse_lem m p w d rest r e plain t h b =
    let m0 = record m { element_length = 0; consumed = p; next_field = 0 } in
    let solid : blank w.first ≡ false = ground (arith, plain.0) in
    let there : drop (p + w.blanks) m.buffer ≡ bytes w ++ d ∷ rest =
      ap (λ k. drop (p + k) m.buffer) (sym (length-replicate w.blanks 32))
      ∙ drop-parts p m.buffer (replicate w.blanks 32) (bytes w ++ d ∷ rest) e in
    rw r.going (
      ap (λ x. start_element x token) r.along
      ∙ start_element_lem m0 w.blanks w.first (w.others ++ d ∷ rest) refl e solid (omega (arith, h))
      ∙ read_element_lem (record m0 { consumed = p + w.blanks }) w.first d w.others rest there plain
          t (omega (arith, h)) b)

-- Where an element that starts behind `blanks` ends.
abbrev pub end_of : ℕ → Element → ℕ
end_of p w = p + w.blanks + length (bytes w)

pub end_at :
    (p : ℕ) (w : Element) (buffer rest : List ℕ)
    → drop p buffer ≡ replicate w.blanks 32 ++ (bytes w ++ rest)
    → drop (end_of p w) buffer ≡ rest
end_at p w buffer rest e = drop-parts (p + w.blanks) buffer (bytes w) rest (
    ap (λ k. drop (p + k) buffer) (sym (length-replicate w.blanks 32))
    ∙ drop-parts p buffer (replicate w.blanks 32) (bytes w ++ rest) e)

pub parse-blank :
    (m : HttpMessage) (p : ℕ) (w : Element) (rest : List ℕ)
    → Ready m p
    → drop p m.buffer ≡ replicate w.blanks 32 ++ (bytes w ++ 32 ∷ rest)
    → Plain (bytes w)
    → end_of p w < m.buffer_length
    → m.buffer_length < 2 ^ 32
    → parse_next_line_element m token ≡ (got m (p + w.blanks) w (end_of p w + 1), ok)
unfolding end_element terminates
parse-blank m p w rest r e plain h b =
    let last = drop-cons (end_of p w) 32 m.buffer rest (end_at p w m.buffer (32 ∷ rest) e) in
    let blank_there : (byte_at m (end_of p w) == carriage_return) ≡ false =
      ground (arith, last.0) in
    let size : end_of p w - (p + w.blanks) ≡ length (bytes w) = omega arith in
    parse_lem m p w 32 rest r e plain refl h b
    ∙ rw blank_there (
        ap (λ n. (record (got m (p + w.blanks) w (end_of p w + 1)) { element_length = n }, ok))
          size)

pub got-Ready :
    (m : HttpMessage) (p : ℕ) (w : Element) (rest : List ℕ)
    → drop p m.buffer ≡ replicate w.blanks 32 ++ (bytes w ++ 32 ∷ rest)
    → end_of p w < m.buffer_length
    → m.buffer_length < 2 ^ 32
    → Ready (got m (p + w.blanks) w (end_of p w + 1)) (end_of p w + 1)
unfolding parsed move_along
got-Ready m p w rest e h b =
    let last = drop-cons (end_of p w) 32 m.buffer rest (end_at p w m.buffer (32 ∷ rest) e) in
    let before : end_of p w + 1 - 1 ≡ end_of p w = omega arith in
    let there : get_or m.buffer (end_of p w + 1 - 1) 0 ≡ 32 =
      ap (λ k. get_or m.buffer k 0) before ∙ last.0 in
    record { going = ground (arith, there, h, b); along = ground arith }

pub parse-end :
    (m : HttpMessage) (p : ℕ) (w : Element) (rest : List ℕ)
    → Ready m p
    → drop p m.buffer ≡ replicate w.blanks 32 ++ (bytes w ++ carriage_return ∷ new_line ∷ rest)
    → Plain (bytes w)
    → end_of p w + 1 < m.buffer_length
    → m.buffer_length < 2 ^ 32
    → parse_next_line_element m token ≡ (got m (p + w.blanks) w (end_of p w + 2), ok)
unfolding end_element terminates
parse-end m p w rest r e plain h b =
    let last =
      drop-cons (end_of p w) carriage_return m.buffer (new_line ∷ rest)
        (end_at p w m.buffer (carriage_return ∷ new_line ∷ rest) e) in
    let feed = drop-cons (end_of p w + 1) new_line m.buffer rest last.1 in
    let return_there : (byte_at m (end_of p w) == carriage_return) ≡ true =
      ground (arith, last.0) in
    let inside : leb m.buffer_length (end_of p w + 1) ≡ false = ground (arith, h) in
    let feed_there : (byte_at m (end_of p w + 1) == new_line) ≡ true = ground (arith, feed.0) in
    let size : end_of p w - (p + w.blanks) ≡ length (bytes w) = omega arith in
    parse_lem m p w carriage_return (new_line ∷ rest) r e plain refl (omega (arith, h)) b
    ∙ rw return_there (
        rw inside (
          rw feed_there (
            ap (λ n. (record (got m (p + w.blanks) w (end_of p w + 2)) { element_length = n }, ok))
              size)))

pub got-parsed :
    (m : HttpMessage) (p : ℕ) (w : Element) (rest : List ℕ)
    → drop p m.buffer ≡ replicate w.blanks 32 ++ (bytes w ++ carriage_return ∷ new_line ∷ rest)
    → parsed (got m (p + w.blanks) w (end_of p w + 2)) ≡ true
unfolding parsed
got-parsed m p w rest e =
    let last =
      drop-cons (end_of p w) carriage_return m.buffer (new_line ∷ rest)
        (end_at p w m.buffer (carriage_return ∷ new_line ∷ rest) e) in
    let feed = drop-cons (end_of p w + 1) new_line m.buffer rest last.1 in
    let two : end_of p w + 2 - 2 ≡ end_of p w = omega arith in
    let one : end_of p w + 2 - 1 ≡ end_of p w + 1 = omega arith in
    let return_there : get_or m.buffer (end_of p w + 2 - 2) 0 ≡ carriage_return =
      ap (λ k. get_or m.buffer k 0) two ∙ last.0 in
    let feed_there : get_or m.buffer (end_of p w + 2 - 1) 0 ≡ new_line =
      ap (λ k. get_or m.buffer k 0) one ∙ feed.0 in
    ground (arith, return_there, feed_there)
