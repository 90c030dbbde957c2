-- ===== src/Http/Message/Elements.antt =====
-- A whole request or response line of lib-sxe-http/sxe-http-message.c, parsed by calls for one token each.
use libsxe.Base.{
  ℕ, zero, suc, ◌+◌, ◌^◌, ◌≤◌, ◌<◌, ◌≡◌, refl, ap, sym, ◌∙◌, true, List, [], ◌∷◌, ◌++◌, length,
  take, drop, replicate, arith, map, length-append, length-replicate, take-append,
}
use libsxe.Http.Message.{
  HttpMessage, Outcome, ok, end_of_file, would_block, bad_message, token, message_construct, parsed,
  move_along, parse_next_line_element, carriage_return, new_line,
}
use libsxe.Http.Message.Line.{
  Element, bytes, behind, line, AllPlain, Ready, got, end_of, end_at, drop-cons, drop-parts,
  parse-blank, got-Ready, parse-end, got-parsed,
}

-- sxe_http_message_get_line_element and _get_line_element_length.
abbrev pub line_element : HttpMessage → List ℕ
line_element m = take m.element_length (drop m.consumed m.buffer)

-- The result of a call, in front of what the calls behind it give.
unfoldable pub collect : HttpMessage → Outcome → List (List ℕ) × Outcome → List (List ℕ) × Outcome
collect m ok later = (line_element m ∷ later.0, later.1)
collect m end_of_file later = ([], end_of_file)
collect m would_block later = ([], would_block)
collect m bad_message later = ([], bad_message)

-- The elements that up to so many calls return.
unfoldable pub elements : ℕ → HttpMessage → List (List ℕ) × Outcome
elements zero m = ([], ok)
elements (suc n) m =
    let (next, outcome) = parse_next_line_element m token in collect next outcome (elements n next)

line_element-got :
    (m : HttpMessage) (p : ℕ) (w : Element) (rest : List ℕ) (next_field : ℕ)
    → drop p m.buffer ≡ replicate w.blanks 32 ++ (bytes w ++ rest)
    → line_element (got m (p + w.blanks) w next_field) ≡ bytes w
line_element-got m p w rest next_field e =
    ap (take (length (bytes w))) (
      ap (λ k. drop (p + k) m.buffer) (sym (length-replicate w.blanks 32))
      ∙ drop-parts p m.buffer (replicate w.blanks 32) (bytes w ++ rest) e)
    ∙ take-append (bytes w) rest

parsed-end : (m : HttpMessage) (n : ℕ) → parsed m ≡ true → elements (suc n) m ≡ ([], end_of_file)
unfolding elements parse_next_line_element collect
parsed-end m n e = rw e refl

blanks_length : (k : ℕ) → length (replicate {A = ℕ} k 32) ≡ k
blanks_length k = length-replicate k 32

length-line :
    (w : Element) (ws : List Element) (rest : List ℕ)
    → length (line w ws rest) ≡ w.blanks + length (bytes w) + length (behind ws rest)
length-line w ws rest = omega (
  arith,
  length-append (replicate w.blanks 32) (bytes w ++ behind ws rest),
  length-append (bytes w) (behind ws rest),
  blanks_length w.blanks,
)

elements-Ready :
    (m : HttpMessage) (p : ℕ) (w : Element) (ws : List Element) (rest : List ℕ)
    → Ready m p
    → drop p m.buffer ≡ line w ws rest
    → AllPlain (w ∷ ws)
    → p + length (line w ws []) ≤ m.buffer_length
    → m.buffer_length < 2 ^ 32
    → elements (suc (suc (length ws))) m ≡ (map bytes (w ∷ ws), end_of_file)
unfolding elements collect
elements-Ready m p w [] rest r e plain h b =
    let next = got m (p + w.blanks) w (end_of p w + 2) in
    let room : end_of p w + 1 < m.buffer_length = omega (arith, h, length-line w [] []) in
    ap (λ x. collect x.0 x.1 (elements 1 x.0)) (parse-end m p w rest r e plain.0 room b)
    ∙ ap (λ later. (line_element next ∷ later.0, later.1))
        (parsed-end next 0 (got-parsed m p w rest e))
    ∙ ap (λ x. (x ∷ [], end_of_file))
        (line_element-got m p w (carriage_return ∷ new_line ∷ rest) (end_of p w + 2) e)
elements-Ready m p w (v ∷ ws) rest r e plain h b =
    let next = got m (p + w.blanks) w (end_of p w + 1) in
    let size = length-line w (v ∷ ws) [] in
    let room : end_of p w < m.buffer_length = omega (arith, h, size) in
    let later =
      drop-cons (end_of p w) 32 m.buffer (line v ws rest)
        (end_at p w m.buffer (32 ∷ line v ws rest) e) in
    ap (λ x. collect x.0 x.1 (elements (suc (suc (length ws))) x.0))
      (parse-blank m p w (line v ws rest) r e plain.0 room b)
    ∙ ap (λ later. (line_element next ∷ later.0, later.1))
        (elements-Ready next (end_of p w + 1) v ws rest (got-Ready m p w (line v ws rest) e room b)
          later.1 plain.1 (omega (arith, h, size)) b)
    ∙ ap (λ x. (x ∷ map bytes (v ∷ ws), end_of_file))
        (line_element-got m p w (32 ∷ line v ws rest) (end_of p w + 1) e)

-- A message is constructed over a buffer that begins with a line of tokens, none of them empty, with blanks
-- between them and CR and new line behind the last. The calls for the next token return these tokens in
-- order, and then the end of the line, whatever is received behind it.
pub elements-message_construct :
    (memory : HttpMessage) (w : Element) (ws : List Element) (rest : List ℕ) (buffer_length : ℕ)
    → AllPlain (w ∷ ws)
    → length (line w ws []) ≤ buffer_length
    → buffer_length < 2 ^ 32
    → elements (suc (suc (length ws))) (message_construct memory (line w ws rest) buffer_length)
      ≡ (map bytes (w ∷ ws), end_of_file)
unfolding message_construct parsed move_along
elements-message_construct memory w ws rest buffer_length plain h b =
    elements-Ready (message_construct memory (line w ws rest) buffer_length) 0 w ws rest
      (record { going = refl; along = refl }) refl plain (omega (arith, h)) b
