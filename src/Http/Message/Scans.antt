-- ===== src/Http/Message/Scans.antt =====
-- The loops of sxe_http_message_parse_next_header of lib-sxe-http/sxe-http-message.c that look for the ends of a
-- name and of a value.
use libsxe.Base.{
  ℕ, zero, suc, ◌+◌, ◌≤◌, ◌<◌, ◌≡◌, refl, ap, ◌∙◌, Bool, true, false, List, [], ◌∷◌, ◌++◌, ◌==◌,
  length, get_or, drop, arith,
}
use libsxe.Http.Message.{HttpMessage, found, byte_at, carriage_return, new_line}
use libsxe.Http.Message.Header.{value_scan, trimmed, name_scan}
use libsxe.Http.Message.Line.{drop-cons}

-- The bytes of a value on one line: no CR and no new line.
abbrev pub InLine : List ℕ → Type 0
InLine [] = Unit {0}
InLine (c ∷ cs) = (c == carriage_return ≡ false) × (c == new_line ≡ false) × InLine cs

pub value_scan_lem :
    (buffer value : List ℕ) (left p : ℕ) (rest : List ℕ)
    → drop p buffer ≡ value ++ carriage_return ∷ rest
    → InLine value
    → length value ≤ left
    → value_scan buffer left p ≡ found (p + length value)
unfolding value_scan
value_scan_lem buffer [] zero p rest e w h =
    ground (arith, drop-cons p carriage_return buffer rest e)
value_scan_lem buffer [] (suc left) p rest e w h =
    ground (arith, drop-cons p carriage_return buffer rest e)
value_scan_lem buffer (b ∷ value) zero p rest e w h = absurd (omega (arith, h))
value_scan_lem buffer (b ∷ value) (suc left) p rest e w h =
    let s = drop-cons p b buffer (value ++ carriage_return ∷ rest) e in
    ground (
      arith,
      s.0,
      w.0,
      w.1,
      value_scan_lem buffer value left (p + 1) rest s.1 w.2 (omega (arith, h)),
    )

-- The bytes of a name: printable, and no colon.
abbrev pub IsName : (ℕ → Bool) → List ℕ → Type 0
IsName isgraph [] = Unit {0}
IsName isgraph (c ∷ cs) = (isgraph c ≡ true) × (c == 58 ≡ false) × IsName isgraph cs

module _ (isgraph isspace : ℕ → Bool) where
  pub name_scan_lem :
      (buffer name : List ℕ) (left p : ℕ) (rest : List ℕ)
      → drop p buffer ≡ name ++ 58 ∷ rest
      → IsName isgraph name
      → length name ≤ left
      → name_scan isgraph isspace buffer left p ≡ found (p + length name)
  unfolding name_scan
  name_scan_lem buffer [] zero p rest e w h = ground (arith, drop-cons p 58 buffer rest e)
  name_scan_lem buffer [] (suc left) p rest e w h = ground (arith, drop-cons p 58 buffer rest e)
  name_scan_lem buffer (b ∷ name) zero p rest e w h = absurd (omega (arith, h))
  name_scan_lem buffer (b ∷ name) (suc left) p rest e w h =
      let s = drop-cons p b buffer (name ++ 58 ∷ rest) e in
      ground (
        arith,
        s.0,
        w.0,
        w.1,
        name_scan_lem buffer name left (p + 1) rest s.1 w.2 (omega (arith, h)),
      )

  -- White space.
  abbrev pub Spaces : List ℕ → Type 0
  Spaces [] = Unit {0}
  Spaces (c ∷ cs) = (isspace c ≡ true) × Spaces cs

  pub space_at :
      (buffer trail : List ℕ) (p i : ℕ) (rest : List ℕ)
      → drop p buffer ≡ trail ++ rest
      → Spaces trail
      → i < length trail
      → isspace (get_or buffer (p + i) 0) ≡ true
  space_at buffer [] p i rest e w h = absurd (omega (arith, h))
  space_at buffer (b ∷ trail) p zero rest e w h =
      let here : p + 0 ≡ p = omega arith in
      ap (λ k. isspace (get_or buffer k 0)) here
      ∙ ap isspace (drop-cons p b buffer (trail ++ rest) e).0
      ∙ w.0
  space_at buffer (b ∷ trail) p (suc i) rest e w h =
      let next : p + suc i ≡ p + 1 + i = omega arith in
      ap (λ k. isspace (get_or buffer k 0)) next
      ∙ space_at buffer trail (p + 1) i rest (drop-cons p b buffer (trail ++ rest) e).1 w.1
          (omega (arith, h))

  -- Trailing white space is trimmed.
  pub trimmed_spaces :
      (m : HttpMessage) (n k : ℕ)
      → ((i : ℕ) → i < k → isspace (byte_at m (m.value_offset + n + i)) ≡ true)
      → trimmed isgraph isspace m (n + k) ≡ trimmed isgraph isspace m n
  unfolding trimmed
  trimmed_spaces m n zero h =
      let none_left : n + 0 ≡ n = omega arith in ap (trimmed isgraph isspace m) none_left
  trimmed_spaces m n (suc k) h =
      let one : n + suc k ≡ suc (n + k) = omega arith in
      let at : m.value_offset + (n + k) ≡ m.value_offset + n + k = omega arith in
      let space : isspace (byte_at m (m.value_offset + (n + k))) ≡ true =
        ap (λ j. isspace (byte_at m j)) at ∙ h k (omega arith) in
      ap (trimmed isgraph isspace m) one
      ∙ rw space (trimmed_spaces m n k (λ i b. h i (omega (arith, b))))

  -- A value whose last byte is no space is not trimmed.
  pub trimmed_lem :
      (m : HttpMessage) (n : ℕ)
      → isspace (byte_at m (m.value_offset + n)) ≡ false
      → trimmed isgraph isspace m (suc n) ≡ suc n
  unfolding trimmed
  trimmed_lem m n e = rw e refl
