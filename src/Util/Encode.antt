-- ===== src/Util/Encode.antt =====
-- lib-sxe-log/sxe-str-encode.c: spaces become underscores, other special characters "=XX".
mod Tests
use libsxe.Base.{
  ℕ, zero, suc, ◌+◌, ◌-◌, ◌*◌, ◌/◌, ◌%◌, ◌^◌, ◌≤◌, ◌<◌, ◌≡◌, refl, ap, Bool, true, false, not, ◌||◌,
  List, [], ◌∷◌, ◌++◌, ◌==◌, ltb, ltb→lt, leb, if◌then◌else◌, Bool-cases, inl, inr, arith, length,
  length-append, get_or, NulFree,
}

-- "0123456789ABCDEF"
unfoldable pub upper_digit : ℕ → ℕ
upper_digit n = if ltb n 10 then n + b'0' else n + 55

-- What snprintf(..., 4, "=%02X", c) leaves of a `char`: above 127 it is negative, and its first two
-- digits are FF.
unfoldable pub escaped : ℕ → List ℕ
unfolding upper_digit
escaped c =
    if ltb c 128
    then b'=' ∷ upper_digit (c / 16) ∷ upper_digit (c % 16) ∷ []
    else b'=' ∷ b'F' ∷ b'F' ∷ []

-- `isspace` and `isprint` are the C library's.
module _ (isspace isprint : ℕ → Bool) where
  unfoldable pub special : ℕ → Bool
  special c = c == b'_' || (c == b'=' || (isspace c || not (isprint c)))

  -- What a character becomes.
  unfoldable pub code : ℕ → List ℕ
  unfolding escaped
  code c = if c == b' ' then b'_' ∷ [] else if special c then escaped c else c ∷ []

  -- Whether the loop stops in front of an escape.
  unfoldable pub no_room : ℕ → ℕ → ℕ → Bool
  no_room size i c = if c == b' ' then false else if special c then leb size (i + 3) else false

  -- The loop, with `n` characters left of the length and `i` bytes written: the bytes that it writes
  -- from there, and whether it got through the text.
  unfoldable pub encode_loop : ℕ → ℕ → List ℕ → ℕ → List ℕ × Bool
  encode_loop size zero s i = ([], true)
  encode_loop size (suc n) [] i = ([], true)
  encode_loop size (suc n) (c ∷ s) i =
      let i' = i + length (code c) in
      let (bytes, done) = encode_loop size n s i' in
      if c == 0
      then ([], true)
      else if no_room size i c
      then ([], false)
      else if i' + 1 == size
      then (code c, false)
      else (code c ++ bytes, done)

  -- The bytes in front of the NUL, and whether the buffer is returned rather than NULL.
  unfoldable pub strn_encode : ℕ → List ℕ → ℕ → List ℕ × Bool
  strn_encode size string length' = encode_loop size length' string 0

  pub codes : List ℕ → List ℕ
  codes [] = []
  codes (c ∷ s) = code c ++ codes s

  length-code : (c : ℕ) → (1 ≤ length (code c)) × (length (code c) ≤ 3)
  unfolding code
  length-code c = ground arith

  no_room_lem :
      (size i c : ℕ)
      → (no_room size i c ≡ true → size ≤ i + length (code c))
        × (no_room size i c ≡ false → i + 1 < size → i + length (code c) < size)
  unfolding no_room code
  no_room_lem size i c = ((λ e. ground arith), (λ e h. ground arith))

  -- The bytes and their NUL fit.
  encode_loop_bound :
      (size n : ℕ) (s : List ℕ) (i : ℕ)
      → i + 1 < size
      → i + length (encode_loop size n s i).0 < size
  unfolding encode_loop
  encode_loop_bound size zero s i h = omega arith
  encode_loop_bound size (suc n) [] i h = omega arith
  encode_loop_bound size (suc n) (c ∷ s) i h = ground (
    arith,
    no_room_lem size i c,
    encode_loop_bound size n s (i + length (code c)),
    length-append (code c) (encode_loop size n s (i + length (code c))).0,
  )

  encode_loop_fits :
      (size : ℕ) (s : List ℕ) (i : ℕ)
      → NulFree s
      → i + length (codes s) + 1 < size
      → encode_loop size (length s) s i ≡ (codes s, true)
  unfolding encode_loop codes
  encode_loop_fits size [] i h k = refl
  encode_loop_fits size (c ∷ s) i h k = ground (
    arith,
    no_room_lem size i c,
    length-append (code c) (codes s),
    encode_loop_fits size s (i + length (code c)) h.1,
  )

  encode_loop_full :
      (size : ℕ) (s : List ℕ) (i : ℕ)
      → NulFree s
      → i + 1 < size
      → size ≤ i + length (codes s) + 1
      → (encode_loop size (length s) s i).1 ≡ false
  unfolding encode_loop codes
  encode_loop_full size [] i h r k = absurd (omega arith)
  encode_loop_full size (c ∷ s) i h r k = ground (
    arith,
    no_room_lem size i c,
    length-append (code c) (codes s),
    encode_loop_full size s (i + length (code c)) h.1,
  )

  -- In a buffer of at least two bytes, sxe_strn_encode leaves room for its NUL, so its assertion holds,
  -- whatever the text and the length limit.
  pub strn_encode_bound :
      (size : ℕ) (string : List ℕ) (limit : ℕ)
      → 1 < size
      → length (strn_encode size string limit).0 < size
  unfolding strn_encode
  strn_encode_bound size string limit h = omega (arith, encode_loop_bound size limit string 0 h)

  -- For a text with no NUL and a buffer of at least two bytes, sxe_strn_encode returns the buffer, with
  -- the whole encoding in it, if the encoding and its NUL leave a byte of the buffer unused; otherwise
  -- it returns NULL, also where the encoding and its NUL would just fit.
  pub strn_encode_lem :
      (size : ℕ) (string : List ℕ)
      → NulFree string
      → 1 < size
      → (length (codes string) + 1 < size
          → strn_encode size string (length string) ≡ (codes string, true))
        × (size ≤ length (codes string) + 1 → (strn_encode size string (length string)).1 ≡ false)
  unfolding strn_encode
  strn_encode_lem size string h k = (
    (λ f. encode_loop_fits size string 0 h (omega arith)),
    (λ f. encode_loop_full size string 0 h (omega arith) (omega arith)),
  )
