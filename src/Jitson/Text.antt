-- ===== src/Jitson/Text.antt =====
-- Strings of lib-sxe-jitson/sxe-jitson-stack.c as they are parsed onto the stack, and sxe-unicode.c.
use libsxe.Base.{
  ℕ, zero, suc, ◌+◌, ◌-◌, ◌*◌, ◌/◌, ◌%◌, Bool, ◌&&◌, ◌||◌, List, [], ◌∷◌, Option, none, some, ◌==◌,
  ltb, leb, if◌then◌else◌, length,
}
use libsxe.Jitson.{
  Stack, string, expand, truncate, token_at, set_token, capacity, bytes_of, write_bytes,
}
use libsxe.Jitson.Source.{Source, get_char, isdigit}

-- sxe_unicode_to_utf8; the bytes that are or-ed have no bits in common.
unfoldable pub unicode_to_utf8 : ℕ → List ℕ
unicode_to_utf8 u =
    if leb u 127
    then u ∷ []
    else if leb u 2047
    then (192 + u / 64) ∷ (128 + u % 64) ∷ []
    else if leb u 65535
    then (224 + u / 4096) ∷ (128 + u / 64 % 64) ∷ (128 + u % 64) ∷ []
    else if leb u 1114111
    then (240 + u / 262144) ∷ (128 + u / 4096 % 64) ∷ (128 + u / 64 % 64) ∷ (128 + u % 64) ∷ []
    else []

-- The values of errno that the parser sets.
pub data Errno : Type 0 where
  einval : Errno
  eilseq : Errno
  enodata : Errno
  enomem : Errno

-- What a part of the parser comes to. `aborted` is a failed assertion, `overflowed` a write behind the last
-- token of the stack, and `unfinished` a loop that is out of fuel.
pub data Outcome : Type 0 where
  loaded : Stack → Source → Outcome
  failed : Errno → Stack → Source → Outcome
  aborted : Outcome
  overflowed : Outcome
  unfinished : Outcome

-- The value of a hexadecimal digit.
unfoldable pub hex_digit : ℕ → Option ℕ
hex_digit c =
    if isdigit c
    then some (c - 48)
    else if leb 97 c && leb c 102
    then some (c - 97 + 10)
    else if leb 65 c && leb c 70
    then some (c - 65 + 10)
    else none

-- What an escape sequence comes to: bytes, or EILSEQ.
pub data Escape : Type 0 where
  escaped : List ℕ → Source → Escape
  illegal : Source → Escape

unfoldable pub hex_next : (ℕ → Source → Escape) → ℕ → Source → Option ℕ → Escape
hex_next more unicode s none = illegal s
hex_next more unicode s (some d) = more (unicode * 16 + d) s

-- The digits of \u that are left.
unfoldable pub unicode_digits : ℕ → ℕ → Source → Escape
unicode_digits zero unicode s = escaped (unicode_to_utf8 unicode) s
unicode_digits (suc left) unicode s =
    let (c, s') = get_char s in hex_next (unicode_digits left) unicode s' (hex_digit c)

-- The byte for the character behind a backslash.
unfoldable pub simple_escape : ℕ → Option ℕ
simple_escape c =
    if c == 34 || c == 92 || c == 47
    then some c
    else if c == 98
    then some 8
    else if c == 102
    then some 12
    else if c == 110
    then some 10
    else if c == 114
    then some 13
    else if c == 116
    then some 9
    else none

unfoldable pub escape_of : ℕ → Source → Option ℕ → Escape
escape_of c s (some b) = escaped (b ∷ []) s
escape_of c s none = if c == 117 then unicode_digits 4 0 s else illegal s

-- The escape sequence behind its backslash.
unfoldable pub escape : Source → Escape
escape s = let (c, s') = get_char s in escape_of c s' (simple_escape c)

-- Whether the next token is taken when the first byte of a character of `i` bytes makes the length `len`.
abbrev pub at_edge : ℕ → ℕ → Bool
at_edge len i = leb 8 (len % 16) && ltb (len % 16) (8 + i)

-- The rest of the loop, unless what was written lies behind the last token.
unfoldable pub written : (Stack → Source → Outcome) → Source → Option Stack → Outcome
written next s none = overflowed
written next s (some st) = next st s

-- The rest of the loop on a stack with more room, where the other bytes of the character are written.
unfoldable pub with_room :
    (Stack → Source → Outcome) → List ℕ → ℕ → Stack → Source → Option Stack → Outcome
with_room next bs index before s none = failed enomem (truncate before index) s
with_room next bs index before s (some st) = written next s (write_bytes st index bs)

-- The NUL behind the string.
unfoldable pub terminate : ℕ → Stack → Source → Outcome
terminate index st s =
    if ltb (length (bytes_of (token_at st index))) (capacity st index)
    then loaded st s
    else overflowed

module _ (can_allocate : ℕ → Bool) where
  -- More room where it is due: `none` is a failed allocation.
  unfoldable pub make_room : ℕ → Stack → ℕ → Option Stack
  make_room i st index =
      if at_edge (length (bytes_of (token_at st index))) i
      then expand can_allocate st 1
      else some st

  unfoldable pub with_first :
      (Stack → Source → Outcome) → List ℕ → ℕ → ℕ → Source → Option Stack → Outcome
  with_first next bs i index s none = overflowed
  with_first next bs i index s (some st) = with_room next bs index st s (make_room i st index)

  -- A character is written: its first byte, then more room where it is due, then its other bytes.
  unfoldable pub put_char : (Stack → Source → Outcome) → ℕ → Stack → Source → List ℕ → Outcome
  put_char next index st s [] = next st s
  put_char next index st s (b ∷ bs) =
      with_first next bs (suc (length bs)) index s (write_bytes st index (b ∷ []))

  unfoldable pub put_escape : (Stack → Source → Outcome) → ℕ → Stack → Escape → Outcome
  put_escape next index st (escaped bs s) = put_char next index st s bs
  put_escape next index st (illegal s) = failed eilseq (truncate st index) s

  -- One round of the loop over the characters of a string, of which `c` is the next.
  unfoldable pub string_round : (Stack → Source → Outcome) → ℕ → Stack → ℕ → Source → Outcome
  string_round next index st c s =
      if c == 34
      then terminate index st s
      else if c == 0
      then failed einval (truncate st index) s
      else if c == 92
      then put_escape next index st (escape s)
      else put_char next index st s (c ∷ [])

  -- A round for each byte of the text, and one for its end, is enough.
  unfoldable pub string_loop : ℕ → ℕ → Stack → Source → Outcome
  string_loop zero index st s = unfinished
  string_loop (suc fuel) index st s =
      let (c, s') = get_char s in string_round (string_loop fuel index) index st c s'

  unfoldable pub start_string : Bool → ℕ → Stack → Source → Option Stack → Outcome
  start_string key index st s none = failed enomem st s
  start_string key index st s (some st') =
      string_loop (suc (length s.rest)) index (set_token st' index (string key [])) s

  -- sxe_jitson_stack_load_string, behind the quote.
  unfoldable pub load_string : Stack → Source → Bool → Outcome
  load_string st s key = start_string key (length st.tokens) st s (expand can_allocate st 1)
