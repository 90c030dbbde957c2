-- ===== src/Jitson/Source.antt =====
-- lib-sxe-jitson/sxe-jitson-source.c: the text that is parsed, and how much of it is.
use libsxe.Base.{
  ℕ, Bool, true, false, not, ◌&&◌, ◌||◌, List, [], ◌∷◌, ◌++◌, Option, none, some, ◌==◌, leb,
  if◌then◌else◌, length,
}

-- struct sxe_jitson_source: `before` are the bytes in front of `next`, the last one first, and `rest` the
-- bytes from there up to `end`. The text of a string ends with its NUL.
pub record Source : Type 0 where
  pub before : List ℕ
  pub rest : List ℕ
  pub allow_hex : Bool
  pub allow_consts : Bool
  pub allow_idents : Bool

unfoldable pub source_from_buffer : List ℕ → Bool → Bool → Bool → Source
source_from_buffer buffer hex consts idents = record {
  before = [];
  rest = buffer;
  allow_hex = hex;
  allow_consts = consts;
  allow_idents = idents;
}

-- `text` is what stands in front of the NUL.
unfoldable pub source_from_string : List ℕ → Bool → Bool → Bool → Source
source_from_string text hex consts idents = source_from_buffer (text ++ 0 ∷ []) hex consts idents

unfoldable pub get_consumed : Source → ℕ
get_consumed s = length s.before

-- The source behind its first byte, which is `c`.
abbrev pub behind : Source → ℕ → List ℕ → Source
behind s c rest = record s { before = c ∷ s.before; rest = rest }

unfoldable pub get_from : Source → List ℕ → ℕ × Source
get_from s [] = (0, s)
get_from s (c ∷ cs) = (c, behind s c cs)

unfoldable pub get_char : Source → ℕ × Source
get_char s = get_from s s.rest

unfoldable pub push_from : Source → List ℕ → ℕ → Option Source
push_from s [] c = none
push_from s (b ∷ bs) c = if b == c then some (record s { before = bs; rest = b ∷ s.rest }) else none

-- `none` is one of the two failed assertions.
unfoldable pub push_char : Source → ℕ → Option Source
push_char s c = push_from s s.before c

unfoldable pub peek_from : List ℕ → ℕ
peek_from [] = 0
peek_from (c ∷ cs) = c

unfoldable pub peek_next : Source → ℕ
peek_next s = peek_from s.rest

-- isspace, isdigit and isxdigit in the C locale.
abbrev pub isspace : ℕ → Bool
isspace c = c == 32 || (leb 9 c && leb c 13)

abbrev pub isdigit : ℕ → Bool
isdigit c = leb 48 c && leb c 57

abbrev pub isxdigit : ℕ → Bool
isxdigit c = isdigit c || (leb 65 c && leb c 70) || (leb 97 c && leb c 102)

-- A loop that goes on while a test of the next byte holds: the bytes, and the source behind them.
unfoldable pub span : (ℕ → Bool) → Source → List ℕ → List ℕ × Source
span test s [] = ([], record s { rest = [] })
span test s (c ∷ cs) =
    let more = span test (behind s c cs) cs in
    if test c then (c ∷ more.0, more.1) else ([], record s { rest = c ∷ cs })

abbrev pub get_while : (ℕ → Bool) → Source → List ℕ × Source
get_while test s = span test s s.rest

unfoldable pub get_nonspace : Source → ℕ × Source
get_nonspace s = get_char (get_while isspace s).1

-- The bytes whose bit is set in identifier_chars: the dot, digits, letters and the underscore.
abbrev pub identifier_char : ℕ → Bool
identifier_char c =
    c == 46 || isdigit c || (leb 65 c && leb c 90) || c == 95 || (leb 97 c && leb c 122)

-- sxe_jitson_source_get_identifier, which is empty where there is none.
unfoldable pub get_identifier : Source → List ℕ × Source
get_identifier s = get_while identifier_char s

-- The text of a number, whether it is an unsigned integer, and the source behind it; or EINVAL.
pub data Number : Type 0 where
  number_text : List ℕ → Bool → Source → Number
  no_number : Source → Number

-- One digit or more.
unfoldable pub digits : Source → Option (List ℕ) × Source
digits s =
    let (text, s') = get_while isdigit s in
    if isdigit (peek_next s) then (some text, s') else (none, s)

-- The exponent behind the text so far: its sign and its digits.
unfoldable pub exponent_digits : List ℕ → Option (List ℕ) × Source → Number
exponent_digits text (none, s) = no_number s
exponent_digits text (some ds, s) = number_text (text ++ ds) false s

unfoldable pub exponent_sign : List ℕ → Source → Number
exponent_sign text s =
    let (c, s') = get_char s in
    if c == 45 || c == 43
    then exponent_digits (text ++ c ∷ []) (digits s')
    else exponent_digits text (digits s)

unfoldable pub exponent : List ℕ → Bool → Source → Number
exponent text is_uint s =
    let (c, s') = get_char s in
    if c == 69 || c == 101 then exponent_sign (text ++ c ∷ []) s' else number_text text is_uint s

unfoldable pub fraction_digits : List ℕ → Option (List ℕ) × Source → Number
fraction_digits text (none, s) = no_number s
fraction_digits text (some ds, s) = exponent (text ++ ds) false s

unfoldable pub fraction : List ℕ → Bool → Source → Number
fraction text is_uint s =
    let (c, s') = get_char s in
    if c == 46 then fraction_digits (text ++ c ∷ []) (digits s') else exponent text is_uint s

-- The digits behind "0x".
unfoldable pub hex_digits : List ℕ × Source → Number
hex_digits ([], s) = no_number s
hex_digits (c ∷ cs, s) = number_text (48 ∷ 120 ∷ c ∷ cs) true s

-- The number behind its sign, which is empty or a minus.
unfoldable pub unsigned_number : List ℕ → Source → Number
unsigned_number sign s =
    let (c, s1) = get_char s in
    let (x, s2) = get_char s1 in
    let (text, s3) = get_while isdigit s1 in
    if not (isdigit c)
    then no_number s
    else if s.allow_hex && length sign == 0 && c == 48 && x == 120
    then hex_digits (get_while isxdigit s2)
    else fraction (sign ++ c ∷ text) (length sign == 0) s3

unfoldable pub get_number : Source → Number
get_number s =
    let (c, s') = get_char s in
    if c == 45 then unsigned_number (45 ∷ []) s' else unsigned_number [] s
