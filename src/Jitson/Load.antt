-- ===== src/Jitson/Load.antt =====
-- The parser of lib-sxe-jitson/sxe-jitson-stack.c, with the identifiers of sxe-jitson-ident.c.
use libsxe.Base.{
  ℕ, zero, suc, ◌+◌, ◌-◌, ◌/◌, Bool, true, false, ◌&&◌, ◌||◌, List, [], ◌∷◌, ◌++◌, Option, none,
  some, ◌==◌, ltb, leb, if◌then◌else◌, length, take, bytes_eq,
}
use libsxe.Jitson.{
  Token, null, boolean, uint, number, ident, array, object, Stack, expand, truncate, set_token,
  capacity, add_one, close_at,
}
use libsxe.Jitson.Source.{
  Source, push_char, get_nonspace, get_identifier, Number, number_text, no_number, get_number,
  source_from_string, isdigit,
}
use libsxe.Jitson.Text.{
  Outcome, loaded, failed, aborted, overflowed, unfinished, Errno, einval, enodata, enomem,
  load_string,
}

-- What the parser uses of its environment: allocation, strtoul with base 10 or 0 and strtod of the C
-- library (the number that a text begins with, and how many bytes of the text are its), the value of a constant that is registered, and whether identifiers are.
pub record Environment : Type 0 where
  pub can_allocate : ℕ → Bool
  pub strtoul : List ℕ → ℕ → ℕ × ℕ
  pub strtod : List ℕ → ℕ × ℕ
  pub constant : List ℕ → Option (List Token)
  pub idents_registered : Bool

-- jitson_class
pub data Class : Type 0 where
  quote : Class
  open_object : Class
  open_array : Class
  numeric : Class
  alphabetic : Class
  invalid : Class

unfoldable pub class_of : ℕ → Class
class_of c =
    if c == 34
    then quote
    else if c == 123
    then open_object
    else if c == 91
    then open_array
    else if c == 45 || isdigit c
    then numeric
    else if (leb 65 c && leb c 90) || (leb 97 c && leb c 122) || c == 95
    then alphabetic
    else invalid

-- INVALID and ERROR: the tokens of the value are discarded.
abbrev pub fail_at : Errno → ℕ → Stack → Source → Outcome
fail_at e index st s = failed e (truncate st index) s

-- The next part, or ERROR.
unfoldable pub or_discard : (Stack → Source → Outcome) → ℕ → Outcome → Outcome
or_discard next index (loaded st s) = next st s
or_discard next index (failed e st s) = fail_at e index st s
or_discard next index aborted = aborted
or_discard next index overflowed = overflowed
or_discard next index unfinished = unfinished

-- Whether the loop over elements goes on, ends, or fails, by the byte behind an element.
unfoldable pub behind_element : (Stack → Source → Outcome) → ℕ → Stack → ℕ → Source → Outcome
behind_element next index st c s =
    if c == 44
    then next st s
    else if c == 93
    then loaded (close_at st index) s
    else fail_at einval index st s

unfoldable pub element_loaded : (Stack → Source → Outcome) → ℕ → Stack → Source → Outcome
element_loaded next index st s =
    let (c, s') = get_nonspace s in behind_element next index (add_one st index) c s'

-- The elements of an array; `value` parses one.
unfoldable pub elements : (Stack → Source → Outcome) → ℕ → ℕ → Stack → Source → Outcome
elements value zero index st s = unfinished
elements value (suc fuel) index st s =
    or_discard (element_loaded (elements value fuel index) index) index (value st s)

unfoldable pub pushed_back : (Stack → Source → Outcome) → Stack → Option Source → Outcome
pushed_back next st none = aborted
pushed_back next st (some s) = next st s

-- Behind the bracket of an array.
unfoldable pub load_array : (Stack → Source → Outcome) → ℕ → ℕ → Stack → Source → Outcome
load_array value fuel index st s =
    let (c, s') = get_nonspace s in
    let st' = set_token st index (array 0 0) in
    if c == 93
    then loaded (set_token st index (array 0 1)) s'
    else pushed_back (elements value fuel index) st' (push_char s' c)

-- The byte behind the comma between members, where there is one, starts the next.
unfoldable pub behind_comma : (ℕ → Stack → Source → Outcome) → ℕ → Stack → ℕ × Source → Outcome
behind_comma next index st (c, s) = if c == 0 then fail_at einval index st s else next c st s

unfoldable pub behind_member : (ℕ → Stack → Source → Outcome) → ℕ → Stack → ℕ → Source → Outcome
behind_member next index st c s =
    if c == 44
    then behind_comma next index st (get_nonspace s)
    else if c == 125
    then loaded (close_at st index) s
    else fail_at einval index st s

unfoldable pub member_loaded : (ℕ → Stack → Source → Outcome) → ℕ → Stack → Source → Outcome
member_loaded next index st s =
    let (c, s') = get_nonspace s in behind_member next index (add_one st index) c s'

-- The colon and the value behind the name of a member.
unfoldable pub name_loaded :
    (Stack → Source → Outcome) → (ℕ → Stack → Source → Outcome) → ℕ → Stack → Source → Outcome
name_loaded value next index st s =
    let (c, s') = get_nonspace s in
    if c == 58
    then or_discard (member_loaded next index) index (value st s')
    else fail_at einval index st s'

module _ (env : Environment) where
  -- The members of an object, of which `c` is the next byte.
  unfoldable pub members : (Stack → Source → Outcome) → ℕ → ℕ → ℕ → Stack → Source → Outcome
  members value zero index c st s = unfinished
  members value (suc fuel) index c st s =
      if c == 34
      then or_discard (name_loaded value (members value fuel index) index) index
          (load_string env.can_allocate st s true)
      else fail_at einval index st s

  -- Behind the brace of an object.
  unfoldable pub load_object : (Stack → Source → Outcome) → ℕ → ℕ → Stack → Source → Outcome
  load_object value fuel index st s =
      let (c, s') = get_nonspace s in
      if c == 125
      then loaded (set_token st index (object 0 1)) s'
      else members value fuel index c (set_token st index (object 0 0)) s'

  -- What strtoul or strtod gives is written, where it read all of the number: the debug assertion on endptr
  -- fails else.
  unfoldable pub converted : ℕ → Stack → Source → ℕ → (ℕ → Token) → ℕ × ℕ → Outcome
  converted index st s text_length token (n, read) =
      if read == text_length then loaded (set_token st index (token n)) s else aborted

  -- strtoul and strtod get all that is left of the source behind the start of the number, and not its end:
  -- what stands in memory behind a source that ends without NUL is not modelled.
  unfoldable pub number_loaded : ℕ → Stack → Number → Outcome
  number_loaded index st (no_number s) = fail_at einval index st s
  number_loaded index st (number_text text is_uint s) =
      if is_uint
      then converted index st s (length text) uint
          (env.strtoul (text ++ s.rest) (if s.allow_hex then 0 else 10))
      else converted index st s (length text) number (env.strtod (text ++ s.rest))

  unfoldable pub load_number : ℕ → Stack → Source → Outcome
  load_number index st s = number_loaded index st (get_number s)

  -- sxe_jitson_stack_push_ident_at_index, with the room that the identifier needs.
  unfoldable pub ident_room : ℕ → Stack → List ℕ → Option Stack
  ident_room index st name =
      if leb 8 (length name) then expand env.can_allocate st ((length name + 8) / 16) else some st

  unfoldable pub push_ident : ℕ → List ℕ → Stack → Source → Option Stack → Outcome
  push_ident index name before s none = fail_at enomem index before s
  push_ident index name before s (some st) =
      if ltb (length name) (capacity st index)
      then loaded (set_token st index (ident name)) s
      else overflowed

  -- An identifier that is neither a keyword nor a constant.
  unfoldable pub load_ident : ℕ → List ℕ → Stack → Source → Outcome
  load_ident index name st s =
      if env.idents_registered && s.allow_idents
      then push_ident index name st s (ident_room index st name)
      else fail_at einval index st s

  -- sxe_jitson_stack_dup_at_index, over the token at the index and the tokens behind it.
  unfoldable pub dup_constant : ℕ → List Token → Stack → Source → Option Stack → Outcome
  dup_constant index value before s none = fail_at enomem index before s
  dup_constant index value before s (some st) =
      loaded (record st { tokens = take index st.tokens ++ value }) s

  unfoldable pub load_constant : ℕ → List ℕ → Stack → Source → Option (List Token) → Outcome
  load_constant index name st s none = load_ident index name st s
  load_constant index name st s (some value) =
      dup_constant index value st s
        (if ltb 1 (length value) then expand env.can_allocate st (length value - 1) else some st)

  unfoldable pub named : ℕ → Stack → List ℕ × Source → Outcome
  named index st (name, s) =
      if bytes_eq name (102 ∷ 97 ∷ 108 ∷ 115 ∷ 101 ∷ [])
      then loaded (set_token st index (boolean false)) s
      else if bytes_eq name (110 ∷ 117 ∷ 108 ∷ 108 ∷ [])
      then loaded (set_token st index null) s
      else if bytes_eq name (116 ∷ 114 ∷ 117 ∷ 101 ∷ [])
      then loaded (set_token st index (boolean true)) s
      else load_constant index name st s (if s.allow_consts then env.constant name else none)

  unfoldable pub load_named : ℕ → Stack → Source → Outcome
  load_named index st s = named index st (get_identifier s)

  -- The switch on the class of the first byte `c`; the token at `index` is taken.
  unfoldable pub load_class :
      (Stack → Source → Outcome) → ℕ → ℕ → Stack → ℕ → Source → Class → Outcome
  load_class value fuel index st c s quote =
      load_string env.can_allocate (truncate st index) s false
  load_class value fuel index st c s open_object = load_object value fuel index st s
  load_class value fuel index st c s open_array = load_array value fuel index st s
  load_class value fuel index st c s numeric = pushed_back (load_number index) st (push_char s c)
  load_class value fuel index st c s alphabetic = pushed_back (load_named index) st (push_char s c)
  load_class value fuel index st c s invalid = fail_at einval index st s

  unfoldable pub load_first :
      (Stack → Source → Outcome) → ℕ → Stack → ℕ → Source → Option Stack → Outcome
  load_first value fuel st c s none = failed enomem st s
  load_first value fuel st c s (some st') =
      load_class value fuel (length st.tokens) st' c s (class_of c)

  -- sxe_jitson_stack_load_json; the fuel bounds the depth of the calls and the rounds of each loop.
  unfoldable pub load_json : ℕ → Stack → Source → Outcome
  load_json zero st s = unfinished
  load_json (suc fuel) st s =
      let (c, s') = get_nonspace s in
      if c == 0
      then failed enodata st s'
      else load_first (load_json fuel) fuel st c s' (expand env.can_allocate st 1)

  -- sxe_jitson_stack_parse_json over a NUL-terminated text; a byte of it is at most one call deep.
  unfoldable pub parse_json : Stack → List ℕ → Bool → Bool → Bool → Outcome
  parse_json st text hex consts idents =
      load_json (suc (suc (length text))) st (source_from_string text hex consts idents)
