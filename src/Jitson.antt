-- ===== src/Jitson.antt =====
-- lib-sxe-jitson: JSON values in arrays of tokens of 16 bytes, and the stack that they are built on.
pub mod Source
pub mod Text
pub mod Load
pub mod Expand
pub mod Consume
pub mod Frame
pub mod Finish
pub mod Strings
pub mod Value
pub mod Grammar
pub mod Access
mod Tests
use libsxe.Base.{
  ℕ, zero, suc, ◌+◌, ◌-◌, ◌*◌, ◌/◌, ◌%◌, ◌^◌, Bool, true, false, not, ◌&&◌, ◌||◌, List, [], ◌∷◌,
  ◌++◌, Option, none, some, ◌==◌, ltb, leb, if◌then◌else◌, length, get_or, set, take, drop,
  replicate, strlen,
}

-- struct sxe_jitson. A string or an identifier that is copied has its bytes here, although only the first 8
-- lie in its own token; the others lie in the tokens behind it, which are `raw`. A double is its 64 bits,
-- and a pointer is an address. `opened` is an object (or an array) under construction, with `no_value` and
-- `collection`.
pub data Token : Type 0 where
  raw : Token
  null : Token
  boolean : Bool → Token
  uint : ℕ → Token
  number : ℕ → Token
  string : Bool → List ℕ → Token
  string_ref : Bool → List ℕ → Token
  ident : List ℕ → Token
  array : ℕ → ℕ → Token
  object : ℕ → ℕ → Token
  reference : ℕ → Token
  opened : Bool → ℕ → Bool → ℕ → Token

-- sxe_jitson_string_len. The length field of a key is a link when the object is indexed.
unfoldable pub string_len : Bool → List ℕ → ℕ
string_len true bytes = strlen bytes
string_len false bytes = length bytes

-- sxe_jitson_size
unfoldable pub token_size : Token → ℕ
token_size raw = 1
token_size null = 1
token_size (boolean b) = 1
token_size (uint n) = 1
token_size (number d) = 1
token_size (string key bytes) = 1 + (string_len key bytes + 16 - 8) / 16
token_size (string_ref key bytes) = 1
token_size (ident bytes) = 1 + (length bytes + 8) / 16
token_size (array len size) = size
token_size (object len size) = size
token_size (reference to) = 1
token_size (opened is_object len no_value collection) = 1

-- struct sxe_jitson_stack; the count is the length of `tokens`. Counts are less than 2 ^ 32.
pub record Stack : Type 0 where
  pub maximum : ℕ
  pub allocated : Bool
  pub tokens : List Token
  pub open_at : ℕ

-- JITSON_STACK_MAX_INCR
abbrev pub max_incr : ℕ
max_incr = 4096

-- The stack, if its memory is there.
unfoldable pub reserved : Bool → Stack → Option Stack
reserved true st = some st
reserved false st = none

-- What the environment gives: whether so many tokens can be allocated.
module _ (can_allocate : ℕ → Bool) where
  unfoldable pub new_maximum : ℕ → ℕ → ℕ
  new_maximum maximum expanded =
      if ltb expanded max_incr
      then ((expanded - 1) / maximum + 1) * maximum
      else ((expanded - 1) / max_incr + 1) * max_incr

  -- sxe_jitson_stack_expand: the stack with `more` tokens that are not written yet.
  unfoldable pub expand : Stack → ℕ → Option Stack
  expand st more =
      let expanded = length st.tokens + more in
      let maximum = new_maximum st.maximum expanded in
      let expanded_tokens = st.tokens ++ replicate more raw in
      if ltb st.maximum expanded
      then reserved (can_allocate maximum)
          (record st { maximum = maximum; allocated = true; tokens = expanded_tokens })
      else reserved (st.allocated || can_allocate st.maximum)
          (record st { allocated = true; tokens = expanded_tokens })

-- stack->count = index
abbrev pub truncate : Stack → ℕ → Stack
truncate st index = record st { tokens = take index st.tokens }

abbrev pub token_at : Stack → ℕ → Token
token_at st index = get_or st.tokens index raw

abbrev pub set_token : Stack → ℕ → Token → Stack
set_token st index t = record st { tokens = set st.tokens index t }

-- The bytes of the string that starts at `index` and has all tokens behind it.
abbrev pub capacity : Stack → ℕ → ℕ
capacity st index = 8 + 16 * (length st.tokens - index - 1)

-- More bytes of that string. `none` is a write behind the last token.
unfoldable pub append_bytes : Token → List ℕ → Token
append_bytes (string key bytes) more = string key (bytes ++ more)
append_bytes (ident bytes) more = ident (bytes ++ more)
append_bytes raw more = raw
append_bytes null more = null
append_bytes (boolean b) more = boolean b
append_bytes (uint n) more = uint n
append_bytes (number d) more = number d
append_bytes (string_ref key bytes) more = string_ref key bytes
append_bytes (array len size) more = array len size
append_bytes (object len size) more = object len size
append_bytes (reference to) more = reference to
append_bytes (opened is_object len no_value collection) more =
    opened is_object len no_value collection

unfoldable pub bytes_of : Token → List ℕ
bytes_of (string key bytes) = bytes
bytes_of (ident bytes) = bytes
bytes_of raw = []
bytes_of null = []
bytes_of (boolean b) = []
bytes_of (uint n) = []
bytes_of (number d) = []
bytes_of (string_ref key bytes) = bytes
bytes_of (array len size) = []
bytes_of (object len size) = []
bytes_of (reference to) = []
bytes_of (opened is_object len no_value collection) = []

unfoldable pub write_bytes : Stack → ℕ → List ℕ → Option Stack
write_bytes st index more =
    let t = token_at st index in
    if leb (length (bytes_of t) + length more) (capacity st index)
    then some (set_token st index (append_bytes t more))
    else none

-- jitsons[index].len++ and jitsons[index].integer = size, for a collection that is parsed.
unfoldable pub count_one : Token → Token
count_one (array len size) = array (len + 1) size
count_one (object len size) = object (len + 1) size
count_one raw = raw
count_one null = null
count_one (boolean b) = boolean b
count_one (uint n) = uint n
count_one (number d) = number d
count_one (string key bytes) = string key bytes
count_one (string_ref key bytes) = string_ref key bytes
count_one (ident bytes) = ident bytes
count_one (reference to) = reference to
count_one (opened is_object len no_value collection) =
    opened is_object (len + 1) no_value collection

unfoldable pub with_size : ℕ → Token → Token
with_size n (array len size) = array len n
with_size n (object len size) = object len n
with_size n (opened true len no_value collection) = object len n
with_size n (opened false len no_value collection) = array len n
with_size n raw = raw
with_size n null = null
with_size n (boolean b) = boolean b
with_size n (uint m) = uint m
with_size n (number d) = number d
with_size n (string key bytes) = string key bytes
with_size n (string_ref key bytes) = string_ref key bytes
with_size n (ident bytes) = ident bytes
with_size n (reference to) = reference to

abbrev pub add_one : Stack → ℕ → Stack
add_one st index = set_token st index (count_one (token_at st index))

abbrev pub close_at : Stack → ℕ → Stack
close_at st index = set_token st index (with_size (length st.tokens - index) (token_at st index))
