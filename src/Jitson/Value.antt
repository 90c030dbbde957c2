-- ===== src/Jitson/Value.antt =====
-- JSON values, and the tokens of lib-sxe-jitson that stand for them.
use libsxe.Base.{ℕ, suc, ◌+◌, ◌/◌, Bool, true, false, List, [], ◌∷◌, ◌++◌, length, replicate}
use libsxe.Jitson.{Token, raw}

mutual
  pub data Value : Type 0 where
    null : Value
    boolean : Bool → Value
    uint : ℕ → Value
    number : ℕ → Value
    string : List ℕ → Value
    array : Elements → Value
    object : Members → Value

  pub data Elements : Type 0 where
    nil : Elements
    cons : Value → Elements → Elements

  pub data Members : Type 0 where
    end : Members
    member : List ℕ → Value → Members → Members

unfoldable pub count : Elements → ℕ
count nil = 0
count (cons v es) = suc (count es)

unfoldable pub count_members : Members → ℕ
count_members end = 0
count_members (member key v ms) = suc (count_members ms)

-- A string and the tokens that its bytes want behind its own.
unfoldable pub string_tokens : Bool → List ℕ → List Token
string_tokens key w = Token.string key w ∷ replicate ((length w + 8) / 16) raw

-- The tokens of a value. A collection has its length and its size in its own token.
unfoldable mutual
  pub encode : Value → List Token
  encode null = Token.null ∷ []
  encode (boolean b) = Token.boolean b ∷ []
  encode (uint n) = Token.uint n ∷ []
  encode (number d) = Token.number d ∷ []
  encode (string w) = string_tokens false w
  encode (array es) =
      Token.array (count es) (suc (length (encode_elements es))) ∷ encode_elements es
  encode (object ms) =
      Token.object (count_members ms) (suc (length (encode_members ms))) ∷ encode_members ms

  pub encode_elements : Elements → List Token
  encode_elements nil = []
  encode_elements (cons v es) = encode v ++ encode_elements es

  pub encode_members : Members → List Token
  encode_members end = []
  encode_members (member key v ms) = string_tokens true key ++ (encode v ++ encode_members ms)
