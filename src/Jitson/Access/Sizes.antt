-- ===== src/Jitson/Access/Sizes.antt =====
-- The sizes of values in the tokens of lib-sxe-jitson.
use libsxe.Base.{
  ℕ, suc, ◌+◌, ◌/◌, ◌≡◌, refl, ap, sym, true, List, ◌∷◌, ◌++◌, arith, length, strlen,
  length-replicate,
}
use libsxe.Jitson.{Token, raw, string_len, token_size}
use libsxe.Jitson.Strings.Tokens.{get_or-middle}
use libsxe.Jitson.Value.{
  Value, null, boolean, uint, number, string, array, object, string_tokens, encode,
}
use libsxe.Jitson.Access.{at_token, skip}

-- The size of the first token is the number of the tokens.
pub data Sized : List Token → Type 0 where
  sized : {t : Token} {ts : List Token} → token_size t ≡ suc (length ts) → Sized (t ∷ ts)

pub encode-Sized : (v : Value) → Sized (encode v)
unfolding encode string_tokens token_size string_len
encode-Sized null = sized refl
encode-Sized (boolean b) = sized refl
encode-Sized (uint n) = sized refl
encode-Sized (number d) = sized refl
encode-Sized (string w) =
    sized (omega (arith, length-replicate {A = Token} ((length w + 8) / 16) raw))
encode-Sized (array es) = sized refl
encode-Sized (object ms) = sized refl

-- A name without NUL.
pub name-Sized : (w : List ℕ) → strlen w ≡ length w → Sized (string_tokens true w)
unfolding string_tokens token_size string_len
name-Sized w e = sized (omega (arith, e, length-replicate {A = Token} ((length w + 8) / 16) raw))

-- The tokens stand at an offset.
pub record Stands (tokens : List Token) (offset : ℕ) (l : List Token) : Type 0 where
  pub before : List Token
  pub after : List Token
  pub whole : tokens ≡ before ++ (l ++ after)
  pub place : length before ≡ offset

pub skip-Sized :
    {tokens l : List Token} {offset : ℕ}
    → Sized l
    → Stands tokens offset l
    → skip tokens offset ≡ offset + length l
skip-Sized {tokens} (sized {t} {ts} e) s =
    let head : at_token tokens (length s.before) ≡ t =
      rw s.whole (get_or-middle s.before (ts ++ s.after) t raw) in
    rw (sym s.place) (omega (arith, ap token_size head, e))
