-- ===== src/Jitson/Access/Buckets.antt =====
-- The index of an object in lib-sxe-jitson/sxe-jitson.c, and the loop over one of its buckets.
use libsxe.Base.{
  ℕ, ◌%◌, ◌<◌, ◌≡◌, ◌≢◌, refl, ap, sym, ◌∙◌, true, false, ◌&&◌, List, [], ◌∷◌, Option, none, some,
  ◌==◌, if◌then◌else◌, Bool-cases, inl, inr, arith, length, get_or, set, take_all, strlen, bytes_eq,
  bytes_eq→eq, get_or-set_self, get_or-set_ne,
}
use native.Mathlib.Nat.{mod-lt}
use libsxe.Jitson.{Token, raw, string_len, bytes_of}
use libsxe.Jitson.Strings.Tokens.{get_or-middle}
use libsxe.Jitson.Value.{Value, Members, end, member, string_tokens, encode}
use libsxe.Jitson.Access.{at_token, skip, name_len, find_name}
use libsxe.Jitson.Access.Sizes.{Stands}

-- The names have no NUL.
abbrev pub Plain : Members → Type 0
Plain end = Unit
Plain (member key v ms) = (strlen key ≡ length key) × Plain ms

-- The last value with a name, or else `d`.
unfoldable pub last_value : Members → List ℕ → Option Value → Option Value
last_value end name d = d
last_value (member key v ms) name d = last_value ms name (if bytes_eq key name then some v else d)

-- A value is found at an offset, or there is none.
pub data Found (tokens : List Token) : Option ℕ → Option Value → Type 0 where
  found :
      {offset : ℕ} {v : Value}
      → Stands tokens offset (encode v)
      → Found tokens (some offset) (some v)
  not_found : Found tokens none none

pub name_token :
    {tokens : List Token} {offset : ℕ} (key : List ℕ)
    → Stands tokens offset (string_tokens true key)
    → at_token tokens offset ≡ Token.string true key
unfolding string_tokens
name_token key s = rw (sym s.place, s.whole) (get_or-middle s.before _ (Token.string true key) raw)

-- What the comparison of a name comes to.
same_name : (key name : List ℕ) → bytes_eq key name ≡ true → (length key == length name) ≡ true
same_name key name e = ground (arith, ap length (bytes_eq→eq key name e))

find_name-cons :
    (tokens : List Token) (name key : List ℕ) (offset : ℕ) (is : List ℕ)
    → strlen key ≡ length key
    → Stands tokens offset (string_tokens true key)
    → find_name tokens name (offset ∷ is) ≡ (
        if length key == length name && bytes_eq key name
        then some (skip tokens offset)
        else find_name tokens name is)
unfolding find_name name_len bytes_of string_len
find_name-cons tokens name key offset is e s =
    rw (name_token key s, e, take_all (length key) key (omega arith)) refl

module _ (sum : List ℕ → ℕ) (tokens : List Token) (len : ℕ) (positive : 0 < len)
    (name : List ℕ) where
  abbrev pub bucket : List ℕ → ℕ
  bucket key = sum key % len

  -- One member is put into its bucket.
  pub step-Found :
      (key : List ℕ) (v : Value) (offset : ℕ) (buckets : List (List ℕ)) (d : Option Value)
      → strlen key ≡ length key
      → length buckets ≡ len
      → Stands tokens offset (string_tokens true key)
      → Stands tokens (skip tokens offset) (encode v)
      → Found tokens (find_name tokens name (get_or buckets (bucket name) [])) d
      → Found tokens
          (find_name tokens name (
            get_or
              (set buckets (bucket key) (offset ∷ get_or buckets (bucket key) []))
              (bucket name)
              []))
          (if bytes_eq key name then some v else d)
  step-Found key v offset buckets d e l s t f = elim (Bool-cases (bytes_eq key name)) [
    | inl q ↦
        let equal : key ≡ name = bytes_eq→eq key name q in
        let same : bucket key ≡ bucket name = ap bucket equal in
        let new =
          get_or-set_self buckets (bucket name) (offset ∷ get_or buckets (bucket name) []) []
            (omega (arith, l, mod-lt (sum name) positive)) in
        rw
          (
            q,
            same,
            new,
            find_name-cons tokens name key offset (get_or buckets (bucket name) []) e s,
            same_name key name q,
            q,
          )
          (found t)
    | inr q ↦ elim (Bool-cases (bucket key == bucket name)) [
      | inl b ↦
          let same : bucket key ≡ bucket name = ground (arith, b) in
          let new =
            get_or-set_self buckets (bucket name) (offset ∷ get_or buckets (bucket name) []) []
              (omega (arith, l, mod-lt (sum name) positive)) in
          let no : (length key == length name && bytes_eq key name) ≡ false =
            ap (λ x. length key == length name && x) q ∙ ground arith in
          rw
            (
              q,
              same,
              new,
              find_name-cons tokens name key offset (get_or buckets (bucket name) []) e s,
              no,
            )
            f
      | inr b ↦
          let other : bucket key ≢ bucket name = ground (arith, b) in
          rw
            (
              q,
              get_or-set_ne buckets (bucket key) (bucket name)
                  (offset ∷ get_or buckets (bucket key) []) [] other,
            )
            f
    ]
  ]
