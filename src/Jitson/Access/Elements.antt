-- ===== src/Jitson/Access/Elements.antt =====
-- sxe_jitson_array_get_element of lib-sxe-jitson/sxe-jitson.c on the tokens of an array.
use libsxe.Base.{
  ℕ, zero, suc, ◌+◌, ◌*◌, ◌≤◌, ◌<◌, ◌≡◌, refl, ap, sym, ◌∙◌, Bool, true, false, List, [], ◌∷◌, ◌++◌,
  Option, none, some, leb, arith, length, get_or, length-append, append_assoc,
}
use libsxe.Jitson.{Token}
use libsxe.Jitson.Value.{Value, array, Elements, nil, cons, count, encode, encode_elements}
use libsxe.Jitson.Access.{
  Array, Access, at_offset, missing, token_len, is_array, at_token, skip, element_offsets,
  indexed_array, offset_in, element_at, get_element,
}
use libsxe.Jitson.Access.Sizes.{Stands, encode-Sized, skip-Sized}

unfoldable pub nth : Elements → ℕ → Option Value
nth nil i = none
nth (cons v es) zero = some v
nth (cons v es) (suc i) = nth es i

nth_lt : (es : Elements) (i : ℕ) (v : Value) → nth es i ≡ some v → i < count es
unfolding nth count
nth_lt nil i v e = absurd cc
nth_lt (cons w es) zero v e = omega arith
nth_lt (cons w es) (suc i) v e = omega (arith, nth_lt es i v e)

nth_ge : (es : Elements) (i : ℕ) → nth es i ≡ none → count es ≤ i
unfolding nth count
nth_ge nil i e = omega arith
nth_ge (cons w es) zero e = absurd cc
nth_ge (cons w es) (suc i) e = omega (arith, nth_ge es i e)

offsets-Stands :
    (tokens : List Token) (es : Elements) (before after : List Token) (offset i : ℕ) (v : Value)
    → tokens ≡ before ++ (encode_elements es ++ after)
    → length before ≡ offset
    → nth es i ≡ some v
    → Stands tokens (get_or (element_offsets tokens (count es) offset) i 0) (encode v)
unfolding nth count element_offsets encode_elements
offsets-Stands tokens nil before after offset i v e p q = absurd cc
offsets-Stands tokens (cons w es) before after offset zero v e p q =
    let same : w ≡ v = cc in
    rw (sym same) (record {
      before = before;
      after = encode_elements es ++ after;
      whole = e ∙ ap (λ l. before ++ l) (append_assoc (encode w) (encode_elements es) after);
      place = p;
    })
offsets-Stands tokens (cons w es) before after offset (suc i) v e p q =
    let whole : tokens ≡ before ++ (encode w ++ (encode_elements es ++ after)) =
      e ∙ ap (λ l. before ++ l) (append_assoc (encode w) (encode_elements es) after) in
    let first : Stands tokens offset (encode w) = record {
      before = before;
      after = encode_elements es ++ after;
      whole = whole;
      place = p;
    } in
    offsets-Stands tokens es (before ++ encode w) after (skip tokens offset) i v
      (whole ∙ sym (append_assoc before (encode w) (encode_elements es ++ after)))
      (omega (arith, length-append before (encode w), p, skip-Sized (encode-Sized w) first)) q

-- The tokens of an array, with its index if it was made.
pub record IsArray (es : Elements) (after : List Token) (c : Array) : Type 0 where
  pub tokens : c.tokens ≡ encode (array es) ++ after
  pub made :
      (offsets : List ℕ)
      → c.offsets ≡ some offsets
      → offsets ≡ element_offsets c.tokens (count es) 1

module _ (can_allocate : ℕ → Bool) where
  IsArray-len :
      {es : Elements} {after : List Token} {c : Array}
      → IsArray es after c
      → token_len (at_token c.tokens 0) ≡ count es
  unfolding encode token_len
  IsArray-len p = rw p.tokens refl

  IsArray-type :
      {es : Elements} {after : List Token} {c : Array}
      → IsArray es after c
      → is_array (at_token c.tokens 0) ≡ true
  unfolding encode is_array
  IsArray-type p = rw p.tokens refl

  -- The index that an access has made.
  indexed-IsArray :
      (es : Elements) (after : List Token) (c : Array) (o : Option (List ℕ))
      → ((n : ℕ) → can_allocate n ≡ true)
      → c.offsets ≡ o
      → IsArray es after c
      → (c' : Array) × (indexed_array can_allocate c o ≡ some c')
        × IsArray es after c'
        × (c'.offsets ≡ some (element_offsets c'.tokens (count es) 1))
  unfolding indexed_array
  indexed-IsArray es after c (some offsets) total e p = (c, refl, p, e ∙ ap some (p.made offsets e))
  indexed-IsArray es after c none total e p =
      let made = element_offsets c.tokens (count es) 1 in
      let c' : Array = record c { offsets = some made } in
      let same : (offsets : List ℕ) → some made ≡ some offsets → offsets ≡ made = λ offsets q. cc in
      (
        c',
        rw (IsArray-len p, total ((count es + 1) * 4)) refl,
        record { tokens = p.tokens; made = same },
        refl,
      )

-- What an access to an element gives: the offset of its value, or ERANGE.
pub data Given (es : Elements) (after : List Token) (c : Array)
    : Option Value → Access Array → Type 0 where
  given :
      {v : Value} {offset : ℕ} {c' : Array}
      → IsArray es after c'
      → Stands c'.tokens offset (encode v)
      → Given es after c (some v) (at_offset offset c')
  not_given : Given es after c none (missing c)

module _ (can_allocate : ℕ → Bool) (total : (n : ℕ) → can_allocate n ≡ true) (es : Elements)
    (after : List Token) (c : Array) (p : IsArray es after c) where
  get_element-Given :
      (i : ℕ) (o : Option Value) → nth es i ≡ o → Given es after c o (get_element can_allocate c i)
  unfolding get_element element_at offset_in encode
  get_element-Given i none e =
      let outside : leb (count es) i ≡ true = ground (arith, nth_ge es i e) in
      rw (IsArray-type can_allocate p, IsArray-len can_allocate p, outside) not_given
  get_element-Given i (some v) e =
      let len = IsArray-len can_allocate p in
      let inside : leb (count es) i ≡ false = ground (arith, nth_lt es i v e) in
      let x = indexed-IsArray can_allocate es after c c.offsets total refl p in
      let here =
        offsets-Stands x.0.tokens es
          (Token.array (count es) (suc (length (encode_elements es))) ∷ []) after 1 i v x.2.tokens
          refl e in
      rw (IsArray-type can_allocate p, len, inside, x.1, x.3) (given x.2 here)

  -- An access to an element of an array whose tokens are those of `es` returns the offset at which the tokens
  -- of the element start, and ERANGE where there is no such element, when all memory is there that is asked
  -- for, both at the first access, which makes the index, and later.
  pub get_element-IsArray : (i : ℕ) → Given es after c (nth es i) (get_element can_allocate c i)
  get_element-IsArray i = get_element-Given i (nth es i) refl
