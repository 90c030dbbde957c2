-- ===== src/Jitson/Access/Members.antt =====
-- sxe_jitson_object_get_member of lib-sxe-jitson/sxe-jitson.c on the tokens of an object.
use libsxe.Base.{
  ℕ, zero, suc, ◌+◌, ◌*◌, ◌%◌, ◌<◌, ◌≡◌, refl, ap, sym, ◌∙◌, Bool, true, List, [], ◌∷◌, ◌++◌,
  Option, none, some, ◌==◌, if◌then◌else◌, Bool-cases, inl, inr, arith, length, get_or, set, take,
  take_all, replicate, bytes_eq, length-append, length-set, length-replicate, append_assoc,
}
use libsxe.Jitson.{Token, bytes_of}
use libsxe.Jitson.Value.{
  Value, object, Members, end, member, count_members, string_tokens, encode, encode_members,
}
use libsxe.Jitson.Access.{
  Object, Access, at_offset, missing, token_len, is_object, at_token, skip, indexed_len,
  member_buckets, find_name, indexed_object, bucket_in, found_at, member_at, get_member,
}
use libsxe.Jitson.Access.Sizes.{Stands, encode-Sized, name-Sized, skip-Sized}
use libsxe.Jitson.Access.Buckets.{
  Plain, last_value, Found, found, not_found, name_token, step-Found,
}

module _ (sum : List ℕ → ℕ) where
  bucket_of_name :
      (tokens : List Token) (offset len : ℕ) (key : List ℕ)
      → Stands tokens offset (string_tokens true key)
      → sum (take (indexed_len (at_token tokens offset)) (bytes_of (at_token tokens offset))) % len
        ≡ sum key % len
  unfolding indexed_len bytes_of
  bucket_of_name tokens offset len key s =
      rw (name_token key s, take_all (length key) key (omega arith)) refl

  member_buckets-cons :
      (tokens : List Token) (offset len n : ℕ) (key : List ℕ) (buckets : List (List ℕ))
      → Stands tokens offset (string_tokens true key)
      → member_buckets sum tokens len (suc n) offset buckets
        ≡ member_buckets sum tokens len n
            (skip tokens (skip tokens offset))
            (set buckets (sum key % len) (offset ∷ get_or buckets (sum key % len) []))
  unfolding member_buckets
  member_buckets-cons tokens offset len n key buckets s =
      ap
        (λ b.
          member_buckets sum tokens len n (skip tokens (skip tokens offset))
            (set buckets b (offset ∷ get_or buckets b [])))
        (bucket_of_name tokens offset len key s)

  Found-in :
      {tokens : List Token} {x y : List (List ℕ)} {d : Option Value} (name : List ℕ) (b : ℕ)
      → x ≡ y
      → Found tokens (find_name tokens name (get_or y b [])) d
      → Found tokens (find_name tokens name (get_or x b [])) d
  Found-in name b e f = rw e f

  buckets-Found :
      (tokens : List Token) (len : ℕ)
      → 0 < len
      → (name : List ℕ) (ms : Members) (before after : List Token) (offset : ℕ)
        (buckets : List (List ℕ)) (d : Option Value)
      → Plain ms
      → length buckets ≡ len
      → tokens ≡ before ++ (encode_members ms ++ after)
      → length before ≡ offset
      → Found tokens (find_name tokens name (get_or buckets (sum name % len) [])) d
      → Found tokens
          (find_name tokens name (
            get_or
              (member_buckets sum tokens len (count_members ms) offset buckets)
              (sum name % len)
              []))
          (last_value ms name d)
  unfolding member_buckets count_members last_value encode_members
  buckets-Found tokens len positive name end before after offset buckets d plain l e p f = f
  buckets-Found tokens len positive name (member key v ms) before after offset buckets d (k, plain)
        l e p f =
      let named = string_tokens true key in
      let members = encode_members ms ++ after in
      let whole : tokens ≡ before ++ (named ++ (encode v ++ members)) =
        e
        ∙ ap (λ x. before ++ x)
            (append_assoc named (encode v ++ encode_members ms) after
              ∙ ap (λ x. named ++ x) (append_assoc (encode v) (encode_members ms) after)) in
      let whole' : tokens ≡ (before ++ named) ++ (encode v ++ members) =
        whole ∙ sym (append_assoc before named (encode v ++ members)) in
      let s : Stands tokens offset named = record {
        before = before;
        after = encode v ++ members;
        whole = whole;
        place = p;
      } in
      let t : Stands tokens (skip tokens offset) (encode v) = record {
        before = before ++ named;
        after = members;
        whole = whole';
        place =
            length-append before named
            ∙ ap (λ n. n + length named) p
            ∙ sym (skip-Sized (name-Sized key k) s);
      } in
      let place : length ((before ++ named) ++ encode v) ≡ skip tokens (skip tokens offset) =
        length-append (before ++ named) (encode v)
        ∙ ap (λ n. n + length (encode v)) t.place
        ∙ sym (skip-Sized (encode-Sized v) t) in
      let b = sum key % len in
      let buckets' = set buckets b (offset ∷ get_or buckets b []) in
      Found-in name (sum name % len)
        (member_buckets-cons tokens offset len (count_members ms) key buckets s)
        (buckets-Found tokens len positive name ms ((before ++ named) ++ encode v) after
          (skip tokens (skip tokens offset)) buckets' (if bytes_eq key name then some v else d)
          plain (length-set buckets b (offset ∷ get_or buckets b []) ∙ l)
          (whole' ∙ sym (append_assoc (before ++ named) (encode v) members)) place
          (step-Found sum tokens len positive name key v offset buckets d k l s t f))

  get_or_empty : (n i : ℕ) → get_or (replicate {A = List ℕ} n []) i [] ≡ []
  get_or_empty zero i = refl
  get_or_empty (suc n) zero = refl
  get_or_empty (suc n) (suc i) = get_or_empty n i

no_members : (ms : Members) (name : List ℕ) → count_members ms ≡ 0 → last_value ms name none ≡ none
unfolding count_members last_value
no_members end name e = refl
no_members (member key v ms) name e = absurd (omega (arith, e))

-- The index of an object with `n` members.
abbrev pub index_of : (List ℕ → ℕ) → List Token → ℕ → List (List ℕ)
index_of sum tokens n = member_buckets sum tokens n n 1 (replicate n [])

-- The tokens of an object, with its index if it was made.
pub record IsObject (sum : List ℕ → ℕ) (ms : Members) (after : List Token) (c : Object)
    : Type 0 where
  pub tokens : c.tokens ≡ encode (object ms) ++ after
  pub made :
      (buckets : List (List ℕ))
      → c.buckets ≡ some buckets
      → buckets ≡ index_of sum c.tokens (count_members ms)

-- What an access to a member gives: the offset of its value, or ENOKEY.
pub data Obtained (sum : List ℕ → ℕ) (ms : Members) (after : List Token)
    : Option Value → Access Object → Type 0 where
  obtained :
      {v : Value} {offset : ℕ} {c : Object}
      → IsObject sum ms after c
      → Stands c.tokens offset (encode v)
      → Obtained sum ms after (some v) (at_offset offset c)
  not_obtained : {c : Object} → IsObject sum ms after c → Obtained sum ms after none (missing c)

Found-Obtained :
    {sum : List ℕ → ℕ} {ms : Members} {after : List Token} {c : Object} (o : Option ℕ)
    {d : Option Value}
    → IsObject sum ms after c
    → Found c.tokens o d
    → Obtained sum ms after d (found_at c o)
unfolding found_at
Found-Obtained _ p (found s) = obtained p s
Found-Obtained _ p not_found = not_obtained p

module _ (can_allocate : ℕ → Bool) (total : (n : ℕ) → can_allocate n ≡ true) (sum : List ℕ → ℕ)
    (ms : Members) (after : List Token) (c : Object) (p : IsObject sum ms after c) where
  IsObject-len : token_len (at_token c.tokens 0) ≡ count_members ms
  unfolding encode token_len
  IsObject-len = rw p.tokens refl

  IsObject-type : is_object (at_token c.tokens 0) ≡ true
  unfolding encode is_object
  IsObject-type = rw p.tokens refl

  -- The index that an access has made.
  indexed-IsObject :
      (o : Option (List (List ℕ)))
      → c.buckets ≡ o
      → (c' : Object) × (indexed_object can_allocate sum c o ≡ some c')
        × IsObject sum ms after c'
        × (c'.buckets ≡ some (index_of sum c'.tokens (count_members ms)))
        × (c'.tokens ≡ c.tokens)
  unfolding indexed_object
  indexed-IsObject (some buckets) e = (c, refl, p, e ∙ ap some (p.made buckets e), refl)
  indexed-IsObject none e =
      let made = index_of sum c.tokens (count_members ms) in
      let c' : Object = record c { buckets = some made } in
      let same : (buckets : List (List ℕ)) → some made ≡ some buckets → buckets ≡ made =
        λ buckets q. cc in
      (
        c',
        rw (IsObject-len, total ((count_members ms + 1) * 4)) refl,
        record { tokens = p.tokens; made = same },
        refl,
        refl,
      )

  member_at-Obtained :
      (name : List ℕ)
      → Plain ms
      → 0 < count_members ms
      → Obtained sum ms after
          (last_value ms name none)
          (member_at can_allocate sum name (indexed_object can_allocate sum c c.buckets))
  unfolding member_at bucket_in encode find_name
  member_at-Obtained name plain h =
      let n = count_members ms in
      let x = indexed-IsObject c.buckets refl in
      let empty : Found x.0.tokens
          (find_name x.0.tokens name (get_or (replicate n []) (sum name % n) [])) none =
        rw (get_or_empty sum n (sum name % n)) not_found in
      let f =
        buckets-Found sum x.0.tokens n h name ms
          (Token.object n (suc (length (encode_members ms))) ∷ []) after 1 (replicate n []) none
          plain (length-replicate n []) x.2.tokens refl empty in
      let len : token_len (at_token x.0.tokens 0) ≡ n =
        ap (λ l. token_len (at_token l 0)) x.4 ∙ IsObject-len in
      rw (x.1, x.3, len) (Found-Obtained _ x.2 f)

  -- An access to a member of an object whose tokens are those of `ms` returns the offset at which the tokens of
  -- the last value with the name start, and ENOKEY where there is none, when all memory is there that is asked
  -- for and no name holds a NUL, both at the first access, which makes the index, and later.
  pub get_member-IsObject :
      (name : List ℕ)
      → Plain ms
      → Obtained sum ms after (last_value ms name none) (get_member can_allocate sum c name)
  unfolding get_member
  get_member-IsObject name plain = elim (Bool-cases (count_members ms == 0)) [
    | inl e ↦
        rw (IsObject-type, IsObject-len, e, no_members ms name (ground (arith, e))) (not_obtained p)
    | inr e ↦
        rw (IsObject-type, IsObject-len, e) (member_at-Obtained name plain (ground (arith, e)))
  ]
