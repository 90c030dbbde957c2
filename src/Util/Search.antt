-- ===== src/Util/Search.antt =====
-- lib-sxe-util/sxe-str.c: searches in a text of limited length. The text is what can be read from
-- `buf` on; a search returns the index that it found.
pub mod Caseless
mod Tests
use libsxe.Base.{
  ℕ, zero, suc, ◌+◌, ◌-◌, ◌≤◌, ◌<◌, ◌≡◌, ◌≢◌, refl, ap, ◌∙◌, Bool, true, false, List, [], ◌∷◌, ◌++◌,
  Option, none, some, ◌==◌, ==_iff, ltb, ltb→lt, leb, if◌then◌else◌, Bool-cases, inl, inr, arith,
  length, take, drop, get_or, strlen, bytes_eq, not,
}

abbrev pub map_suc : Option ℕ → Option ℕ
map_suc none = none
map_suc (some i) = some (suc i)

-- sxe_strnchr with at most `n` rounds, where `n` is not 0: the pointer `end` is in front of `buf` then.
unfoldable pub strnchr : List ℕ → ℕ → ℕ → Option ℕ
strnchr buf c zero = none
strnchr [] c (suc n) = none
strnchr (b ∷ buf) c (suc n) =
    let rest = map_suc (strnchr buf c n) in if b == 0 then none else if b == c then some 0 else rest

-- sxe_rstrnchr, from the byte `n - 1` down; it does not stop at a NUL.
unfoldable pub rstrnchr : List ℕ → ℕ → ℕ → Option ℕ
rstrnchr buf c zero = none
rstrnchr buf c (suc n) = let rest = rstrnchr buf c n in if get_or buf n 0 == c then some n else rest

-- The inner loop of sxe_strncspn.
unfoldable pub rejected : List ℕ → ℕ → Bool
rejected [] c = false
rejected (r ∷ reject) c =
    let rest = rejected reject c in if r == 0 then false else if c == r then true else rest

unfoldable pub strncspn : List ℕ → List ℕ → ℕ → Option ℕ
strncspn buf reject zero = none
strncspn [] reject (suc n) = none
strncspn (b ∷ buf) reject (suc n) =
    let rest = map_suc (strncspn buf reject n) in
    if b == 0 then none else if rejected reject b then some 0 else rest

-- The loop of sxe_strnstr with `n` places left to try: memcmp reads `length str'` bytes there.
unfoldable pub strnstr_loop : List ℕ → List ℕ → ℕ → Option ℕ
strnstr_loop buf str' zero = none
strnstr_loop [] str' (suc n) = none
strnstr_loop (b ∷ buf) str' (suc n) =
    let rest = map_suc (strnstr_loop buf str' n) in
    if b == 0 then none else if bytes_eq (take (length str') (b ∷ buf)) str' then some 0 else rest

-- sxe_strnstr; `str'` is the text in front of the NUL of `str`.
unfoldable pub strnstr : List ℕ → List ℕ → ℕ → Option ℕ
strnstr buf str' n =
    if ltb n (length str') then none else strnstr_loop buf str' (n - length str' + 1)

-- The loop of sxe_rstrnstr with `n` places left, from the last one down.
unfoldable pub rstrnstr_loop : List ℕ → List ℕ → ℕ → Option ℕ
rstrnstr_loop haystack needle zero = none
rstrnstr_loop haystack needle (suc n) =
    let rest = rstrnstr_loop haystack needle n in
    if bytes_eq (take (length needle) (drop n haystack)) needle then some n else rest

unfoldable pub rstrnstr : List ℕ → List ℕ → ℕ → Option ℕ
rstrnstr haystack needle haystack_len =
    if ltb haystack_len (length needle)
    then none
    else rstrnstr_loop haystack needle (haystack_len - length needle + 1)

-- How many of the first `n` bytes stand in front of the NUL.
unfoldable pub reach : ℕ → List ℕ → ℕ
reach zero buf = 0
reach (suc n) [] = 0
reach (suc n) (b ∷ buf) = if b == 0 then 0 else suc (reach n buf)

-- The result is the first index under `n` that passes the test, if there is one.
abbrev pub Found : (ℕ → Bool) → ℕ → Option ℕ → Type 0
Found test n none = (j : ℕ) → j < n → test j ≡ false
Found test n (some i) = (i < n) × (test i ≡ true) × ((j : ℕ) → j < i → test j ≡ false)

-- The result is the last one.
abbrev pub FoundLast : (ℕ → Bool) → ℕ → Option ℕ → Type 0
FoundLast test n none = (j : ℕ) → j < n → test j ≡ false
FoundLast test n (some i) = (i < n) × (test i ≡ true) × ((j : ℕ) → i < j → j < n → test j ≡ false)

Found-map_suc :
    (test : ℕ → Bool) (n : ℕ) (r : Option ℕ)
    → test 0 ≡ false
    → Found (λ j. test (suc j)) n r
    → Found test (suc n) (map_suc r)
Found-map_suc test n none e h = at
  where
    at : (j : ℕ) → j < suc n → test j ≡ false
    at zero l = e
    at (suc j) l = h j (omega arith)
Found-map_suc test n (some i) e h = (omega (arith, h.0), h.1, before)
  where
    before : (j : ℕ) → j < suc i → test j ≡ false
    before zero l = e
    before (suc j) l = h.2 j (omega arith)

Found-zero : (test : ℕ → Bool) → Found test 0 none
Found-zero test j l = absurd (omega arith)

Found-first : (test : ℕ → Bool) (n : ℕ) → test 0 ≡ true → Found test (suc n) (some 0)
Found-first test n e = (omega arith, e, (λ j l. absurd (omega arith)))

FoundLast-suc :
    (test : ℕ → Bool) (n : ℕ) (r : Option ℕ)
    → test n ≡ false
    → FoundLast test n r
    → FoundLast test (suc n) r
FoundLast-suc test n none e h = λ j l. elim (Bool-cases (j == n)) [
  | inl k ↦ ap test ((==_iff j n).0 k) ∙ e
  | inr k ↦ h j (ground arith)
]
FoundLast-suc test n (some i) e h = (omega (arith, h.0), h.1, after)
  where
    after : (j : ℕ) → i < j → j < suc n → test j ≡ false
    after j p l = elim (Bool-cases (j == n)) [
      | inl k ↦ ap test ((==_iff j n).0 k) ∙ e
      | inr k ↦ h.2 j p (ground arith)
    ]

FoundLast-zero : (test : ℕ → Bool) → FoundLast test 0 none
FoundLast-zero test j l = absurd (omega arith)

FoundLast-last : (test : ℕ → Bool) (n : ℕ) → test n ≡ true → FoundLast test (suc n) (some n)
FoundLast-last test n e = (omega arith, e, (λ j p l. absurd (omega arith)))

-- sxe_strnchr finds the first place of a character among the first `n` in front of the NUL.
pub strnchr-Found :
    (buf : List ℕ) (c n : ℕ) → Found (λ i. get_or buf i 0 == c) (reach n buf) (strnchr buf c n)
unfolding strnchr reach
strnchr-Found buf c zero = Found-zero _
strnchr-Found [] c (suc n) = Found-zero _
strnchr-Found (b ∷ buf) c (suc n) = elim (Bool-cases (b == 0)) [
  | inl e ↦ rw (e) (Found-zero _)
  | inr e ↦ elim (Bool-cases (b == c)) [
    | inl k ↦ rw (e, k) (Found-first _ (reach n buf) k)
    | inr k ↦ rw (e, k) (Found-map_suc _ (reach n buf) _ k (strnchr-Found buf c n))
  ]
]

-- sxe_rstrnchr finds the last place of a character among the first `n`, NULs included.
pub rstrnchr-FoundLast :
    (buf : List ℕ) (c n : ℕ) → FoundLast (λ i. get_or buf i 0 == c) n (rstrnchr buf c n)
unfolding rstrnchr
rstrnchr-FoundLast buf c zero = FoundLast-zero _
rstrnchr-FoundLast buf c (suc n) = elim (Bool-cases (get_or buf n 0 == c)) [
  | inl e ↦ rw e (FoundLast-last _ n e)
  | inr e ↦ rw e (FoundLast-suc _ n _ e (rstrnchr-FoundLast buf c n))
]

-- sxe_strncspn finds the first character, among the first `n` in front of the NUL, that is one of those
-- that it rejects.
pub strncspn-Found :
    (buf reject : List ℕ) (n : ℕ)
    → Found (λ i. rejected reject (get_or buf i 0)) (reach n buf) (strncspn buf reject n)
unfolding strncspn reach
strncspn-Found buf reject zero = Found-zero _
strncspn-Found [] reject (suc n) = Found-zero _
strncspn-Found (b ∷ buf) reject (suc n) = elim (Bool-cases (b == 0)) [
  | inl e ↦ rw e (Found-zero _)
  | inr e ↦ elim (Bool-cases (rejected reject b)) [
    | inl k ↦ rw (e, k) (Found-first _ (reach n buf) k)
    | inr k ↦ rw (e, k) (Found-map_suc _ (reach n buf) _ k (strncspn-Found buf reject n))
  ]
]

-- Whether a text stands at a place, as memcmp tells.
abbrev pub stands_at : List ℕ → List ℕ → ℕ → Bool
stands_at buf str' i = bytes_eq (take (length str') (drop i buf)) str'

strnstr_loop-Found :
    (buf str' : List ℕ) (n : ℕ) → Found (stands_at buf str') (reach n buf) (strnstr_loop buf str' n)
unfolding strnstr_loop reach
strnstr_loop-Found buf str' zero = Found-zero _
strnstr_loop-Found [] str' (suc n) = Found-zero _
strnstr_loop-Found (b ∷ buf) str' (suc n) = elim (Bool-cases (b == 0)) [
  | inl e ↦ rw e (Found-zero _)
  | inr e ↦ elim (Bool-cases (stands_at (b ∷ buf) str' 0)) [
    | inl k ↦ rw (e, k) (Found-first _ (reach n buf) k)
    | inr k ↦ rw (e, k) (Found-map_suc _ (reach n buf) _ k (strnstr_loop-Found buf str' n))
  ]
]

-- sxe_strnstr finds the first place, in front of the NUL of `buf`, where a text stands inside the first
-- `n` bytes; it finds none where the text is longer than that.
pub strnstr-Found :
    (buf str' : List ℕ) (n : ℕ)
    → Found (stands_at buf str') (reach (n + 1 - length str') buf) (strnstr buf str' n)
unfolding strnstr reach
strnstr-Found buf str' n = elim (Bool-cases (ltb n (length str'))) [
  | inl e ↦ rw (e, none_left (ground arith)) (Found-zero _)
  | inr e ↦ rw (e, one_more (ground arith)) (strnstr_loop-Found buf str' (n - length str' + 1))
]
  where
    none_left : n < length str' → n + 1 - length str' ≡ 0
    none_left l = omega arith

    one_more : length str' ≤ n → n + 1 - length str' ≡ n - length str' + 1
    one_more l = omega arith

rstrnstr_loop-FoundLast :
    (haystack needle : List ℕ) (n : ℕ)
    → FoundLast (stands_at haystack needle) n (rstrnstr_loop haystack needle n)
unfolding rstrnstr_loop
rstrnstr_loop-FoundLast haystack needle zero = FoundLast-zero _
rstrnstr_loop-FoundLast haystack needle (suc n) = elim (Bool-cases (stands_at haystack needle n)) [
  | inl e ↦ rw e (FoundLast-last _ n e)
  | inr e ↦ rw e (FoundLast-suc _ n _ e (rstrnstr_loop-FoundLast haystack needle n))
]

-- sxe_rstrnstr finds the last place where a text stands inside the first bytes, NULs included.
pub rstrnstr-FoundLast :
    (haystack needle : List ℕ) (haystack_len : ℕ)
    → FoundLast
        (stands_at haystack needle)
        (haystack_len + 1 - length needle)
        (rstrnstr haystack needle haystack_len)
unfolding rstrnstr
rstrnstr-FoundLast haystack needle haystack_len =
    elim (Bool-cases (ltb haystack_len (length needle))) [
      | inl e ↦ rw (e, none_left (ground arith)) (FoundLast-zero _)
      | inr e ↦
          rw (e, one_more (ground arith))
            (rstrnstr_loop-FoundLast haystack needle (haystack_len - length needle + 1))
    ]
  where
    none_left : haystack_len < length needle → haystack_len + 1 - length needle ≡ 0
    none_left l = omega arith

    one_more :
        length needle ≤ haystack_len
        → haystack_len + 1 - length needle ≡ haystack_len - length needle + 1
    one_more l = omega arith
