-- ===== src/Util/Strl.antt =====
-- lib-sxe-log/sxe-strlcpy.c: bounded copy and concatenation of C strings. The result holds the new
-- bytes of the destination and the returned length; `size` is the room there.
mod Tests
use libsxe.Base.{
  ℕ, zero, suc, ◌+◌, ◌-◌, ◌≤◌, ◌<◌, ◌≡◌, refl, ap, Bool, true, false, List, [], ◌∷◌, ◌++◌, min,
  ◌==◌, ltb, if◌then◌else◌, Bool-cases, inl, inr, arith, length, length-append, take, drop,
  take-append, drop-append, set, strlen, NulFree, strlen-append, take_all, sym, ◌∙◌, ltb→lt,
}

-- The copying loop with `n` rounds left: the bytes that it writes, and whether it wrote the NUL.
unfoldable pub copy_loop : ℕ → List ℕ → List ℕ × Bool
copy_loop zero source = ([], false)
copy_loop (suc n) [] = (0 ∷ [], true)
copy_loop (suc n) (c ∷ s) =
    let (bytes, done) = copy_loop n s in if c == 0 then (0 ∷ [], true) else (c ∷ bytes, done)

-- Bytes written over the front of memory.
abbrev pub overwrite : List ℕ → List ℕ → List ℕ
overwrite [] memory = memory
overwrite (b ∷ bs) [] = b ∷ bs
overwrite (b ∷ bs) (c ∷ memory) = b ∷ overwrite bs memory

-- sxe_strlcpy. With `size` 0 the code writes in front of the destination; the model leaves it.
unfoldable pub strlcpy : List ℕ → List ℕ → ℕ → List ℕ × ℕ
strlcpy destination source size =
    let (bytes, done) = copy_loop size source in
    if done
    then (overwrite bytes destination, length bytes - 1)
    else (set (overwrite bytes destination) (size - 1) 0, strlen source)

-- sxe_strlcat: the length of the text that is there, at most `size`, and the copy behind it.
unfoldable pub strlcat : List ℕ → List ℕ → ℕ → List ℕ × ℕ
strlcat destination source size =
    let old = strlen (take size destination) in
    let (bytes, done) = copy_loop (size - old) source in
    let written = take old destination ++ overwrite bytes (drop old destination) in
    if done
    then (written, old + (length bytes - 1))
    else (set written (size - 1) 0, old + strlen source)

-- The loop stops behind the NUL or behind the room.
copy_loop_cases :
    (n : ℕ) (s rest : List ℕ)
    → NulFree s
    → copy_loop n (s ++ 0 ∷ rest)
      ≡ (if ltb (length s) n then (s ++ 0 ∷ [], true) else (take n s, false))
unfolding copy_loop
copy_loop_cases zero [] rest h = ground arith
copy_loop_cases zero (c ∷ s) rest h = ground arith
copy_loop_cases (suc n) [] rest h = ground arith
copy_loop_cases (suc n) (c ∷ s) rest h = ground (arith, copy_loop_cases n s rest h.1)

overwrite-nil : (bs : List ℕ) → overwrite bs [] ≡ bs
overwrite-nil [] = refl
overwrite-nil (b ∷ bs) = refl

-- The NUL over the last byte.
set-overwrite :
    (k : ℕ) (s memory : List ℕ)
    → k < length s
    → set (overwrite (take (suc k) s) memory) k 0 ≡ overwrite (take k s ++ 0 ∷ []) memory
set-overwrite k [] memory h = absurd (omega arith)
set-overwrite zero (c ∷ s) [] h = refl
set-overwrite zero (c ∷ s) (b ∷ memory) h = refl
set-overwrite (suc k) (c ∷ []) memory h = absurd (omega arith)
set-overwrite (suc k) (c ∷ d ∷ s) [] h =
    ap (◌∷◌ c) (set-overwrite k (d ∷ s) [] (omega arith) ∙ overwrite-nil (take k (d ∷ s) ++ 0 ∷ []))
set-overwrite (suc k) (c ∷ d ∷ s) (b ∷ memory) h =
    ap (◌∷◌ c) (set-overwrite k (d ∷ s) memory (omega arith))

-- The text that fits, and its NUL.
abbrev pub fitting : List ℕ → ℕ → List ℕ
fitting s size = take (size - 1) s ++ 0 ∷ []

loop_written :
    (s rest memory : List ℕ) (size : ℕ)
    → NulFree s
    → 0 < size
    → let r = copy_loop size (s ++ 0 ∷ rest) in
      (if r.1 then overwrite r.0 memory else set (overwrite r.0 memory) (size - 1) 0)
      ≡ overwrite (fitting s size) memory
loop_written s rest memory zero h p = absurd (omega arith)
loop_written s rest memory (suc k) h p =
    rw (copy_loop_cases (suc k) s rest h) (elim (Bool-cases (ltb (length s) (suc k))) [
      | inl e ↦ rw e (ap (λ t. overwrite (t ++ 0 ∷ []) memory) (sym (whole (ltb→lt _ _ e))))
      | inr e ↦ rw e (cut (ground arith))
    ])
  where
    one_less : suc k - 1 ≡ k
    one_less = omega arith

    whole : length s < suc k → take (suc k - 1) s ≡ s
    whole l = take_all (suc k - 1) s (omega arith)

    cut :
        k < length s
        → set (overwrite (take (suc k) s) memory) (suc k - 1) 0
          ≡ overwrite (fitting s (suc k)) memory
    cut l = rw one_less (set-overwrite k s memory l)

loop_length :
    (s rest : List ℕ) (size : ℕ)
    → NulFree s
    → let r = copy_loop size (s ++ 0 ∷ rest) in
      (if r.1 then length r.0 - 1 else strlen (s ++ 0 ∷ rest)) ≡ length s
loop_length s rest size h =
    rw (copy_loop_cases size s rest h, strlen-append s rest h)
      (ground (arith, length-append s (0 ∷ [])))

-- With room for at least one byte, sxe_strlcpy writes as much of the source as fits in front of a NUL,
-- and the NUL, leaves the memory behind it, and returns the length of the source.
pub strlcpy_lem :
    (destination s rest : List ℕ) (size : ℕ)
    → NulFree s
    → 0 < size
    → strlcpy destination (s ++ 0 ∷ rest) size ≡ (overwrite (fitting s size) destination, length s)
unfolding strlcpy
strlcpy_lem destination s rest size h p =
    ground (arith, loop_written s rest destination size h p, loop_length s rest size h)

set-append : (a b : List ℕ) (i : ℕ) → length a ≤ i → set (a ++ b) i 0 ≡ a ++ set b (i - length a) 0
set-append [] b i h = ap (λ j. set b j 0) (omega arith)
set-append (x ∷ a) b zero h = absurd (omega arith)
set-append (x ∷ a) b (suc i) h =
    ap (◌∷◌ x) (set-append a b i (omega arith) ∙ ap (λ j. a ++ set b j 0) (omega arith))

strlen-take :
    (n : ℕ) (a b : List ℕ) → NulFree a → length a < n → strlen (take n (a ++ 0 ∷ b)) ≡ length a
unfolding strlen
strlen-take zero a b h l = absurd (omega arith)
strlen-take (suc n) [] b h l = refl
strlen-take (suc n) (c ∷ a) b h l = ground (arith, strlen-take n a b h.1)

-- Where a text stands in the destination with its NUL inside the room, sxe_strlcat writes as much of
-- the source as fits behind it, and a NUL, and returns the length of the two texts together.
pub strlcat_lem :
    (old behind s rest : List ℕ) (size : ℕ)
    → NulFree old
    → NulFree s
    → length old < size
    → strlcat (old ++ 0 ∷ behind) (s ++ 0 ∷ rest) size
      ≡ (old ++ overwrite (fitting s (size - length old)) (0 ∷ behind), length old + length s)
unfolding strlcat
strlcat_lem old behind s rest size h k l =
    rw (strlen-take size old behind h l, take-append old (0 ∷ behind), drop-append old (0 ∷ behind))
      (ground (
        arith,
        loop_written s rest (0 ∷ behind) (size - length old) k (omega arith),
        loop_length s rest (size - length old) k,
        set-append old (overwrite (copy_loop (size - length old) (s ++ 0 ∷ rest)).0 (0 ∷ behind))
            (size - 1),
        sub_swap,
      ))
  where
    sub_swap : size - 1 - length old ≡ size - length old - 1
    sub_swap = omega arith
