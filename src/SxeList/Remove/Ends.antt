-- ===== src/SxeList/Remove/Ends.antt =====
-- sxe_list_remove past its assertions, and the nodes that sxe_list_pop and sxe_list_shift remove.
use libsxe.Base.{
  ℕ, ◌+◌, ◌-◌, ◌%◌, ◌^◌, ◌<◌, ◌≡◌, refl, ◌≢◌, List, [], ◌∷◌, ◌++◌, arith, length, ◌==◌, append-nil,
  length-append, Option, some, true, false,
}
use mathlib.Core.Path.{subst}
use libsxe.SxeList.{
  Memory, SxeList, word, rel, sentinel_rel, null_rel, node_of, object_of, unlink, remove, pop,
  shift, ◌!=◌,
}
use libsxe.SxeList.Links.{
  Addresses, last, head, Holds, fix-rel, rel_injective, last-ne, last-append, last-address, NotIn,
}
use libsxe.SxeList.Remove.{Addresses-at, Ids-at, base_out, t-address, before, behind}
use libsxe.SxeList.Remove.Unlink.{unlink-Holds}

rel_differs :
    (base p q : ℕ) → base < word → p < word → q < word → p ≢ q → (rel base p != rel base q) ≡ true
rel_differs base p q hb hp hq ne = ground (arith, rel_injective base p q hb hp hq)

eq_test : (a b : ℕ) → a ≡ b → (a == b) ≡ true
eq_test a b e = ground arith

pub first_next :
    (m : Memory) (l : SxeList) (xs : List ℕ)
    → Holds m l xs
    → (m l.base).next ≡ rel l.base (head xs l.base)
first_next m l [] h = h.last_next
first_next m l (x ∷ xs) h = h.linked.0

pub head-address : (xs : List ℕ) (b : ℕ) → Addresses (b ∷ xs) → head xs b < word
head-address [] b a = a.1
head-address (x ∷ xs) b a = a.2.1

head-ne : (xs : List ℕ) (b x : ℕ) → NotIn b xs → 0 < length xs → head xs b ≢ b
head-ne [] b x n h = absurd (omega arith)
head-ne (y ∷ xs) b x n h = n.0

node-object : (l : SxeList) (x : ℕ) → l.offset < word → x < word → node_of l (object_of l x) ≡ x
node-object l x h k = omega arith

module _ (m : Memory) (l : SxeList) (ys : List ℕ) (x : ℕ) (zs : List ℕ)
    (h : Holds m l (ys ++ x ∷ zs)) where
  some_nodes : 0 < length (ys ++ x ∷ zs)
  some_nodes = omega (arith, length-append ys (x ∷ zs))

  head_test : ((m l.base).next != sentinel_rel l) ≡ true
  head_test = rw (first_next m l (ys ++ x ∷ zs) h) (
      rel_differs l.base (head (ys ++ x ∷ zs) l.base) l.base h.addresses.1
        (head-address (ys ++ x ∷ zs) l.base h.addresses) h.addresses.1
        (head-ne (ys ++ x ∷ zs) l.base x h.distinct.0 some_nodes))

  tail_test : ((m l.base).prev != sentinel_rel l) ≡ true
  tail_test =
      rw (h.first_prev, last-append l.base x ys zs)
        (rel_differs l.base (last x zs) l.base h.addresses.1
          (last-address x zs (Addresses-at ys x zs h.addresses.2)).1 h.addresses.1
          (let b = (base_out m l ys x zs h).1 in last-ne l.base x zs b.0 b.1))

  id_test : ((m x).id == (m l.base).id) ≡ true
  id_test = eq_test _ _ (Ids-at (m l.base).id m ys x zs h.ids)

  next_test : ((m x).next != null_rel l) ≡ true
  next_test =
      let b = behind m l ys x zs h in
      rw (b.from_x) (
        rel_differs l.base (head zs l.base) 0 h.addresses.1 b.address.1 (omega arith)
          (omega (arith, b.address.0)))

  prev_test : ((m x).prev != null_rel l) ≡ true
  prev_test =
      rw ((before m l ys x zs h).2)
        (rel_differs l.base (last l.base ys) 0 h.addresses.1 t.1 (omega arith) (omega (arith, t.0)))
    where
      t : (0 < last l.base ys) × (last l.base ys < word)
      t = t-address m l ys x zs h

  -- sxe_list_remove of an object whose node is on the list passes its assertions.
  pub remove_lem :
      (object : ℕ)
      → node_of l object ≡ x
      → remove m l object
        ≡ some (unlink m l x, record l { length = (l.length + word - 1) % 2 ^ 32 }, object)
  unfolding remove
  remove_lem object e = rw (e, head_test, tail_test, id_test, next_test, prev_test) refl

-- What is left in memory and in the list when `x` is removed from between `ys` and `zs`.
abbrev pub Removes : Memory → SxeList → List ℕ → ℕ → Option (Memory × SxeList × ℕ) → Type 0
Removes m l rest object r =
    (m' : Memory) × (l' : SxeList) × (r ≡ some (m', l', object)) × Holds m' l' rest

-- Removing an object whose node is on the list passes every assertion, returns the object and leaves
-- the other nodes on the list, in their order.
pub remove-Holds :
    (m : Memory) (l : SxeList) (ys : List ℕ) (x : ℕ) (zs : List ℕ) (object : ℕ)
    → Holds m l (ys ++ x ∷ zs)
    → node_of l object ≡ x
    → Removes m l (ys ++ zs) object (remove m l object)
remove-Holds m l ys x zs object h e = (
  unlink m l x,
  record l { length = (l.length + word - 1) % 2 ^ 32 },
  remove_lem m l ys x zs h object e,
  unlink-Holds m l ys x zs h,
)

ne_test : (a b : ℕ) → a ≢ b → (a == b) ≡ false
ne_test a b ne = ground arith

module _ (m : Memory) (l : SxeList) (xs : List ℕ) (x : ℕ) where
  pop_removes : Holds m l (xs ++ x ∷ []) → pop m l ≡ remove m l (object_of l x)
  unfolding pop
  pop_removes h =
      let a = Addresses-at xs x [] h.addresses.2 in
      rw
        (
          h.first_prev,
          last-append l.base x xs [],
          fix-rel l.base x h.addresses.1 a.1,
          ne_test x l.base (base_out m l xs x [] h).1.0,
        )
        refl

  shift_removes : Holds m l (x ∷ xs) → shift m l ≡ remove m l (object_of l x)
  unfolding shift
  shift_removes h =
      rw
        (
          h.linked.0,
          fix-rel l.base x h.addresses.1 h.addresses.2.1,
          ne_test x l.base h.distinct.0.0,
        )
        refl

  -- sxe_list_pop on a list with nodes passes its assertions, returns the object of the last node and
  -- leaves the others on the list, in their order.
  pub pop-Holds : Holds m l (xs ++ x ∷ []) → Removes m l xs (object_of l x) (pop m l)
  pop-Holds h =
      let a = Addresses-at xs x [] h.addresses.2 in
      rw (pop_removes h) (
        subst (λ r. Removes m l r (object_of l x) (remove m l (object_of l x))) (append-nil xs)
          (remove-Holds m l xs x [] (object_of l x) h (node-object l x h.offset_fits a.1)))

  -- sxe_list_shift on a list with nodes passes its assertions, returns the object of the first node
  -- and leaves the others on the list, in their order.
  pub shift-Holds : Holds m l (x ∷ xs) → Removes m l xs (object_of l x) (shift m l)
  shift-Holds h =
      rw (shift_removes h)
        (remove-Holds m l [] x xs (object_of l x) h (node-object l x h.offset_fits h.addresses.2.1))

-- On an empty list both return NULL and change nothing.
pub pop-shift_empty :
    (m : Memory) (l : SxeList)
    → Holds m l []
    → (pop m l ≡ some (m, l, 0)) × (shift m l ≡ some (m, l, 0))
unfolding pop shift
pop-shift_empty m l h = (
  rw
      (
        h.first_prev,
        h.last_next,
        fix-rel l.base l.base h.addresses.1 h.addresses.1,
        eq_test l.base l.base refl,
        eq_test (sentinel_rel l) (sentinel_rel l) refl,
      )
      refl,
  rw
      (
        h.last_next,
        h.first_prev,
        fix-rel l.base l.base h.addresses.1 h.addresses.1,
        eq_test l.base l.base refl,
        eq_test (sentinel_rel l) (sentinel_rel l) refl,
      )
      refl,
)
