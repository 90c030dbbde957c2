-- ===== src/SxeList/Remove.antt =====
-- sxe_list_remove, and sxe_list_pop and sxe_list_shift, which remove the node at an end.
pub mod Unlink
pub mod Ends
use libsxe.Base.{
  ℕ, zero, suc, ◌+◌, ◌-◌, ◌%◌, ◌^◌, ◌<◌, ◌≡◌, refl, sym, ap, ◌∙◌, ◌≢◌, List, [], ◌∷◌, ◌++◌, arith,
  length, length-append, ◌==◌, if◌then◌else◌, append-nil,
}
use libsxe.SxeList.{
  Cell, Memory, SxeList, word, rel, fix, set_next, set_prev, set_id, sentinel_rel, null_rel,
  node_of, unlink, remove,
}
use libsxe.SxeList.Links.{
  NotIn, Distinct, Addresses, last, head, Linked, Ids, Holds, fix-rel, rel_injective, last-ne,
  last-append, last-address, Linked-set_next, Linked-set_next-last, Linked-set_prev, Ids-set_next,
  Ids-set_prev, Linked-append, Linked-split, NotIn-append, NotIn-split, reads,
}

Addresses-drop :
    (ys : List ℕ) (x : ℕ) (zs : List ℕ) → Addresses (ys ++ x ∷ zs) → Addresses (ys ++ zs)
Addresses-drop [] x zs a = a.2
Addresses-drop (y ∷ ys) x zs a = (a.0, a.1, Addresses-drop ys x zs a.2)

Addresses-at : (ys : List ℕ) (x : ℕ) (zs : List ℕ) → Addresses (ys ++ x ∷ zs) → Addresses (x ∷ zs)
Addresses-at [] x zs a = a
Addresses-at (y ∷ ys) x zs a = Addresses-at ys x zs a.2

Addresses-front : (ys zs : List ℕ) → Addresses (ys ++ zs) → Addresses ys
Addresses-front [] zs a = tt
Addresses-front (y ∷ ys) zs a = (a.0, a.1, Addresses-front ys zs a.2)

NotIn-drop :
    (p : ℕ) (ys : List ℕ) (x : ℕ) (zs : List ℕ) → NotIn p (ys ++ x ∷ zs) → NotIn p (ys ++ zs)
NotIn-drop p [] x zs h = h.1
NotIn-drop p (y ∷ ys) x zs h = (h.0, NotIn-drop p ys x zs h.1)

Distinct-drop : (ys : List ℕ) (x : ℕ) (zs : List ℕ) → Distinct (ys ++ x ∷ zs) → Distinct (ys ++ zs)
Distinct-drop [] x zs d = d.1
Distinct-drop (y ∷ ys) x zs d = (NotIn-drop y ys x zs d.0, Distinct-drop ys x zs d.1)

Distinct-at : (ys : List ℕ) (x : ℕ) (zs : List ℕ) → Distinct (ys ++ x ∷ zs) → Distinct (x ∷ zs)
Distinct-at [] x zs d = d
Distinct-at (y ∷ ys) x zs d = Distinct-at ys x zs d.1

Distinct-front : (ys zs : List ℕ) → Distinct (ys ++ zs) → Distinct ys
Distinct-front [] zs d = tt
Distinct-front (y ∷ ys) zs d = ((NotIn-split y ys zs d.0).0, Distinct-front ys zs d.1)

Distinct-mid : (ys : List ℕ) (x : ℕ) (zs : List ℕ) → Distinct (ys ++ x ∷ zs) → NotIn x ys
Distinct-mid [] x zs d = tt
Distinct-mid (y ∷ ys) x zs d =
    ((λ e. (NotIn-split y ys (x ∷ zs) d.0).1.0 (sym e)), Distinct-mid ys x zs d.1)

Distinct-last : (a : ℕ) (ys zs : List ℕ) → Distinct (a ∷ ys ++ zs) → NotIn (last a ys) zs
Distinct-last a [] zs d = d.0
Distinct-last a (y ∷ ys) zs d = Distinct-last y ys zs d.1

Ids-drop :
    (i : ℕ) (m : Memory) (ys : List ℕ) (x : ℕ) (zs : List ℕ)
    → Ids i m (ys ++ x ∷ zs)
    → Ids i m (ys ++ zs)
Ids-drop i m [] x zs h = h.1
Ids-drop i m (y ∷ ys) x zs h = (h.0, Ids-drop i m ys x zs h.1)

Ids-at :
    (i : ℕ) (m : Memory) (ys : List ℕ) (x : ℕ) (zs : List ℕ) → Ids i m (ys ++ x ∷ zs) → (m x).id ≡ i
Ids-at i m [] x zs h = h.0
Ids-at i m (y ∷ ys) x zs h = Ids-at i m ys x zs h.1

-- What stands behind the head of a list's second part.
abbrev TailLinked : ℕ → Memory → List ℕ → Type 0
TailLinked base m [] = Unit {0}
TailLinked base m (z ∷ zs) = Linked base m z zs

Linked-join :
    (base : ℕ) (m : Memory) (ys zs : List ℕ)
    → Linked base m base ys
    → (m (last base ys)).next ≡ rel base (head zs base)
    → (m (head zs base)).prev ≡ rel base (last base ys)
    → TailLinked base m zs
    → Linked base m base (ys ++ zs)
Linked-join base m ys [] k n p q = rw (append-nil ys) k
Linked-join base m ys (z ∷ zs) k n p q = Linked-append base m base z ys zs k n p q

length-drop_one :
    (ys : List ℕ) (x : ℕ) (zs : List ℕ) → length (ys ++ x ∷ zs) ≡ suc (length (ys ++ zs))
length-drop_one [] x zs = refl
length-drop_one (y ∷ ys) x zs = ap suc (length-drop_one ys x zs)

-- The memory after sxe_list_remove has taken out `x`, between `t` and `q`.
unfoldable pub unlinked : Memory → ℕ → ℕ → ℕ → ℕ → ℕ → Memory
unlinked m base t x q null =
    set_next (set_prev (set_next (set_prev m q (rel base t)) t (rel base q)) x null) x null

module _ (m : Memory) (l : SxeList) (ys : List ℕ) (x : ℕ) (zs : List ℕ)
    (h : Holds m l (ys ++ x ∷ zs)) where
  before :
      Linked l.base m l.base ys
      × ((m (last l.base ys)).next ≡ rel l.base x)
      × ((m x).prev ≡ rel l.base (last l.base ys))
      × Linked l.base m x zs
  before = Linked-split l.base m l.base x ys zs h.linked

  x-address : (0 < x) × (x < word)
  x-address = let a = Addresses-at ys x zs h.addresses.2 in (a.0, a.1)

  t-address : (0 < last l.base ys) × (last l.base ys < word)
  t-address =
      last-address l.base ys
        (h.addresses.0, h.addresses.1, Addresses-front ys (x ∷ zs) h.addresses.2)

  t_out : NotIn (last l.base ys) (x ∷ zs)
  t_out = Distinct-last l.base ys (x ∷ zs) h.distinct

  x_out : NotIn x ys × NotIn x zs
  x_out = (Distinct-mid ys x zs h.distinct.1, (Distinct-at ys x zs h.distinct.1).0)

  base_out : NotIn l.base ys × NotIn l.base (x ∷ zs)
  base_out = NotIn-split l.base ys (x ∷ zs) h.distinct.0

  -- The node behind `x`, or the sentinel.
  record Behind (q : ℕ) : Type 0 where
    address : (0 < q) × (q < word)
    from_x : (m x).next ≡ rel l.base q
    ne_x : q ≢ x
    out : NotIn q ys

behind :
    (m : Memory) (l : SxeList) (ys : List ℕ) (x : ℕ) (zs : List ℕ) (h : Holds m l (ys ++ x ∷ zs))
    → Behind m l ys x zs h (head zs l.base)
behind m l ys x [] h = record {
  address = (h.addresses.0, h.addresses.1);
  from_x = rw (← last-append l.base x ys []) h.last_next;
  ne_x = λ e. (base_out m l ys x [] h).1.0 (sym e);
  out = (base_out m l ys x [] h).0;
}
behind m l ys x (z ∷ zs) h = record {
  address = let a = Addresses-at ys x (z ∷ zs) h.addresses.2 in (a.2.0, a.2.1);
  from_x = (before m l ys x (z ∷ zs) h).3.0;
  ne_x = (x_out m l ys x (z ∷ zs) h).1.0;
  out = Distinct-mid ys z zs (Distinct-drop ys x (z ∷ zs) h.distinct.1);
}
