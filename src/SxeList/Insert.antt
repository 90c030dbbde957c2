-- ===== src/SxeList/Insert.antt =====
-- sxe_list_construct_impl, sxe_list_push and sxe_list_unshift on the nodes that a list holds.
pub mod Front
use libsxe.Base.{
  ℕ, zero, suc, ◌+◌, ◌-◌, ◌%◌, ◌^◌, ◌<◌, ◌≡◌, refl, sym, ap, ◌∙◌, ◌≢◌, List, [], ◌∷◌, ◌++◌, arith,
  length, length-append, ◌==◌, if◌then◌else◌,
}
use libsxe.SxeList.{
  Cell, Memory, SxeList, word, rel, fix, set_next, set_prev, set_id, sentinel_rel, node_of,
  construct, push, unshift,
}
use libsxe.SxeList.Links.{
  NotIn, Distinct, Addresses, last, head, Linked, Ids, Holds, fix-rel, last-ne, last-append,
  last-address, Linked-set_next, Linked-set_next-last, Linked-set_prev, Linked-set_id, Ids-set_next,
  Ids-set_prev, Ids-set_id, Linked-append, reads,
}

-- A list that is constructed at an address that is no NULL holds nothing.
pub construct-Holds :
    (m : Memory) (base id offset : ℕ)
    → 0 < base
    → base < word
    → offset < word
    → Holds (construct m base id offset).0 (construct m base id offset).1 []
unfolding construct
construct-Holds m base id offset h k o = record {
  counted = refl;
  fits = omega arith;
  offset_fits = o;
  addresses = (h, k, tt);
  distinct = (tt, tt);
  linked = tt;
  last_next = simp reads (ground arith);
  first_prev = simp reads (ground arith);
  ids = tt;
}

Addresses-append :
    (xs : List ℕ) (p : ℕ) → Addresses xs → 0 < p → p < word → Addresses (xs ++ p ∷ [])
Addresses-append [] p a h k = (h, k, tt)
Addresses-append (x ∷ xs) p a h k = (a.0, a.1, Addresses-append xs p a.2 h k)

NotIn-snoc : (x p : ℕ) (xs : List ℕ) → NotIn x xs → p ≢ x → NotIn x (xs ++ p ∷ [])
NotIn-snoc x p [] h ne = (ne, tt)
NotIn-snoc x p (y ∷ xs) h ne = (h.0, NotIn-snoc x p xs h.1 ne)

Distinct-snoc : (xs : List ℕ) (p : ℕ) → Distinct xs → NotIn p xs → Distinct (xs ++ p ∷ [])
Distinct-snoc [] p d h = (tt, tt)
Distinct-snoc (x ∷ xs) p d h =
    (NotIn-snoc x p xs d.0 (λ e. h.0 (sym e)), Distinct-snoc xs p d.1 h.1)

Ids-snoc :
    (i : ℕ) (m : Memory) (xs : List ℕ) (p : ℕ) → Ids i m xs → (m p).id ≡ i → Ids i m (xs ++ p ∷ [])
Ids-snoc i m [] p h e = (e, tt)
Ids-snoc i m (x ∷ xs) p h e = (h.0, Ids-snoc i m xs p h.1 e)

module _ (m : Memory) (l : SxeList) (object : ℕ) (xs : List ℕ) (h : Holds m l xs)
    (room : length xs + 1 < 2 ^ 32) (some_node : 0 < node_of l object)
    (fresh : NotIn (node_of l object) (l.base ∷ xs)) where
  base : ℕ
  base = l.base

  node : ℕ
  node = node_of l object

  tail : ℕ
  tail = last l.base xs

  tail-address : (0 < tail) × (tail < word)
  unfolding tail
  tail-address = last-address l.base xs h.addresses

  tail-ne : tail ≢ node
  unfolding tail node
  tail-ne = last-ne (node_of l object) l.base xs fresh.0 fresh.1

  -- The memory before the write to the old tail, with the pointer that the code reads put in.
  linked_in : Memory
  unfolding base node tail
  linked_in =
      set_prev (set_prev (set_next m node (rel base base)) node (rel base tail)) base
        (rel base node)

  pushed : Memory
  pushed = set_id (set_next linked_in tail (rel base node)) node (m base).id

  read_tail : (set_next m node (rel base base) base).prev ≡ rel base tail
  unfolding base node tail
  read_tail = simp reads h.first_prev

  read_prev : fix base (linked_in node).prev ≡ tail
  unfolding linked_in
  read_prev = rw (linked_prev) (fix-rel base tail h.addresses.1 tail-address.1)
    where
      linked_prev : (linked_in node).prev ≡ rel base tail
      linked_prev = unfold base node in simp reads (ground arith)

  read_id : (set_next linked_in tail (rel base node) base).id ≡ (m base).id
  unfolding linked_in
  read_id = simp reads refl

  push_memory : (push m l object).0 ≡ pushed
  unfolding push pushed linked_in base node
  push_memory = rw (read_tail, read_prev, read_id) refl

  Linked-xs : Linked base pushed base xs
  unfolding pushed linked_in base
  Linked-xs = Linked-set_id base _ node _ base xs (
      Linked-set_next-last base _ tail _ base xs h.distinct (unfold tail base in refl) (
        Linked-set_prev base _ base _ base xs h.distinct.0 (
          Linked-set_prev base _ node _ base xs fresh.1
            (Linked-set_next base m node _ base xs fresh.0 fresh.1 h.linked))))

  Ids-xs : Ids (m base).id pushed xs
  unfolding pushed linked_in base
  Ids-xs = Ids-set_id base _ node _ (m base).id xs fresh.1 (
      Ids-set_next base _ tail _ (m base).id xs (
        Ids-set_prev base _ base _ (m base).id xs (
          Ids-set_prev base _ node _ (m base).id xs
            (Ids-set_next base m node _ (m base).id xs h.ids))))

  base_ne : base ≢ node
  unfolding base node
  base_ne = fresh.0

  next_tail : (pushed tail).next ≡ rel base node
  unfolding pushed linked_in
  next_tail = simp reads (ground arith)

  prev_node : (pushed node).prev ≡ rel base tail
  unfolding pushed linked_in
  prev_node = simp reads (ground (arith, base_ne))

  next_node : (pushed node).next ≡ rel base base
  unfolding pushed linked_in
  next_node = simp reads (ground (arith, tail-ne))

  prev_base : (pushed base).prev ≡ rel base node
  unfolding pushed linked_in
  prev_base = simp reads (ground arith)

  id_node : (pushed node).id ≡ (m base).id
  unfolding pushed linked_in
  id_node = simp reads (ground arith)

  id_base : (pushed base).id ≡ (m base).id
  unfolding pushed linked_in
  id_base = simp reads (ground (arith, base_ne))

  last_pushed : last base (xs ++ node ∷ []) ≡ node
  last_pushed = last-append base node xs []

  -- Pushing an object whose node is not on the list, and is no NULL, puts it behind the others; the
  -- length may not wrap. The list stays linked both ways round, with its id in every node.
  pub push-Holds : Holds (push m l object).0 (push m l object).1 (xs ++ node_of l object ∷ [])
  push-Holds = rw push_memory (
      unfold push base node tail in
      record {
        counted = omega (arith, h.counted, length-append xs (node_of l object ∷ []));
        fits = omega (arith, length-append xs (node_of l object ∷ []));
        offset_fits = h.offset_fits;
        addresses = (
          h.addresses.0,
          h.addresses.1,
          Addresses-append xs (node_of l object) h.addresses.2 some_node (omega arith),
        );
        distinct = Distinct-snoc (l.base ∷ xs) (node_of l object) h.distinct fresh;
        linked = Linked-append base pushed base node xs [] Linked-xs next_tail prev_node tt;
        last_next = rw last_pushed next_node;
        first_prev = rw last_pushed prev_base;
        ids = rw id_base (Ids-snoc (m l.base).id pushed xs (node_of l object) Ids-xs id_node);
      })
