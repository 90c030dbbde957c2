-- ===== src/SxeList/Insert/Front.antt =====
-- sxe_list_unshift on the nodes that a list holds.
use libsxe.Base.{ℕ, ◌+◌, ◌^◌, ◌<◌, ◌≡◌, refl, sym, ◌∙◌, ◌≢◌, List, [], ◌∷◌, arith, length}
use mathlib.Core.Path.{subst}
use libsxe.SxeList.{
  Memory, SxeList, word, rel, fix, set_next, set_prev, set_id, sentinel_rel, node_of, unshift,
}
use libsxe.SxeList.Links.{
  NotIn, last, head, Linked, Ids, Holds, fix-rel, last-ne, Linked-set_next, Linked-set_prev,
  Linked-set_id, Ids-set_next, Ids-set_prev, Ids-set_id, reads,
}
use libsxe.SxeList.Remove.Ends.{first_next, head-address}

module _ (m : Memory) (l : SxeList) (object : ℕ) (xs : List ℕ) (h : Holds m l xs)
    (fresh : NotIn (node_of l object) (l.base ∷ xs)) where
  abbrev base : ℕ
  base = l.base

  abbrev node : ℕ
  node = node_of l object

  -- The first node, or the sentinel.
  abbrev q : ℕ
  q = head xs l.base

  linked_in : Memory
  linked_in =
      set_next (set_next (set_prev m node (rel base base)) node (rel base q)) base (rel base node)

  unshifted : Memory
  unfolding linked_in
  unshifted = set_id (set_prev linked_in q (rel base node)) node (m base).id

  q-lt : q < word
  q-lt = head-address xs l.base h.addresses

  q-ne : q ≢ node
  q-ne = out xs fresh
    where
      out : (zs : List ℕ) → NotIn node (base ∷ zs) → head zs base ≢ node
      out [] n = n.0
      out (z ∷ zs) n = n.1.0

  read_head : (set_prev m node (rel base base) base).next ≡ rel base q
  read_head = simp reads (first_next m l xs h)

  read_next : fix base (linked_in node).next ≡ q
  unfolding linked_in
  read_next = rw linked_next (fix-rel base q h.addresses.1 q-lt)
    where
      linked_next : (linked_in node).next ≡ rel base q
      linked_next = simp reads (ground (arith, fresh.0))

  read_id : (set_prev linked_in q (rel base node) base).id ≡ (m base).id
  unfolding linked_in
  read_id = simp reads refl

  unshift_memory : (unshift m l object).0 ≡ unshifted
  unfolding unshift unshifted
  unshift_memory = rw (read_head, read_next, read_id) refl

  next_base : (unshifted base).next ≡ rel base node
  unfolding unshifted
  next_base = simp reads (ground arith)

  prev_node : (unshifted node).prev ≡ rel base base
  unfolding unshifted
  prev_node = simp reads (ground (arith, q-ne))

  next_node : (unshifted node).next ≡ rel base q
  unfolding unshifted
  next_node = simp reads (ground (arith, fresh.0))

  prev_q : (unshifted q).prev ≡ rel base node
  unfolding unshifted
  prev_q = simp reads (ground arith)

  id_node : (unshifted node).id ≡ (m base).id
  unfolding unshifted
  id_node = simp reads (ground arith)

  id_base : (unshifted base).id ≡ (m base).id
  unfolding unshifted
  id_base = simp reads (ground (arith, fresh.0))

  Ids-xs : Ids (m base).id unshifted xs
  unfolding unshifted
  Ids-xs =
      let i = (m base).id in
      Ids-set_id base _ node _ i xs fresh.1 (
        Ids-set_prev base _ q _ i xs (
          Ids-set_next base _ base _ i xs
            (Ids-set_next base _ node _ i xs (Ids-set_prev base m node _ i xs h.ids))))

Linked-after :
    (m : Memory) (l : SxeList) (object : ℕ) (xs : List ℕ) (h : Holds m l xs)
    (fresh : NotIn (node_of l object) (l.base ∷ xs))
    → Linked l.base (unshifted m l object xs h fresh) (node_of l object) xs
unfolding unshifted
Linked-after m l object [] h fresh = tt
Linked-after m l object (x ∷ xs) h fresh =
    let node = node_of l object in
    let base = l.base in
    (
      next_node m l object (x ∷ xs) h fresh,
      prev_q m l object (x ∷ xs) h fresh,
      Linked-set_id base _ node _ x xs (
          Linked-set_prev base _ x _ x xs h.distinct.1.0 (
            Linked-set_next base _ base _ x xs h.distinct.0.0 h.distinct.0.1 (
              Linked-set_next base _ node _ x xs fresh.1.0 fresh.1.1
                (Linked-set_prev base m node _ x xs fresh.1.1 h.linked.2)))),
    )

last_next_after :
    (m : Memory) (l : SxeList) (object : ℕ) (xs : List ℕ) (h : Holds m l xs)
    (fresh : NotIn (node_of l object) (l.base ∷ xs))
    → (unshifted m l object xs h fresh (last (node_of l object) xs)).next ≡ sentinel_rel l
last_next_after m l object [] h fresh = next_node m l object [] h fresh
last_next_after m l object (x ∷ xs) h fresh =
    unfold unshifted in simp reads (ground (arith, ne_base, ne_node, h.last_next))
  where
    ne_base : last x xs ≢ l.base
    ne_base = last-ne l.base x xs h.distinct.0.0 h.distinct.0.1

    ne_node : last x xs ≢ node_of l object
    ne_node = last-ne (node_of l object) x xs fresh.1.0 fresh.1.1

first_prev_after :
    (m : Memory) (l : SxeList) (object : ℕ) (xs : List ℕ) (h : Holds m l xs)
    (fresh : NotIn (node_of l object) (l.base ∷ xs))
    → (unshifted m l object xs h fresh l.base).prev ≡ rel l.base (last (node_of l object) xs)
first_prev_after m l object [] h fresh = prev_q m l object [] h fresh
first_prev_after m l object (x ∷ xs) h fresh =
    unfold unshifted in simp reads (ground (arith, h.distinct.0.0, fresh.0, h.first_prev))

-- Unshifting an object whose node is not on the list, and is no NULL, puts it in front of the others;
-- the length may not wrap.
pub unshift-Holds :
    (m : Memory) (l : SxeList) (object : ℕ) (xs : List ℕ)
    → Holds m l xs
    → length xs + 1 < 2 ^ 32
    → 0 < node_of l object
    → NotIn (node_of l object) (l.base ∷ xs)
    → Holds (unshift m l object).0 (unshift m l object).1 (node_of l object ∷ xs)
unshift-Holds m l object xs h room some_node fresh = rw (unshift_memory m l object xs h fresh) (
    unfold unshift in
    record {
      counted = omega (arith, h.counted);
      fits = omega arith;
      offset_fits = h.offset_fits;
      addresses = (h.addresses.0, h.addresses.1, (some_node, omega arith, h.addresses.2));
      distinct = (((λ e. fresh.0 (sym e)), h.distinct.0), (fresh.1, h.distinct.1));
      linked = (
        next_base m l object xs h fresh,
        prev_node m l object xs h fresh,
        Linked-after m l object xs h fresh,
      );
      last_next = last_next_after m l object xs h fresh;
      first_prev = first_prev_after m l object xs h fresh;
      ids = (
        id_node m l object xs h fresh ∙ sym (id_base m l object xs h fresh),
        subst (λ i. Ids i (unshifted m l object xs h fresh) xs)
            (sym (id_base m l object xs h fresh)) (Ids-xs m l object xs h fresh),
      );
    })
