-- ===== src/SxeList/Remove/Unlink.antt =====
-- The writes of sxe_list_remove take one node out of the list.
use libsxe.Base.{ℕ, ◌+◌, ◌-◌, ◌%◌, ◌^◌, ◌≡◌, refl, sym, ◌≢◌, List, [], ◌∷◌, ◌++◌, arith, append-nil}
use libsxe.SxeList.{Memory, SxeList, word, rel, fix, set_prev, sentinel_rel, null_rel, unlink}
use libsxe.SxeList.Links.{
  last, head, Linked, Ids, Holds, fix-rel, last-ne, last-append, Linked-set_next,
  Linked-set_next-last, Linked-set_prev, Ids-set_next, Ids-set_prev, reads,
}
use libsxe.SxeList.Remove.{
  Addresses-drop, NotIn-drop, Distinct-drop, Distinct-at, Distinct-front, Ids-drop, TailLinked,
  Linked-join, length-drop_one, unlinked, before, t-address, t_out, x_out, base_out, Behind, behind,
}

module _ (m : Memory) (l : SxeList) (ys : List ℕ) (x : ℕ) (zs : List ℕ)
    (h : Holds m l (ys ++ x ∷ zs)) where
  abbrev pub base : ℕ
  base = l.base

  abbrev pub t : ℕ
  t = last l.base ys

  abbrev pub q : ℕ
  q = head zs l.base

  b : Behind m l ys x zs h q
  b = behind m l ys x zs h

  t-ne : x ≢ t
  t-ne = (t_out m l ys x zs h).0

  q-ne : q ≢ x
  q-ne = b.ne_x

  base-ne : x ≢ base
  base-ne = (base_out m l ys x zs h).1.0

  prev_x : (m x).prev ≡ rel base t
  prev_x = (before m l ys x zs h).2

  next_x : (m x).next ≡ rel base q
  next_x = b.from_x

  unfoldable pub after : Memory
  after = unlinked m base t x q (null_rel l)

  read_prev : (set_prev m q (rel base t) x).prev ≡ rel base t
  read_prev = simp reads (ground (arith, prev_x, q-ne))

  read_next : (set_prev m q (rel base t) x).next ≡ rel base q
  read_next = simp reads next_x

  to_q : fix base (rel base q) ≡ q
  to_q = fix-rel base q h.addresses.1 b.address.1

  to_t : fix base (rel base t) ≡ t
  to_t = fix-rel base t h.addresses.1 (t-address m l ys x zs h).1

  pub unlink_memory : unlink m l x ≡ after
  unfolding unlink after unlinked
  unlink_memory = rw (next_x, prev_x, to_q, read_prev, to_t, read_next) refl

  next_t : (after t).next ≡ rel base q
  unfolding after unlinked
  next_t = simp reads (ground (arith, t-ne))

  prev_q : (after q).prev ≡ rel base t
  unfolding after unlinked
  prev_q = simp reads (ground (arith, q-ne))

  Linked-ys : Linked base after base ys
  unfolding after unlinked
  Linked-ys =
      Linked-set_next base _ x _ base ys (λ e. base-ne (sym e)) (x_out m l ys x zs h).0
        (Linked-set_prev base _ x _ base ys (x_out m l ys x zs h).0 (
          Linked-set_next-last base _ t _ base ys (Distinct-front (base ∷ ys) (x ∷ zs) h.distinct)
            refl (Linked-set_prev base m q _ base ys b.out (before m l ys x zs h).0)))

Ids-after :
    (m : Memory) (l : SxeList) (ys : List ℕ) (x : ℕ) (zs : List ℕ) (h : Holds m l (ys ++ x ∷ zs))
    → Ids (m l.base).id (after m l ys x zs h) (ys ++ zs)
unfolding after unlinked
Ids-after m l ys x zs h =
    let i = (m l.base).id in
    Ids-set_next l.base _ x _ i (ys ++ zs) (
      Ids-set_prev l.base _ x _ i (ys ++ zs) (
        Ids-set_next l.base _ (last l.base ys) _ i (ys ++ zs)
          (Ids-set_prev l.base m (head zs l.base) _ i (ys ++ zs) (Ids-drop i m ys x zs h.ids))))

tail_linked :
    (m : Memory) (l : SxeList) (ys : List ℕ) (x : ℕ) (zs : List ℕ) (h : Holds m l (ys ++ x ∷ zs))
    → TailLinked l.base (after m l ys x zs h) zs
unfolding after unlinked
tail_linked m l ys x [] h = tt
tail_linked m l ys x (z ∷ zs) h =
    let t' = t_out m l ys x (z ∷ zs) h in
    let x' = x_out m l ys x (z ∷ zs) h in
    Linked-set_next l.base _ x _ z zs x'.1.0 x'.1.1 (
      Linked-set_prev l.base _ x _ z zs x'.1.1 (
        Linked-set_next l.base _ (last l.base ys) _ z zs t'.1.0 t'.1.1 (
          Linked-set_prev l.base m z _ z zs (Distinct-at ys x (z ∷ zs) h.distinct.1).1.0
            (before m l ys x (z ∷ zs) h).3.2)))

last_next_after :
    (m : Memory) (l : SxeList) (ys : List ℕ) (x : ℕ) (zs : List ℕ) (h : Holds m l (ys ++ x ∷ zs))
    → (after m l ys x zs h (last l.base (ys ++ zs))).next ≡ sentinel_rel l
last_next_after m l ys x [] h = rw (append-nil ys) (next_t m l ys x [] h)
last_next_after m l ys x (z ∷ zs) h =
    rw (last-append l.base z ys zs)
      (unfold after unlinked in simp reads (ground (arith, ne_t, ne_x, same)))
  where
    ne_t : last z zs ≢ last l.base ys
    ne_t = let t' = t_out m l ys x (z ∷ zs) h in last-ne (last l.base ys) z zs t'.1.0 t'.1.1

    ne_x : last z zs ≢ x
    ne_x = let x' = x_out m l ys x (z ∷ zs) h in last-ne x z zs x'.1.0 x'.1.1

    same : (m (last z zs)).next ≡ sentinel_rel l
    same = rw (← last-append l.base x ys (z ∷ zs)) h.last_next

first_prev_after :
    (m : Memory) (l : SxeList) (ys : List ℕ) (x : ℕ) (zs : List ℕ) (h : Holds m l (ys ++ x ∷ zs))
    → (after m l ys x zs h l.base).prev ≡ rel l.base (last l.base (ys ++ zs))
first_prev_after m l ys x [] h = rw (append-nil ys) (prev_q m l ys x [] h)
first_prev_after m l ys x (z ∷ zs) h =
    rw (last-append l.base z ys zs) (
      unfold after unlinked in simp reads (ground (arith, ne_z, base-ne m l ys x (z ∷ zs) h, same)))
  where
    ne_z : z ≢ l.base
    ne_z = (base_out m l ys x (z ∷ zs) h).1.1.0

    same : (m l.base).prev ≡ rel l.base (last z zs)
    same = rw (← last-append l.base x ys (z ∷ zs)) h.first_prev

id_base_after :
    (m : Memory) (l : SxeList) (ys : List ℕ) (x : ℕ) (zs : List ℕ) (h : Holds m l (ys ++ x ∷ zs))
    → (after m l ys x zs h l.base).id ≡ (m l.base).id
unfolding after unlinked
id_base_after m l ys x zs h = simp reads refl

-- With `x` unlinked and the length one less, the list holds the other nodes in their order.
pub unlink-Holds :
    (m : Memory) (l : SxeList) (ys : List ℕ) (x : ℕ) (zs : List ℕ)
    → Holds m l (ys ++ x ∷ zs)
    → Holds (unlink m l x) (record l { length = (l.length + word - 1) % 2 ^ 32 }) (ys ++ zs)
unlink-Holds m l ys x zs h = rw (unlink_memory m l ys x zs h) (record {
  counted = omega (arith, h.counted, h.fits, length-drop_one ys x zs);
  fits = omega (arith, h.fits, length-drop_one ys x zs);
  offset_fits = h.offset_fits;
  addresses = (h.addresses.0, h.addresses.1, Addresses-drop ys x zs h.addresses.2);
  distinct = (NotIn-drop l.base ys x zs h.distinct.0, Distinct-drop ys x zs h.distinct.1);
  linked =
      Linked-join l.base (after m l ys x zs h) ys zs (Linked-ys m l ys x zs h)
        (next_t m l ys x zs h) (prev_q m l ys x zs h) (tail_linked m l ys x zs h);
  last_next = last_next_after m l ys x zs h;
  first_prev = first_prev_after m l ys x zs h;
  ids = rw (id_base_after m l ys x zs h) (Ids-after m l ys x zs h);
})
