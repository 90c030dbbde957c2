-- ===== src/SxeList/Walk.antt =====
-- sxe_list_walker_step visits the objects of a list from its head to its tail.
use libsxe.Base.{
  ℕ, zero, suc, ◌≡◌, refl, ap, ◌≢◌, List, [], ◌∷◌, ◌++◌, map, arith, length, if◌then◌else◌, true,
  false,
}
use libsxe.SxeList.{
  Memory, SxeList, Walker, rel, fix, object_of, walker_construct, walker_step, walker_find,
  walker_back, ◌!=◌,
}
use libsxe.SxeList.Links.{Addresses, last, Linked, Holds, fix-rel, NotIn}

-- What `n` steps return, one after the other.
unfoldable pub steps : Memory → SxeList → ℕ → Walker → List ℕ
steps m l zero w = []
steps m l (suc n) w = let (w', object) = walker_step m l w in object ∷ steps m l n w'

ne_test : (a b : ℕ) → a ≢ b → (a != b) ≡ true
ne_test a b ne = ground arith

same_test : (a : ℕ) → (a != a) ≡ false
same_test a = ground arith

step_to :
    (m : Memory) (l : SxeList) (w : Walker) (p : ℕ)
    → fix l.base (m w.node).next ≡ p
    → walker_step m l w
      ≡ (record { back = w.node; node = p }, if p != l.base then object_of l p else 0)
unfolding walker_step
step_to m l w p e = rw e refl

steps_from :
    (m : Memory) (l : SxeList) (b a : ℕ) (xs : List ℕ)
    → Addresses (l.base ∷ xs)
    → NotIn l.base xs
    → Linked l.base m a xs
    → (m (last a xs)).next ≡ rel l.base l.base
    → steps m l (suc (length xs)) (record { back = b; node = a }) ≡ map (object_of l) xs ++ 0 ∷ []
unfolding steps
steps_from m l b a [] ad n k e =
    let home : fix l.base (m a).next ≡ l.base = rw e (fix-rel l.base l.base ad.1 ad.1) in
    rw (step_to m l (record { back = b; node = a }) l.base home, same_test l.base) refl
steps_from m l b a (x ∷ xs) ad n k e =
    let there : fix l.base (m a).next ≡ x = rw (k.0) (fix-rel l.base x ad.1 ad.2.1) in
    rw (step_to m l (record { back = b; node = a }) x there, ne_test x l.base n.0)
      (ap (λ r. object_of l x ∷ r) (steps_from m l a x xs (ad.0, ad.1, ad.2.2) n.1 k.2 e))

-- From a new walker, one step more than the list has nodes returns the objects from the head to the
-- tail, each once, and then NULL.
pub steps-construct :
    (m : Memory) (l : SxeList) (xs : List ℕ)
    → Holds m l xs
    → steps m l (suc (length xs)) (walker_construct l) ≡ map (object_of l) xs ++ 0 ∷ []
unfolding walker_construct
steps-construct m l xs h =
    steps_from m l l.base l.base xs h.addresses h.distinct.0 h.linked h.last_next

-- sxe_list_walker_back right after a step returns to the node before it and to that node's object;
-- where the step left the sentinel it changes nothing and returns NULL, as a second back does.
pub back-step :
    (m : Memory) (l : SxeList) (w : Walker)
    → let w' = (walker_step m l w).0 in
      (w.node ≢ l.base
        → ((walker_back l w').0.node ≡ w.node)
          × ((walker_back l w').1 ≡ walker_find l w)
          × (walker_back l (walker_back l w').0 ≡ ((walker_back l w').0, 0)))
      × (w.node ≡ l.base → walker_back l w' ≡ (w', 0))
unfolding walker_step walker_back walker_find
back-step m l w = (
  (λ ne. rw (ne_test w.node l.base ne, same_test l.base) (refl, refl, refl)),
  (λ e. ground arith),
)
