-- ===== src/SxeList/Links.antt =====
-- The shape of a list in memory: the nodes that it links, in order, and how writes keep the shape.
use libsxe.Base.{
  ℕ, ◌^◌, ◌<◌, ◌≡◌, refl, ◌≢◌, List, [], ◌∷◌, ◌++◌, arith, length, ◌==◌, if◌then◌else◌,
}
use libsxe.SxeList.{Memory, SxeList, word, rel, fix, set_next, set_prev, set_id, sentinel_rel}

abbrev pub NotIn : ℕ → List ℕ → Type 0
NotIn p [] = Unit {0}
NotIn p (x ∷ xs) = (x ≢ p) × NotIn p xs

abbrev pub Distinct : List ℕ → Type 0
Distinct [] = Unit {0}
Distinct (x ∷ xs) = NotIn x xs × Distinct xs

-- Addresses that are no NULL, and nodes that carry the list's id.
abbrev pub Addresses : List ℕ → Type 0
Addresses [] = Unit {0}
Addresses (x ∷ xs) = (0 < x) × (x < word) × Addresses xs

abbrev pub last : ℕ → List ℕ → ℕ
last a [] = a
last a (x ∷ xs) = last x xs

abbrev pub head : List ℕ → ℕ → ℕ
head [] b = b
head (x ∷ xs) b = x

-- From `a` on the nodes `xs` are linked both ways, one after the other.
abbrev pub Linked : ℕ → Memory → ℕ → List ℕ → Type 0
Linked base m a [] = Unit {0}
Linked base m a (x ∷ xs) =
    ((m a).next ≡ rel base x) × ((m x).prev ≡ rel base a) × Linked base m x xs

abbrev pub Ids : ℕ → Memory → List ℕ → Type 0
Ids i m [] = Unit {0}
Ids i m (x ∷ xs) = ((m x).id ≡ i) × Ids i m xs

-- The list `l` in memory holds the nodes `xs`, head first.
pub record Holds (m : Memory) (l : SxeList) (xs : List ℕ) : Type 0 where
  pub counted : l.length ≡ length xs
  pub fits : length xs < 2 ^ 32
  pub offset_fits : l.offset < word
  pub addresses : Addresses (l.base ∷ xs)
  pub distinct : Distinct (l.base ∷ xs)
  pub linked : Linked l.base m l.base xs
  pub last_next : (m (last l.base xs)).next ≡ sentinel_rel l
  pub first_prev : (m l.base).prev ≡ rel l.base (last l.base xs)
  pub ids : Ids (m l.base).id m xs

pub fix-rel : (base p : ℕ) → base < word → p < word → fix base (rel base p) ≡ p
unfolding rel fix
fix-rel base p hb hp = omega arith

pub rel_injective :
    (base p q : ℕ) → base < word → p < word → q < word → rel base p ≡ rel base q → p ≡ q
unfolding rel
rel_injective base p q hb hp hq e = omega arith

pub NotIn-append : (p : ℕ) (xs ys : List ℕ) → NotIn p xs → NotIn p ys → NotIn p (xs ++ ys)
NotIn-append p [] ys h k = k
NotIn-append p (x ∷ xs) ys h k = (h.0, NotIn-append p xs ys h.1 k)

pub NotIn-split : (p : ℕ) (xs ys : List ℕ) → NotIn p (xs ++ ys) → NotIn p xs × NotIn p ys
NotIn-split p [] ys h = (tt, h)
NotIn-split p (x ∷ xs) ys h = let (a, b) = NotIn-split p xs ys h.1 in ((h.0, a), b)

pub last-ne : (p a : ℕ) (xs : List ℕ) → a ≢ p → NotIn p xs → last a xs ≢ p
last-ne p a [] ne h = ne
last-ne p a (x ∷ xs) ne h = last-ne p x xs h.0 h.1

pub last-append : (a x : ℕ) (xs ys : List ℕ) → last a (xs ++ x ∷ ys) ≡ last x ys
last-append a x [] ys = refl
last-append a x (y ∷ xs) ys = last-append y x xs ys

pub last-address : (a : ℕ) (xs : List ℕ) → Addresses (a ∷ xs) → (0 < last a xs) × (last a xs < word)
last-address a [] h = (h.0, h.1)
last-address a (x ∷ xs) h = last-address x xs h.2

-- What a cell reads after a write, at the place of the write and elsewhere.
module _ (m : Memory) (p v q : ℕ) where
  pub next-set_next : (set_next m p v q).next ≡ (if p == q then v else (m q).next)
  unfolding set_next
  next-set_next = ground arith

  pub prev-set_next : (set_next m p v q).prev ≡ (m q).prev
  unfolding set_next
  prev-set_next = ground arith

  pub id-set_next : (set_next m p v q).id ≡ (m q).id
  unfolding set_next
  id-set_next = ground arith

  pub next-set_prev : (set_prev m p v q).next ≡ (m q).next
  unfolding set_prev
  next-set_prev = ground arith

  pub prev-set_prev : (set_prev m p v q).prev ≡ (if p == q then v else (m q).prev)
  unfolding set_prev
  prev-set_prev = ground arith

  pub id-set_prev : (set_prev m p v q).id ≡ (m q).id
  unfolding set_prev
  id-set_prev = ground arith

  pub next-set_id : (set_id m p v q).next ≡ (m q).next
  unfolding set_id
  next-set_id = ground arith

  pub prev-set_id : (set_id m p v q).prev ≡ (m q).prev
  unfolding set_id
  prev-set_id = ground arith

  pub id-set_id : (set_id m p v q).id ≡ (if p == q then v else (m q).id)
  unfolding set_id
  id-set_id = ground arith

pub ruleset reads = (
  next-set_next, prev-set_next, id-set_next, next-set_prev, prev-set_prev, id-set_prev, next-set_id,
  prev-set_id, id-set_id,
)

-- Writes outside a linked run keep it, as does a write to the `next` of its last node.
module _ (base : ℕ) (m : Memory) (p v : ℕ) where
  pub Linked-set_next :
      (a : ℕ) (xs : List ℕ)
      → a ≢ p
      → NotIn p xs
      → Linked base m a xs
      → Linked base (set_next m p v) a xs
  unfolding set_next
  Linked-set_next a [] ne h k = tt
  Linked-set_next a (x ∷ xs) ne h k = (ground arith, ground arith, Linked-set_next x xs h.0 h.1 k.2)

  pub Linked-set_next-last :
      (a : ℕ) (xs : List ℕ)
      → Distinct (a ∷ xs)
      → last a xs ≡ p
      → Linked base m a xs
      → Linked base (set_next m p v) a xs
  unfolding set_next
  Linked-set_next-last a [] d e k = tt
  Linked-set_next-last a (x ∷ xs) d e k =
      let ne : last x xs ≢ a = last-ne a x xs d.0.0 d.0.1 in
      (ground arith, ground arith, Linked-set_next-last x xs d.1 e k.2)

  pub Linked-set_prev :
      (a : ℕ) (xs : List ℕ) → NotIn p xs → Linked base m a xs → Linked base (set_prev m p v) a xs
  unfolding set_prev
  Linked-set_prev a [] h k = tt
  Linked-set_prev a (x ∷ xs) h k = (ground arith, ground arith, Linked-set_prev x xs h.1 k.2)

  pub Linked-set_id : (a : ℕ) (xs : List ℕ) → Linked base m a xs → Linked base (set_id m p v) a xs
  unfolding set_id
  Linked-set_id a [] k = tt
  Linked-set_id a (x ∷ xs) k = (ground arith, ground arith, Linked-set_id x xs k.2)

  pub Ids-set_next : (i : ℕ) (xs : List ℕ) → Ids i m xs → Ids i (set_next m p v) xs
  unfolding set_next
  Ids-set_next i [] h = tt
  Ids-set_next i (x ∷ xs) h = (ground arith, Ids-set_next i xs h.1)

  pub Ids-set_prev : (i : ℕ) (xs : List ℕ) → Ids i m xs → Ids i (set_prev m p v) xs
  unfolding set_prev
  Ids-set_prev i [] h = tt
  Ids-set_prev i (x ∷ xs) h = (ground arith, Ids-set_prev i xs h.1)

  pub Ids-set_id : (i : ℕ) (xs : List ℕ) → NotIn p xs → Ids i m xs → Ids i (set_id m p v) xs
  unfolding set_id
  Ids-set_id i [] n h = tt
  Ids-set_id i (x ∷ xs) n h = (ground arith, Ids-set_id i xs n.1 h.1)

pub Linked-append :
    (base : ℕ) (m : Memory) (a x : ℕ) (xs ys : List ℕ)
    → Linked base m a xs
    → (m (last a xs)).next ≡ rel base x
    → (m x).prev ≡ rel base (last a xs)
    → Linked base m x ys
    → Linked base m a (xs ++ x ∷ ys)
Linked-append base m a x [] ys k n p q = (n, p, q)
Linked-append base m a x (y ∷ xs) ys k n p q = (k.0, k.1, Linked-append base m y x xs ys k.2 n p q)

pub Linked-split :
    (base : ℕ) (m : Memory) (a x : ℕ) (xs ys : List ℕ)
    → Linked base m a (xs ++ x ∷ ys)
    → Linked base m a xs
      × ((m (last a xs)).next ≡ rel base x)
      × ((m x).prev ≡ rel base (last a xs))
      × Linked base m x ys
Linked-split base m a x [] ys k = (tt, k.0, k.1, k.2)
Linked-split base m a x (y ∷ xs) ys k =
    let (k', n, p, q) = Linked-split base m y x xs ys k.2 in ((k.0, k.1, k'), n, p, q)
