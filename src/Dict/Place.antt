-- ===== src/Dict/Place.antt =====
-- Where the nodes of a dictionary stand (each in the bucket of its key's hash), and the values that
-- the nodes of a key hold.
use libsxe.Base.{
  ℕ, zero, suc, ◌+◌, ◌%◌, ◌<◌, ◌≡◌, refl, ap, ◌∙◌, ◌≢◌, inl, inr, List, [], ◌∷◌, ◌++◌, true, some,
  get_or-set_self, length-set, get_or-set_ne, if◌then◌else◌, Bool-cases, arith, length, get_or, set,
  replicate, bytes_eq, bytes_eq→eq, sym, append-nil,
}
use mathlib.Core.Path.{subst}
use libsxe.Dict.{Chain, Dict, old_chains}
use libsxe.Dict.Hash.{meiyan}

-- The values of the nodes with this key, in the chain's order.
abbrev pub chain_values : List ℕ → Chain → List ℕ
chain_values key [] = []
chain_values key (k ∷ ks) =
    if bytes_eq k.key key then k.value ∷ chain_values key ks else chain_values key ks

abbrev pub table_values : List ℕ → List Chain → List ℕ
table_values key [] = []
table_values key (c ∷ cs) = chain_values key c ++ table_values key cs

-- All the values that a dictionary holds for a key, whatever the bucket.
abbrev pub values : Dict → List ℕ → List ℕ
values dic key = table_values key (old_chains dic.table)

abbrev pub table_count : List Chain → ℕ
table_count [] = 0
table_count (c ∷ cs) = length c + table_count cs

abbrev pub bucket_of : List ℕ → ℕ → ℕ
bucket_of key size = meiyan key (length key) % size

-- The nodes of a chain belong to bucket `i` of a table of `size` buckets.
abbrev pub ChainIn : ℕ → ℕ → Chain → Type 0
ChainIn size i [] = Unit {0}
ChainIn size i (k ∷ ks) = (k.len ≡ length k.key) × (bucket_of k.key size ≡ i) × ChainIn size i ks

-- The chains are those of the buckets from `i` on.
abbrev pub TableIn : ℕ → ℕ → List Chain → Type 0
TableIn size i [] = Unit {0}
TableIn size i (c ∷ cs) = ChainIn size i c × TableIn size (suc i) cs

pub record IsValid (dic : Dict) : Type 0 where
  pub buckets : length (old_chains dic.table) ≡ dic.size
  pub counted : table_count (old_chains dic.table) ≡ dic.count
  pub placed : TableIn dic.size 0 (old_chains dic.table)
  pub nonempty : dic.table ≢ some []

-- A chain of another bucket holds nothing of the key.
pub chain_values_elsewhere :
    (size i : ℕ) (key : List ℕ) (c : Chain)
    → ChainIn size i c
    → bucket_of key size ≢ i
    → chain_values key c ≡ []
chain_values_elsewhere size i key [] p ne = refl
chain_values_elsewhere size i key (k ∷ ks) p ne = elim (Bool-cases (bytes_eq k.key key)) [
  | inl e ↦ absurd (ne (ap (λ b. bucket_of b size) (hit e) ∙ p.1))
  | inr e ↦ rw e (chain_values_elsewhere size i key ks p.2 ne)
]
  where
    hit : bytes_eq k.key key ≡ true → key ≡ k.key
    hit e = sym (bytes_eq→eq k.key key e)

table_values_above :
    (size i : ℕ) (key : List ℕ) (t : List Chain)
    → TableIn size i t
    → bucket_of key size < i
    → table_values key t ≡ []
table_values_above size i key [] p h = refl
table_values_above size i key (c ∷ cs) p h =
    let e : chain_values key c ≡ [] = chain_values_elsewhere size i key c p.0 (omega arith) in
    rw e (table_values_above size (suc i) key cs p.1 (omega arith))

-- So the values of a key are those in its bucket.
pub table_values_bucket :
    (size i j : ℕ) (key : List ℕ) (t : List Chain)
    → TableIn size i t
    → bucket_of key size ≡ i + j
    → j < length t
    → table_values key t ≡ chain_values key (get_or t j [])
table_values_bucket size i j key [] p e h = absurd (omega arith)
table_values_bucket size i zero key (c ∷ cs) p e h =
    let above : table_values key cs ≡ [] =
      table_values_above size (suc i) key cs p.1 (omega arith) in
    rw above (append-nil (chain_values key c))
table_values_bucket size i (suc j) key (c ∷ cs) p e h =
    let away : chain_values key c ≡ [] = chain_values_elsewhere size i key c p.0 (omega arith) in
    rw away (table_values_bucket size (suc i) j key cs p.1 (omega arith) (omega arith))

pub ChainIn-get :
    (size i j n : ℕ) (t : List Chain)
    → TableIn size i t
    → n ≡ i + j
    → ChainIn size n (get_or t j [])
ChainIn-get size i j n [] p e = tt
ChainIn-get size i zero n (c ∷ cs) p e =
    let e' : i ≡ n = omega arith in subst (λ m. ChainIn size m c) e' p.0
ChainIn-get size i (suc j) n (c ∷ cs) p e = ChainIn-get size (suc i) j n cs p.1 (omega arith)

pub TableIn-set :
    (size i j n : ℕ) (t : List Chain) (c : Chain)
    → TableIn size i t
    → n ≡ i + j
    → ChainIn size n c
    → TableIn size i (set t j c)
TableIn-set size i j n [] c p e h = tt
TableIn-set size i zero n (b ∷ t) c p e h =
    let e' : n ≡ i = omega arith in (subst (λ m. ChainIn size m c) e' h, p.1)
TableIn-set size i (suc j) n (b ∷ t) c p e h =
    (p.0, TableIn-set size (suc i) j n t c p.1 (omega arith) h)

pub TableIn-replicate : (size i n : ℕ) → TableIn size i (replicate n [])
TableIn-replicate size i zero = tt
TableIn-replicate size i (suc n) = (tt, TableIn-replicate size (suc i) n)

pub table_values-replicate : (key : List ℕ) (n : ℕ) → table_values key (replicate n []) ≡ []
table_values-replicate key zero = refl
table_values-replicate key (suc n) = table_values-replicate key n

pub table_count-replicate : (n : ℕ) → table_count (replicate n []) ≡ 0
table_count-replicate zero = refl
table_count-replicate (suc n) = omega (arith, table_count-replicate n)

pub table_count-set :
    (t : List Chain) (j : ℕ) (c : Chain)
    → j < length t
    → table_count (set t j c) + length (get_or t j []) ≡ table_count t + length c
table_count-set [] j c h = absurd (omega arith)
table_count-set (b ∷ t) zero c h = omega arith
table_count-set (b ∷ t) (suc j) c h = omega (arith, table_count-set t j c (omega arith))

pub chain_values-append :
    (key : List ℕ) (a b : Chain)
    → chain_values key (a ++ b) ≡ chain_values key a ++ chain_values key b
chain_values-append key [] b = refl
chain_values-append key (k ∷ ks) b = ground (arith, chain_values-append key ks b)

pub ChainIn-append :
    (size i : ℕ) (a b : Chain) → ChainIn size i a → ChainIn size i b → ChainIn size i (a ++ b)
ChainIn-append size i [] b p q = q
ChainIn-append size i (k ∷ ks) b p q = (p.0, p.1, ChainIn-append size i ks b p.2 q)

-- What a new chain in one bucket does to the values of a key.
module _ (size : ℕ) (t : List Chain) (b : ℕ) (c : Chain) (key : List ℕ) where
  module _ (p : TableIn size 0 t) (q : ChainIn size b c) (l : length t ≡ size) (h : b < size) where
    set_values :
        table_values key (set t b c) ≡ chain_values key (get_or (set t b c) (bucket_of key size) [])
    set_values =
        table_values_bucket size 0 (bucket_of key size) key (set t b c)
          (TableIn-set size 0 b b t c p (omega arith) q) (omega arith)
          (omega (arith, length-set t b c))

    pub table_values-set_self :
        bucket_of key size ≡ b → table_values key (set t b c) ≡ chain_values key c
    table_values-set_self e = set_values ∙ rw (e, get_or-set_self t b c [] (omega arith)) refl

    pub table_values-set_ne :
        bucket_of key size ≢ b → table_values key (set t b c) ≡ table_values key t
    table_values-set_ne ne =
        set_values
        ∙ rw (get_or-set_ne t b (bucket_of key size) c [] (λ e. ne (sym e))) (
            sym
              (table_values_bucket size 0 (bucket_of key size) key t p (omega arith) (omega arith)))
