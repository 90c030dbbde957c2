-- ===== src/Dict/Resize.antt =====
-- sxe_dict_resize: every node goes to the bucket of its hash in the new table, and the nodes of one
-- key change their order.
pub mod Whole
use mathlib.Core.List.{reverse-cons}
use libsxe.Base.{
  ℕ, zero, suc, ◌+◌, ◌%◌, ◌<◌, ◌≡◌, refl, sym, ap, ◌∙◌, ◌≢◌, inl, inr, List, [], ◌∷◌, ◌++◌, true,
  false, reverse, if◌then◌else◌, Bool-cases, arith, length, get_or, set, replicate, bytes_eq,
  bytes_eq→eq, append_assoc, append-nil, length-set, length-replicate, get_or-set_self,
  get_or-set_ne, ltb,
}
use native.Mathlib.Decide.{ℕ_discrete}
use libsxe.Dict.{
  Node, Chain, Dict, old_chains, reinsert_when_resizing, reinsert_chain, reinsert_table, resize,
}
use libsxe.Dict.Hash.{meiyan}
use libsxe.Dict.Place.{
  chain_values, table_values, values, table_count, bucket_of, ChainIn, TableIn, IsValid,
  table_values_bucket, ChainIn-get, TableIn-set, TableIn-replicate, table_values-replicate,
  table_count-replicate, table_count-set,
}

-- A table that is under construction: `size` buckets, each node in its own.
pub record Table (size : ℕ) (t : List Chain) : Type 0 where
  pub buckets : length t ≡ size
  pub some_bucket : 0 < size
  pub placed : TableIn size 0 t

mod-lt : (h size : ℕ) → 0 < size → h % size < size
mod-lt h size p = omega arith

-- Both branches of sxe_dict_reinsert_when_resizing put the node in front of its bucket's chain.
pub reinsert_front :
    (t : List Chain) (size : ℕ) (k : Node)
    → reinsert_when_resizing t size k
      ≡ set t (meiyan k.key k.len % size) (k ∷ get_or t (meiyan k.key k.len % size) [])
unfolding reinsert_when_resizing
reinsert_front t size k = ground arith

pub Table-values :
    (size : ℕ) (t : List Chain) (key : List ℕ)
    → Table size t
    → table_values key t ≡ chain_values key (get_or t (bucket_of key size) [])
Table-values size t key v =
    table_values_bucket size 0 (bucket_of key size) key t v.placed (omega arith)
      (omega (arith, v.buckets, v.some_bucket))

module _ (size : ℕ) (t : List Chain) (k : Node) (v : Table size t) (l : k.len ≡ length k.key) where
  own : ℕ
  own = bucket_of k.key size

  own_lem : meiyan k.key k.len % size ≡ own
  unfolding own
  own_lem = rw l

  own-lt : own < length t
  unfolding own
  own-lt = omega (arith, v.buckets, v.some_bucket)

  reinsert_own : reinsert_when_resizing t size k ≡ set t own (k ∷ get_or t own [])
  reinsert_own = rw (reinsert_front t size k, own_lem)

  pub reinsert-Table : Table size (reinsert_when_resizing t size k)
  unfolding own
  reinsert-Table = rw reinsert_own (record {
    buckets = length-set t own _ ∙ v.buckets;
    some_bucket = v.some_bucket;
    placed =
        TableIn-set size 0 own own t _ v.placed (omega arith)
          (l, refl, ChainIn-get size 0 own own t v.placed (omega arith));
  })

  pub reinsert_count : table_count (reinsert_when_resizing t size k) ≡ suc (table_count t)
  reinsert_count =
      rw reinsert_own (omega (arith, table_count-set t own (k ∷ get_or t own []) own-lt))

  -- The node's value goes in front of those that the table holds for the key.
  pub reinsert_values :
      (key : List ℕ)
      → table_values key (reinsert_when_resizing t size k)
        ≡ (if bytes_eq k.key key then k.value ∷ table_values key t else table_values key t)
  unfolding own
  reinsert_values key =
      rw (Table-values size (reinsert_when_resizing t size k) key reinsert-Table, reinsert_own)
        (elim (ℕ_discrete own (bucket_of key size)) [
          | yes e ↦ rw (← e, get_or-set_self t own (k ∷ get_or t own []) [] own-lt) (same e)
          | no ne ↦
              rw (get_or-set_ne t own (bucket_of key size) (k ∷ get_or t own []) [] ne) (other ne)
        ])
    where
      same :
          own ≡ bucket_of key size
          → chain_values key (k ∷ get_or t own [])
            ≡ (if bytes_eq k.key key then k.value ∷ table_values key t else table_values key t)
      same e = rw (Table-values size t key v, ← e) refl

      other :
          own ≢ bucket_of key size
          → chain_values key (get_or t (bucket_of key size) [])
            ≡ (if bytes_eq k.key key then k.value ∷ table_values key t else table_values key t)
      other ne = elim (Bool-cases (bytes_eq k.key key)) [
        | inl h ↦ absurd (ne (ap (λ b. bucket_of b size) (bytes_eq→eq k.key key h)))
        | inr h ↦ rw h (sym (Table-values size t key v))
      ]

-- A chain of a table of `old` buckets is moved node by node.
pub reinsert_chain-Table :
    (old i size : ℕ) (t : List Chain) (c : Chain)
    → ChainIn old i c
    → Table size t
    → Table size (reinsert_chain t size c)
unfolding reinsert_chain
reinsert_chain-Table old i size t [] p v = v
reinsert_chain-Table old i size t (k ∷ ks) p v =
    reinsert_chain-Table old i size (reinsert_when_resizing t size k) ks p.2
      (reinsert-Table size t k v p.0)

pub reinsert_chain_count :
    (old i size : ℕ) (t : List Chain) (c : Chain)
    → ChainIn old i c
    → Table size t
    → table_count (reinsert_chain t size c) ≡ table_count t + length c
unfolding reinsert_chain
reinsert_chain_count old i size t [] p v = omega arith
reinsert_chain_count old i size t (k ∷ ks) p v = omega (
  arith,
  reinsert_count size t k v p.0,
  reinsert_chain_count old i size (reinsert_when_resizing t size k) ks p.2
      (reinsert-Table size t k v p.0),
)

reverse_onto :
    (key : List ℕ) (k : Node) (ks : Chain) (rest : List ℕ)
    → reverse (chain_values key ks) ++ (if bytes_eq k.key key then k.value ∷ rest else rest)
      ≡ reverse (chain_values key (k ∷ ks)) ++ rest
reverse_onto key k ks rest = elim (Bool-cases (bytes_eq k.key key)) [
  | inl h ↦ rw (h, reverse-cons k.value (chain_values key ks), append_assoc) refl
  | inr h ↦ rw h refl
]

pub reinsert_chain_values :
    (old i size : ℕ) (t : List Chain) (c : Chain) (key : List ℕ)
    → ChainIn old i c
    → Table size t
    → table_values key (reinsert_chain t size c)
      ≡ reverse (chain_values key c) ++ table_values key t
unfolding reinsert_chain
reinsert_chain_values old i size t [] key p v = refl
reinsert_chain_values old i size t (k ∷ ks) key p v =
    reinsert_chain_values old i size (reinsert_when_resizing t size k) ks key p.2
      (reinsert-Table size t k v p.0)
    ∙ ap (λ r. reverse (chain_values key ks) ++ r) (reinsert_values size t k v p.0 key)
    ∙ reverse_onto key k ks (table_values key t)
