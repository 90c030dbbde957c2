-- ===== src/Dict/Resize/Whole.antt =====
-- sxe_dict_resize as a whole, over the chains of the old table.
use mathlib.Core.List.{reverse-append}
use libsxe.Base.{
  ℕ, suc, ◌+◌, ◌<◌, ◌≡◌, refl, ap, ◌∙◌, ◌≢◌, length, List, [], ◌∷◌, ◌++◌, reverse, arith, replicate,
  append_assoc, append-nil, length-replicate,
}
use libsxe.Dict.{Chain, Dict, old_chains, reinsert_chain, reinsert_table, resize}
use libsxe.Dict.Place.{
  table_values, chain_values, values, table_count, TableIn, IsValid, TableIn-replicate,
  table_values-replicate, table_count-replicate,
}
use libsxe.Dict.Resize.{Table, reinsert_chain-Table, reinsert_chain_count, reinsert_chain_values}

module _ (old size : ℕ) where
  reinsert_table-Table :
      (i : ℕ) (t cs : List Chain)
      → TableIn old i cs
      → Table size t
      → Table size (reinsert_table t size cs)
  unfolding reinsert_table
  reinsert_table-Table i t [] p v = v
  reinsert_table-Table i t (c ∷ cs) p v =
      reinsert_table-Table (suc i) (reinsert_chain t size c) cs p.1
        (reinsert_chain-Table old i size t c p.0 v)

  reinsert_table_count :
      (i : ℕ) (t cs : List Chain)
      → TableIn old i cs
      → Table size t
      → table_count (reinsert_table t size cs) ≡ table_count t + table_count cs
  unfolding reinsert_table
  reinsert_table_count i t [] p v = omega arith
  reinsert_table_count i t (c ∷ cs) p v = omega (
    arith,
    reinsert_chain_count old i size t c p.0 v,
    reinsert_table_count (suc i) (reinsert_chain t size c) cs p.1
        (reinsert_chain-Table old i size t c p.0 v),
  )

  reinsert_table_values :
      (i : ℕ) (t cs : List Chain) (key : List ℕ)
      → TableIn old i cs
      → Table size t
      → table_values key (reinsert_table t size cs)
        ≡ reverse (table_values key cs) ++ table_values key t
  unfolding reinsert_table
  reinsert_table_values i t [] key p v = refl
  reinsert_table_values i t (c ∷ cs) key p v =
      reinsert_table_values (suc i) (reinsert_chain t size c) cs key p.1
        (reinsert_chain-Table old i size t c p.0 v)
      ∙ rw
          (
            reinsert_chain_values old i size t c key p.0 v,
            reverse-append (chain_values key c) (table_values key cs),
            append_assoc,
          )
          refl

module _ (dic : Dict) (newsize : ℕ) (v : IsValid dic) (h : 0 < newsize) where
  empty-Table : Table newsize (replicate newsize [])
  empty-Table = record {
    buckets = length-replicate newsize [];
    some_bucket = h;
    placed = TableIn-replicate newsize 0 newsize;
  }

  moved-Table : Table newsize (reinsert_table (replicate newsize []) newsize (old_chains dic.table))
  moved-Table =
      reinsert_table-Table dic.size newsize 0 _ (old_chains dic.table) v.placed empty-Table

  not_empty : reinsert_table (replicate newsize []) newsize (old_chains dic.table) ≢ []
  not_empty e = absurd (omega (arith, ap (λ t. length t) e, moved-Table.buckets, h))

  -- A resize to at least one bucket keeps the dictionary valid: as many buckets as `size` says, as
  -- many nodes as `count` says, and each node in the bucket of its key's hash.
  pub resize-IsValid : IsValid (resize dic newsize)
  unfolding resize
  resize-IsValid = record {
    buckets = moved-Table.buckets;
    counted = omega (
      arith,
      reinsert_table_count dic.size newsize 0 (replicate newsize []) (old_chains dic.table) v.placed
          empty-Table,
      table_count-replicate newsize,
      v.counted,
    );
    nonempty = λ e. not_empty (cc);
    placed = moved-Table.placed;
  }

  -- A resize of a valid dictionary to at least one bucket loses no value of any key and adds none;
  -- the values of one key come out in the opposite order.
  pub values-resize : (key : List ℕ) → values (resize dic newsize) key ≡ reverse (values dic key)
  unfolding resize
  values-resize key =
      reinsert_table_values dic.size newsize 0 (replicate newsize []) (old_chains dic.table) key
        v.placed empty-Table
      ∙ rw (table_values-replicate key newsize) (append-nil _)
