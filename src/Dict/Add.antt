-- ===== src/Dict/Add.antt =====
-- sxe_dict_add: the new node stands behind the key's others, with a NULL value, and the table grows
-- when the load reaches its limit.
pub mod Append
pub mod Store
use libsxe.Base.{
  ℕ, zero, suc, ◌+◌, ◌*◌, ◌%◌, ◌^◌, ◌≤◌, ◌<◌, ◌≡◌, refl, sym, ap, ap₂, ◌∙◌, ◌≢◌, inl, inr, List, [],
  ◌∷◌, ◌++◌, Option, none, some, Bool, true, false, reverse, Bool-cases, arith, length, get_or, set,
  take, bytes_eq, bytes_eq→eq, take_all, length-take, length-set, length-append, ◌==◌, leb,
  if◌then◌else◌, append-nil, append_assoc, strlen, strlen-le-length,
}
use native.Mathlib.Decide.{ℕ_discrete}
use libsxe.Dict.{
  Node, Chain, Dict, Slot, old_chains, node_new, ensure_table, key_length, current_load,
  grow_when_loaded, append_node, add, resize, u32,
}
use libsxe.Dict.Hash.{meiyan}
use libsxe.Dict.Place.{
  chain_values, table_values, values, table_count, bucket_of, ChainIn, TableIn, IsValid,
  ChainIn-get, TableIn-set, table_count-set, chain_values-append, ChainIn-append,
  table_values-set_self, table_values-set_ne, table_values_bucket,
}
use libsxe.Dict.Resize.Whole.{resize-IsValid, values-resize}

-- Neither the number of entries nor the size of a grown table leaves the range of an `int`.
pub record HasRoom (dic : Dict) : Type 0 where
  pub entries : dic.count + 1 < 2 ^ 31
  pub grows : 0 < dic.growth
  pub growth_fits : dic.growth < 2 ^ 31
  pub size_fits : dic.size * dic.growth < 2 ^ 31

-- What the first two steps of sxe_dict_add do not change.
pub record Grown (dic d : Dict) : Type 0 where
  pub valid : IsValid d
  pub some_bucket : 0 < d.size
  pub same_count : d.count ≡ dic.count

pub ensure_by_table :
    (dic : Dict) (o : Option (List Chain))
    → IsValid (record dic { table = o })
    → Grown (record dic { table = o }) (ensure_table (record dic { table = o }))
unfolding ensure_table
ensure_by_table dic none v = record {
  valid = record {
    buckets = refl;
    counted = omega (arith, v.counted);
    placed = (tt, tt);
    nonempty = λ e. cc;
  };
  some_bucket = omega arith;
  same_count = refl;
}
ensure_by_table dic (some []) v = absurd (v.nonempty refl)
ensure_by_table dic (some (c ∷ cs)) v = record {
  valid = v;
  some_bucket = omega (arith, v.buckets);
  same_count = refl;
}

pub ensure_values :
    (dic : Dict) (o : Option (List Chain)) (key : List ℕ)
    → values (ensure_table (record dic { table = o })) key ≡ values (record dic { table = o }) key
unfolding ensure_table
ensure_values dic none key = refl
ensure_values dic (some t) key = refl

-- Whether sxe_dict_add resizes a dictionary with a table: the bucket is in use and the load is at
-- its limit.
abbrev pub used : Chain → Bool
used [] = false
used (k ∷ ks) = true

unfoldable pub resizes : Dict → ℕ → Bool
resizes dic bucket =
    if used (get_or (old_chains dic.table) bucket [])
    then leb dic.load (current_load dic)
    else false

grow_by_test :
    (dic : Dict) (bucket : ℕ)
    → grow_when_loaded dic bucket
      ≡ (if resizes dic bucket then resize dic (u32 (dic.size * dic.growth)) else dic)
unfolding grow_when_loaded resizes
grow_by_test dic bucket = ground arith

module _ (dic : Dict) (bucket : ℕ) (v : IsValid dic) (b : 0 < dic.size) where
  module _ (g : 0 < dic.growth) (fits : dic.size * dic.growth < 2 ^ 31) where
    new_size : 0 < u32 (dic.size * dic.growth)
    new_size = grind arith

    pub grow-Grown : Grown dic (grow_when_loaded dic bucket)
    grow-Grown = rw (grow_by_test dic bucket) (elim (Bool-cases (resizes dic bucket)) [
      | inl e ↦ rw e (
          unfold resize in
          record {
            valid = resize-IsValid dic (u32 (dic.size * dic.growth)) v new_size;
            some_bucket = new_size;
            same_count = refl;
          })
      | inr e ↦ rw e (record { valid = v; some_bucket = b; same_count = refl })
    ])

    pub grow_values :
        (key : List ℕ)
        → values (grow_when_loaded dic bucket) key
          ≡ (if resizes dic bucket then reverse (values dic key) else values dic key)
    grow_values key = rw (grow_by_test dic bucket) (elim (Bool-cases (resizes dic bucket)) [
      | inl e ↦ rw e (values-resize dic (u32 (dic.size * dic.growth)) v new_size key)
      | inr e ↦ rw e refl
    ])
