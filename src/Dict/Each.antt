-- ===== src/Dict/Each.antt =====
-- sxe_dict_new, and sxe_dict_forEach with a callback that always goes on.
use libsxe.Base.{
  ℕ, zero, suc, ◌≡◌, refl, ap, ◌∙◌, List, [], ◌∷◌, ◌++◌, Bool, true, some, arith, replicate,
  length-replicate,
}
use mathlib.Core.List.{foldl, foldl-append}
use libsxe.Dict.{Node, Chain, new, for_each_chain, for_each_table}
use libsxe.Dict.Place.{
  values, IsValid, TableIn-replicate, table_values-replicate, table_count-replicate,
}

new-suc :
    (n : ℕ)
    → new (suc n) ≡ record {
      table = some (replicate (suc n) []);
      size = suc n;
      count = 0;
      load = 100;
      growth = 2;
    }
unfolding new
new-suc n = ground arith

-- sxe_dict_new makes a valid dictionary with no value for any key, whether it gets a table or not.
pub new-IsValid : (n : ℕ) (key : List ℕ) → IsValid (new n) × (values (new n) key ≡ [])
unfolding new
new-IsValid zero key =
    (record { buckets = refl; counted = refl; placed = tt; nonempty = λ e. cc }, refl)
new-IsValid (suc n) key = (
  rw (new-suc n) (record {
    buckets = length-replicate (suc n) [];
    counted = table_count-replicate (suc n);
    placed = TableIn-replicate (suc n) 0 (suc n);
    nonempty = λ e. cc;
  }),
  ap (λ d. values d key) (new-suc n) ∙ table_values-replicate key (suc n),
)

abbrev pub nodes : List Chain → Chain
nodes [] = []
nodes (c ∷ cs) = c ++ nodes cs

module _ {U : Type 0} (visit : U → Node → U) where
  -- The callback keeps each value and shows the node to `visit`.
  abbrev pub callback : List ℕ → ℕ → ℕ → U → Bool × ℕ × U
  callback key len value user =
      (true, value, visit user (record { key = key; len = len; value = value }))

  each_chain : (c : Chain) (u : U) → for_each_chain callback c u ≡ (true, c, foldl visit u c)
  unfolding for_each_chain
  each_chain [] u = refl
  each_chain (k ∷ ks) u = rw (each_chain ks (visit u k)) refl

  -- Over a callback that always goes on and keeps the values, sxe_dict_forEach visits every node of
  -- every chain, each once and in the order of the table, and leaves the table as it was.
  pub for_each-foldl :
      (t : List Chain) (u : U) → for_each_table callback t u ≡ (t, foldl visit u (nodes t))
  unfolding for_each_table
  for_each-foldl [] u = refl
  for_each-foldl (c ∷ cs) u =
      rw (each_chain c u, for_each-foldl cs (foldl visit u c), foldl-append visit u c (nodes cs))
        refl
