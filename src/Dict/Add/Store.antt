-- ===== src/Dict/Add/Store.antt =====
-- The caller's store through the pointer that sxe_dict_add returns, and what sxe_dict_find then
-- returns.
use libsxe.Base.{
  ℕ, zero, suc, ◌+◌, ◌≤◌, ◌<◌, ◌≡◌, refl, sym, ap, ap₂, ◌∙◌, ◌≢◌, inl, inr, List, [], ◌∷◌, ◌++◌,
  Bool, true, false, reverse, ◌^◌, Bool-cases, arith, length, get_or, set, bytes_eq, bytes_eq→eq,
  bytes_eq_refl, get_or-set_self, if◌then◌else◌,
}
use libsxe.Dict.{
  Node, Chain, Dict, old_chains, append_node, add, store, store_chain, find, node_new, ensure_table,
}
use libsxe.Dict.Place.{values, bucket_of, IsValid}
use libsxe.Dict.Find.{first, find_whole}
use libsxe.Dict.Add.{HasRoom, Grown}
use libsxe.Dict.Add.Append.{
  stored_key, add_resizes, append-IsValid, append_values, grown, grown_lem, fresh, fresh_length,
  add_steps, count_kept, values-grown,
}

set-set {ℓ} : {A : Type ℓ} (xs : List A) (i : ℕ) (a b : A) → set (set xs i a) i b ≡ set xs i b
set-set [] i a b = refl
set-set (x ∷ xs) zero a b = refl
set-set (x ∷ xs) (suc i) a b = ap (◌∷◌ x) (set-set xs i a b)

store_chain-last :
    (c : Chain) (node : Node) (v : ℕ)
    → store_chain (c ++ node ∷ []) (length c) v ≡ c ++ record node { value = v } ∷ []
unfolding store_chain
store_chain-last [] node v = refl
store_chain-last (k ∷ ks) node v = ap (◌∷◌ k) (store_chain-last ks node v)

-- The slot is that of the node just appended: a store there is as if the node had had the value.
store-append :
    (d : Dict) (bucket : ℕ) (node : Node) (v : ℕ)
    → bucket < length (old_chains d.table)
    → store (append_node d bucket node).0 (append_node d bucket node).1 v
      ≡ (append_node d bucket (record node { value = v })).0
unfolding store append_node
store-append d bucket node v h =
    rw
      (
        get_or-set_self (old_chains d.table) bucket
            (get_or (old_chains d.table) bucket [] ++ node ∷ []) [] h,
        set-set,
        store_chain-last,
      )
      refl

module _ (dic : Dict) (key : List ℕ) (keyn : ℕ) (val : ℕ) (v : IsValid dic) (room : HasRoom dic)
    (whole : keyn ≤ length key) where
  d : Dict
  d = grown dic key keyn v room whole

  node : Node
  node = record (fresh dic key keyn v room whole) { value = val }

  d_lem : Grown (ensure_table dic) d
  unfolding d
  d_lem = grown_lem dic key keyn v room whole

  node_length : node.len ≡ length node.key
  unfolding node
  node_length = fresh_length dic key keyn v room whole

  d_count : d.count + 1 < 2 ^ 31
  unfolding d
  d_count = count_kept dic key keyn v room whole

  -- sxe_dict_add, and the caller's store through its result.
  abbrev pub added : Dict
  added = store (add dic key keyn).0 (add dic key keyn).1 val

  added_steps : added ≡ (append_node d (bucket_of node.key d.size) node).0
  unfolding d node
  added_steps = rw (add_steps dic key keyn v room whole) (
      store-append d (bucket_of node.key d.size) (fresh dic key keyn v room whole) val
        (omega (arith, d_lem.valid.buckets, d_lem.some_bucket)))

  -- An add and the store of a value leave the dictionary valid.
  pub added-IsValid : IsValid added
  added-IsValid =
      rw added_steps (append-IsValid d node d_lem.valid d_lem.some_bucket d_count node_length)

  pub values-added :
      (other : List ℕ)
      → values added other
        ≡ (if add_resizes dic key keyn then reverse (values dic other) else values dic other)
          ++ (if bytes_eq (stored_key key keyn) other then val ∷ [] else [])
  values-added other =
      rw (added_steps, append_values d node d_lem.valid d_lem.some_bucket d_count node_length other)
        (ap₂ ◌++◌ old new)
    where
      old :
          values d other
          ≡ (if add_resizes dic key keyn then reverse (values dic other) else values dic other)
      old = unfold d in values-grown dic key keyn v room whole other

      new :
          (if bytes_eq node.key other then node.value ∷ [] else [])
          ≡ (if bytes_eq (stored_key key keyn) other then val ∷ [] else [])
      new = unfold node fresh node_new in refl

first_of_new :
    (b : Bool) (vs : List ℕ) (val : ℕ)
    → vs ≡ []
    → first ((if b then reverse vs else vs) ++ val ∷ []) ≡ val
first_of_new true vs val e = rw e refl
first_of_new false vs val e = rw e refl

first_of_one :
    (b : Bool) (vs : List ℕ)
    → length vs ≤ 1
    → first ((if b then reverse vs else vs) ++ []) ≡ first vs
first_of_one b [] h = ground arith
first_of_one true (x ∷ []) h = refl
first_of_one false (x ∷ []) h = refl
first_of_one b (x ∷ y ∷ vs) h = absurd (omega arith)

-- In a valid dictionary with room, a key that is not there yet, added and given a value through the
-- returned pointer, is found with that value; the add may have resized the table.
pub find-add :
    (dic : Dict) (key : List ℕ) (keyn val : ℕ)
    → IsValid dic
    → HasRoom dic
    → keyn ≤ length key
    → values dic (stored_key key keyn) ≡ []
    → find
        (store (add dic key keyn).0 (add dic key keyn).1 val)
        (stored_key key keyn)
        (length (stored_key key keyn))
      ≡ val
find-add dic key keyn val v room whole absent =
    find_whole (added dic key keyn val v room whole) (stored_key key keyn)
      (added-IsValid dic key keyn val v room whole)
    ∙ rw
        (
          values-added dic key keyn val v room whole (stored_key key keyn),
          bytes_eq_refl (stored_key key keyn),
        )
        (first_of_new (add_resizes dic key keyn) (values dic (stored_key key keyn)) val absent)

-- Adding and storing leaves what sxe_dict_find returns for every other key that was added at most once.
pub find-add_other :
    (dic : Dict) (key : List ℕ) (keyn val : ℕ) (other : List ℕ)
    → IsValid dic
    → HasRoom dic
    → keyn ≤ length key
    → stored_key key keyn ≢ other
    → length (values dic other) ≤ 1
    → find (store (add dic key keyn).0 (add dic key keyn).1 val) other (length other)
      ≡ find dic other (length other)
find-add_other dic key keyn val other v room whole ne once =
    elim (Bool-cases (bytes_eq (stored_key key keyn) other)) [
      | inl e ↦ absurd (ne (bytes_eq→eq (stored_key key keyn) other e))
      | inr e ↦
          find_whole (added dic key keyn val v room whole) other
            (added-IsValid dic key keyn val v room whole)
          ∙ rw (values-added dic key keyn val v room whole other, e)
              (first_of_one (add_resizes dic key keyn) (values dic other) once)
          ∙ sym (find_whole dic other v)
    ]
