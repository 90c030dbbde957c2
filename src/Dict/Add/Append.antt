-- ===== src/Dict/Add/Append.antt =====
-- sxe_dict_add as a whole: the dictionary stays valid, and the key gets one more value, NULL.
use libsxe.Base.{
  ℕ, ◌+◌, ◌*◌, ◌%◌, ◌^◌, ◌≤◌, ◌<◌, ◌≡◌, refl, sym, ap, ap₂, ◌∙◌, ◌≢◌, inl, inr, List, [], ◌∷◌, ◌++◌,
  Option, none, some, Bool, reverse, Bool-cases, arith, length, get_or, set, take, bytes_eq,
  bytes_eq→eq, length-take, length-set, length-append, if◌then◌else◌, append-nil, strlen-le-length,
}
use native.Mathlib.Decide.{ℕ_discrete}
use libsxe.Dict.{
  Node, Chain, Dict, old_chains, node_new, ensure_table, key_length, grow_when_loaded, append_node,
  add,
}
use libsxe.Dict.Hash.{meiyan}
use libsxe.Dict.Hash.Prefix.{meiyan-take}
use libsxe.Dict.Place.{
  chain_values, values, bucket_of, ChainIn, IsValid, ChainIn-get, TableIn-set, table_count-set,
  chain_values-append, ChainIn-append, table_values-set_self, table_values-set_ne,
  table_values_bucket,
}
use libsxe.Dict.Add.{
  HasRoom, Grown, ensure_by_table, ensure_values, resizes, grow-Grown, grow_values,
}

-- The key that the node of sxe_dict_add gets: `keyn` bytes, or the C string if `keyn` is 0.
abbrev pub stored_key : List ℕ → ℕ → List ℕ
stored_key key keyn = take (key_length key keyn) key

pub length-stored_key :
    (key : List ℕ) (keyn : ℕ)
    → keyn ≤ length key
    → length (stored_key key keyn) ≡ key_length key keyn
unfolding key_length
length-stored_key key keyn h =
    ground (arith, length-take (key_length key keyn) key, strlen-le-length key)

ensure_room :
    (dic : Dict) (o : Option (List Chain))
    → HasRoom dic
    → let d = ensure_table (record dic { table = o }) in
      (0 < d.growth) × (d.size * d.growth < 2 ^ 31)
unfolding ensure_table
ensure_room dic none room = (room.grows, omega (arith, room.growth_fits))
ensure_room dic (some t) room = (room.grows, room.size_fits)

-- What a new node at the end of its bucket's chain does, in a table with a bucket.
module _ (d : Dict) (node : Node) (v : IsValid d) (b : 0 < d.size) (fits : d.count + 1 < 2 ^ 31)
    (l : node.len ≡ length node.key) where
  own : ℕ
  own = bucket_of node.key d.size

  own-lt : own < d.size
  unfolding own
  own-lt = omega arith

  grown_chain : Chain
  grown_chain = get_or (old_chains d.table) own [] ++ node ∷ []

  own-ChainIn : ChainIn d.size own (get_or (old_chains d.table) own [])
  own-ChainIn = ChainIn-get d.size 0 own own (old_chains d.table) v.placed (omega arith)

  grown-ChainIn : ChainIn d.size own grown_chain
  unfolding own grown_chain
  grown-ChainIn = ChainIn-append d.size own _ (node ∷ []) own-ChainIn (l, refl, tt)

  pub append-IsValid : IsValid (append_node d (bucket_of node.key d.size) node).0
  unfolding append_node own grown_chain
  append-IsValid = record {
    buckets = length-set (old_chains d.table) own grown_chain ∙ v.buckets;
    counted = omega (
      arith,
      table_count-set (old_chains d.table) own grown_chain (omega (arith, v.buckets, own-lt)),
      length-append (get_or (old_chains d.table) own []) (node ∷ []),
      v.counted,
    );
    placed =
        TableIn-set d.size 0 own own (old_chains d.table) grown_chain v.placed (omega arith)
          grown-ChainIn;
    nonempty = λ e. not_empty (cc);
  }
    where
      not_empty : set (old_chains d.table) own grown_chain ≢ []
      not_empty e = absurd (
          omega (
            arith,
            ap (λ t. length t) e,
            length-set (old_chains d.table) own grown_chain,
            v.buckets,
          ))

  pub append_values :
      (key : List ℕ)
      → values (append_node d (bucket_of node.key d.size) node).0 key
        ≡ values d key ++ (if bytes_eq node.key key then node.value ∷ [] else [])
  unfolding append_node own grown_chain
  append_values key = elim (ℕ_discrete (bucket_of key d.size) own) [
    | yes e ↦
        table_values-set_self d.size (old_chains d.table) own grown_chain key v.placed grown-ChainIn
          v.buckets own-lt e
        ∙ chain_values-append key (get_or (old_chains d.table) own []) (node ∷ [])
        ∙ ap (λ r. r ++ (if bytes_eq node.key key then node.value ∷ [] else [])) (sym (here e))
    | no ne ↦
        table_values-set_ne d.size (old_chains d.table) own grown_chain key v.placed grown-ChainIn
          v.buckets own-lt ne
        ∙ sym (away ne)
  ]
    where
      here :
          bucket_of key d.size ≡ own
          → values d key ≡ chain_values key (get_or (old_chains d.table) own [])
      here e =
          table_values_bucket d.size 0 own key (old_chains d.table) v.placed (omega arith)
            (omega (arith, v.buckets, own-lt))

      away :
          bucket_of key d.size ≢ own
          → values d key ++ (if bytes_eq node.key key then node.value ∷ [] else []) ≡ values d key
      away ne = elim (Bool-cases (bytes_eq node.key key)) [
        | inl h ↦ absurd (ne (ap (λ k. bucket_of k d.size) (sym (bytes_eq→eq node.key key h))))
        | inr h ↦ rw h (append-nil (values d key))
      ]

hash_stored :
    (key : List ℕ) (keyn size : ℕ)
    → keyn ≤ length key
    → meiyan key (key_length key keyn) % size ≡ bucket_of (stored_key key keyn) size
hash_stored key keyn size h =
    rw (length-stored_key key keyn h, meiyan-take key (key_length key keyn)) refl

-- Whether the add resizes the table.
abbrev pub add_resizes : Dict → List ℕ → ℕ → Bool
add_resizes dic key keyn =
    let d = ensure_table dic in resizes d (meiyan key (key_length key keyn) % d.size)

module _ (dic : Dict) (key : List ℕ) (keyn : ℕ) (v : IsValid dic) (room : HasRoom dic)
    (whole : keyn ≤ length key) where
  pub ensured : Grown dic (ensure_table dic)
  ensured = ensure_by_table dic dic.table v

  room_kept :
      (0 < (ensure_table dic).growth)
      × ((ensure_table dic).size * (ensure_table dic).growth < 2 ^ 31)
  room_kept = ensure_room dic dic.table room

  abbrev key_bucket : ℕ
  key_bucket = meiyan key (key_length key keyn) % (ensure_table dic).size

  unfoldable pub grown : Dict
  grown = grow_when_loaded (ensure_table dic) key_bucket

  pub grown_lem : Grown (ensure_table dic) grown
  unfolding grown
  grown_lem =
      grow-Grown (ensure_table dic) key_bucket ensured.valid ensured.some_bucket room_kept.0
        room_kept.1

  unfoldable pub fresh : Node
  fresh = node_new key (key_length key keyn)

  pub fresh_length : fresh.len ≡ length fresh.key
  unfolding fresh node_new
  fresh_length = sym (length-stored_key key keyn whole)

  pub add_steps : add dic key keyn ≡ append_node grown (bucket_of fresh.key grown.size) fresh
  unfolding add grown fresh node_new
  add_steps = ap (λ b. append_node grown b fresh) (hash_stored key keyn grown.size whole)

  pub count_kept : grown.count + 1 < 2 ^ 31
  count_kept = omega (arith, grown_lem.same_count, ensured.same_count, room.entries)

  -- Adding a key whose bytes are all there to a valid dictionary with room leaves it valid: the new
  -- node is counted, and every node stands in the bucket of its key's hash, after a resize as well.
  pub add-IsValid : IsValid (add dic key keyn).0
  add-IsValid =
      rw add_steps
        (append-IsValid grown fresh grown_lem.valid grown_lem.some_bucket count_kept fresh_length)

  pub values-grown :
      (other : List ℕ)
      → values grown other
        ≡ (if add_resizes dic key keyn then reverse (values dic other) else values dic other)
  unfolding grown
  values-grown other =
      grow_values (ensure_table dic) key_bucket ensured.valid ensured.some_bucket room_kept.0
        room_kept.1 other
      ∙ rw (ensure_values dic dic.table other) refl

  -- Adding a key to a valid dictionary with room puts one more value, NULL, behind the values of that
  -- key, also when the key was there before, and changes the values of no other key; where the add
  -- resizes the table, the older values of each key are reversed.
  pub values-add :
      (other : List ℕ)
      → values (add dic key keyn).0 other
        ≡ (if add_resizes dic key keyn then reverse (values dic other) else values dic other)
          ++ (if bytes_eq (stored_key key keyn) other then 0 ∷ [] else [])
  values-add other =
      rw
        (
          add_steps,
          append_values grown fresh grown_lem.valid grown_lem.some_bucket count_kept fresh_length,
        )
        (ap₂ ◌++◌ (values-grown other) fresh_value)
    where
      fresh_value :
          (if bytes_eq fresh.key other then fresh.value ∷ [] else [])
          ≡ (if bytes_eq (stored_key key keyn) other then 0 ∷ [] else [])
      fresh_value = unfold fresh node_new in refl
