-- ===== src/Dict/Find.antt =====
-- sxe_dict_find: what it returns for a key in terms of the values that the dictionary holds.
use libsxe.Base.{
  take-take, length-take, ◌≤◌, ℕ, ◌%◌, ◌≡◌, refl, sym, ap, ◌∙◌, ◌&&◌, inl, inr, List, [], ◌∷◌,
  Option, none, some, false, Bool-cases, arith, length, get_or, take, bytes_eq, bytes_eq→eq,
  take_all, ◌==◌, ==_iff,
}
use libsxe.Dict.{Node, Chain, Dict, chain_find, find}
use libsxe.Dict.Hash.{meiyan}
use libsxe.Dict.Hash.Prefix.{meiyan-take}
use libsxe.Dict.Place.{
  chain_values, table_values, values, bucket_of, ChainIn, IsValid, table_values_bucket, ChainIn-get,
}

-- The first value, or NULL where there is none.
abbrev pub first : List ℕ → ℕ
first [] = 0
first (v ∷ vs) = v

-- The length test and the memcmp together tell whether the keys are equal.
same_key :
    (k : Node) (key : List ℕ)
    → k.len ≡ length k.key
    → (k.len == length key && bytes_eq (take (length key) k.key) (take (length key) key))
      ≡ bytes_eq k.key key
same_key k key l = elim (Bool-cases (k.len == length key)) [
  | inl e ↦ rw e (shorten ((==_iff k.len (length key)).0 e))
  | inr ne ↦ rw ne (longer ne)
]
  where
    shorten :
        k.len ≡ length key
        → bytes_eq (take (length key) k.key) (take (length key) key) ≡ bytes_eq k.key key
    shorten e =
        rw (take_all (length key) k.key (omega arith), take_all (length key) key (omega arith)) refl

    longer : (k.len == length key) ≡ false → false ≡ bytes_eq k.key key
    longer ne = elim (Bool-cases (bytes_eq k.key key)) [
      | inl e ↦ ground (arith, ap (λ b. length b) (bytes_eq→eq k.key key e))
      | inr e ↦ sym e
    ]

chain_find-first :
    (size i : ℕ) (c : Chain) (key : List ℕ)
    → ChainIn size i c
    → chain_find c key (length key) ≡ first (chain_values key c)
unfolding chain_find
chain_find-first size i [] key p = refl
chain_find-first size i (k ∷ ks) key p =
    rw (same_key k key p.0) (elim (Bool-cases (bytes_eq k.key key)) [
      | inl e ↦ rw e refl
      | inr e ↦ rw e (chain_find-first size i ks key p.2)
    ])

find_in_table :
    (dic : Dict) (t : List Chain) (key : List ℕ)
    → IsValid (record dic { table = some t })
    → chain_find (get_or t (meiyan key (length key) % dic.size) []) key (length key)
      ≡ first (table_values key t)
find_in_table dic [] key v = absurd (v.nonempty refl)
find_in_table dic (c ∷ cs) key v =
    chain_find-first dic.size (bucket_of key dic.size) (get_or (c ∷ cs) (bucket_of key dic.size) [])
      key
      (ChainIn-get dic.size 0 (bucket_of key dic.size) (bucket_of key dic.size) (c ∷ cs) v.placed
        (omega arith))
    ∙ ap first (
        sym (
          table_values_bucket dic.size 0 (bucket_of key dic.size) key (c ∷ cs) v.placed
            (omega arith) (omega (arith, v.buckets))))

find_by_table :
    (dic : Dict) (o : Option (List Chain)) (key : List ℕ)
    → IsValid (record dic { table = o })
    → find (record dic { table = o }) key (length key)
      ≡ first (values (record dic { table = o }) key)
unfolding find
find_by_table dic none key v = refl
find_by_table dic (some t) key v = find_in_table dic t key v

pub find_whole :
    (dic : Dict) (key : List ℕ) → IsValid dic → find dic key (length key) ≡ first (values dic key)
find_whole dic key v = find_by_table dic dic.table key v

chain_find-take :
    (c : Chain) (key : List ℕ) (keyn : ℕ)
    → chain_find c (take keyn key) keyn ≡ chain_find c key keyn
unfolding chain_find
chain_find-take [] key keyn = refl
chain_find-take (k ∷ ks) key keyn = rw (take-take keyn key, chain_find-take ks key keyn) refl

find-take :
    (dic : Dict) (o : Option (List Chain)) (key : List ℕ) (keyn : ℕ)
    → find (record dic { table = o }) (take keyn key) keyn
      ≡ find (record dic { table = o }) key keyn
unfolding find
find-take dic none key keyn = refl
find-take dic (some t) key keyn =
    rw meiyan-take (chain_find-take (get_or t (meiyan key keyn % dic.size) []) key keyn)

-- In a valid dictionary, sxe_dict_find with `keyn` bytes of a key returns the first of all the values
-- that the dictionary holds for those bytes, in whatever bucket, and NULL if there is none. So a call
-- with `keyn` 0 looks for the empty key.
pub find-first :
    (dic : Dict) (key : List ℕ) (keyn : ℕ)
    → IsValid dic
    → keyn ≤ length key
    → find dic key keyn ≡ first (values dic (take keyn key))
find-first dic key keyn v h =
    sym (find-take dic dic.table key keyn)
    ∙ ap (find dic (take keyn key)) short
    ∙ find_whole dic (take keyn key) v
  where
    short : keyn ≡ length (take keyn key)
    short = omega (arith, length-take keyn key)
