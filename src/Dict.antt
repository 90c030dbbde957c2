-- ===== src/Dict.antt =====
-- lib-sxe-dict/sxe-dict.c: a hash table with chains. A chain (`node->next`) is a list, since each
-- node is linked from one place; `char *key` is the list of the bytes from the pointer on.
pub mod Hash
pub mod Place
pub mod Resize
pub mod Add
pub mod Find
pub mod Each
mod Tests
use libsxe.Base.{
  ℕ, zero, suc, ◌+◌, ◌*◌, ◌/◌, ◌%◌, ◌^◌, ◌&&◌, List, [], ◌∷◌, ◌++◌, Option, none, some, Bool, true,
  false, ◌==◌, leb, if◌then◌else◌, length, get_or, set, take, replicate, bytes_eq, strlen,
}
use Hash.{meiyan}

-- `struct sxe_dict_node` without `next`. A `void *` value is a number, NULL is 0.
pub record Node : Type 0 where
  pub key : List ℕ
  pub len : ℕ
  pub value : ℕ

abbrev pub Chain : Type 0
Chain = List Node

-- `struct sxe_dict`; `none` is the NULL table.
pub record Dict : Type 0 where
  pub table : Option (List Chain)
  pub size : ℕ
  pub count : ℕ
  pub load : ℕ
  pub growth : ℕ

-- The bucket and the position in its chain that `const void **` points to.
pub record Slot : Type 0 where
  pub bucket : ℕ
  pub position : ℕ

-- unsigned arithmetic
abbrev pub u32 : ℕ → ℕ
u32 n = n % 2 ^ 32

unfoldable pub node_new : List ℕ → ℕ → Node
node_new k l = record { key = take l k; len = l; value = 0 }

unfoldable pub new : ℕ → Dict
new initial_size = record {
  table = if initial_size == 0 then none else some (replicate initial_size []);
  size = initial_size;
  count = 0;
  load = 100;
  growth = 2;
}

-- `dic` is the table and its size.
unfoldable pub reinsert_when_resizing : List Chain → ℕ → Node → List Chain
reinsert_when_resizing t size k2 =
    let n = meiyan k2.key k2.len % size in
    elim (get_or t n []) [ [] ↦ set t n (k2 ∷ []) | k ∷ ks ↦ set t n (k2 ∷ k ∷ ks) ]

-- The `while (k)` loop of sxe_dict_resize, over one old chain.
unfoldable pub reinsert_chain : List Chain → ℕ → Chain → List Chain
reinsert_chain t size [] = t
reinsert_chain t size (k ∷ ks) = reinsert_chain (reinsert_when_resizing t size k) size ks

-- The `for` loop of sxe_dict_resize, over the old table.
unfoldable pub reinsert_table : List Chain → ℕ → List Chain → List Chain
reinsert_table t size [] = t
reinsert_table t size (c ∷ cs) = reinsert_table (reinsert_chain t size c) size cs

abbrev pub old_chains : Option (List Chain) → List Chain
old_chains none = []
old_chains (some t) = t

unfoldable pub resize : Dict → ℕ → Dict
resize dic newsize = record dic {
  table = some (reinsert_table (replicate newsize []) newsize (old_chains dic.table));
  size = newsize;
}

-- The table that a completely empty dictionary gets.
unfoldable pub ensure_table : Dict → Dict
ensure_table dic = elim dic.table [
  | none ↦ record dic { table = some ([] ∷ []); size = 1 }
  | some t ↦ dic
]

-- `keyn ?: strlen(key)`
unfoldable pub key_length : List ℕ → ℕ → ℕ
key_length key keyn = if keyn == 0 then strlen key else keyn

-- The `unsigned load` of the dictionary, in percent.
unfoldable pub current_load : Dict → ℕ
current_load dic = u32 (dic.count * 100) / dic.size

-- The resize that a new entry in a used bucket may cause.
unfoldable pub grow_when_loaded : Dict → ℕ → Dict
grow_when_loaded dic bucket = elim (get_or (old_chains dic.table) bucket []) [
  | [] ↦ dic
  | k ∷ ks ↦
      if leb dic.load (current_load dic) then resize dic (u32 (dic.size * dic.growth)) else dic
]

-- The `for (link = ...)` walk to the end of the chain, and the new node there.
unfoldable pub append_node : Dict → ℕ → Node → Dict × Slot
append_node dic bucket node =
    let t = old_chains dic.table in
    let chain = get_or t bucket [] in
    (
      record dic { table = some (set t bucket (chain ++ node ∷ [])); count = u32 (dic.count + 1) },
      record { bucket = bucket; position = length chain },
    )

unfoldable pub add : Dict → List ℕ → ℕ → Dict × Slot
add dic key keyn =
    let n = key_length key keyn in
    let d = ensure_table dic in
    let hash = meiyan key n in
    let d' = grow_when_loaded d (hash % d.size) in append_node d' (hash % d'.size) (node_new key n)

-- The `while (k)` loop of sxe_dict_find.
unfoldable pub chain_find : Chain → List ℕ → ℕ → ℕ
chain_find [] key keyn = 0
chain_find (k ∷ ks) key keyn =
    if k.len == keyn && bytes_eq (take keyn k.key) (take keyn key)
    then k.value
    else chain_find ks key keyn

unfoldable pub find : Dict → List ℕ → ℕ → ℕ
find dic key keyn = elim dic.table [
  | none ↦ 0
  | some t ↦ chain_find (get_or t (meiyan key keyn % dic.size) []) key keyn
]

-- The caller's `*value_ptr = v`, before the next call that may move nodes.
unfoldable pub store_chain : Chain → ℕ → ℕ → Chain
store_chain [] i v = []
store_chain (k ∷ ks) zero v = record k { value = v } ∷ ks
store_chain (k ∷ ks) (suc i) v = k ∷ store_chain ks i v

unfoldable pub store : Dict → Slot → ℕ → Dict
store dic s v =
    let t = old_chains dic.table in
    record dic { table = some (set t s.bucket (store_chain (get_or t s.bucket []) s.position v)) }

-- sxe_dict_forEach: the callback may write the value and says whether to go on; `U` is what it
-- keeps in `user`.
module _ {U : Type 0} (f : List ℕ → ℕ → ℕ → U → Bool × ℕ × U) where
  unfoldable pub for_each_chain : Chain → U → Bool × Chain × U
  for_each_chain [] user = (true, [], user)
  for_each_chain (k ∷ ks) user =
      let (more, value, user') = f k.key k.len k.value user in
      let (more', ks', user'') = for_each_chain ks user' in
      if more
      then (more', record k { value = value } ∷ ks', user'')
      else (false, record k { value = value } ∷ ks, user')

  unfoldable pub for_each_table : List Chain → U → List Chain × U
  for_each_table [] user = ([], user)
  for_each_table (c ∷ cs) user =
      let (more, c', user') = for_each_chain c user in
      let (cs', user'') = for_each_table cs user' in
      if more then (c' ∷ cs', user'') else (c' ∷ cs, user')
