-- ===== src/Dict/Tests.antt =====
-- The run of test-sxe-dict.c, and the dictionary's theorems at its keys.
use libsxe.Base.{bytes_eq, strlen, ℕ, ◌≡◌, refl, List, [], ◌∷◌, arith, reverse, take}
use libsxe.Dict.{
  Dict, new, add, store, store_chain, find, chain_find, resize, node_new, ensure_table, key_length,
  grow_when_loaded, append_node, current_load, reinsert_table, reinsert_chain,
  reinsert_when_resizing,
}
use libsxe.Dict.Hash.{meiyan}
use libsxe.Dict.Place.{values, IsValid}
use libsxe.Dict.Resize.Whole.{values-resize}
use libsxe.Dict.Add.{HasRoom, resizes}
use libsxe.Dict.Add.Append.{add-IsValid}
use libsxe.Dict.Add.Store.{find-add, added-IsValid}
use libsxe.Dict.Find.{first, find-first}
use libsxe.Dict.Each.{new-IsValid}

abbrev abc : List ℕ
abc = 65 ∷ 66 ∷ 67 ∷ 0 ∷ []

abbrev de : List ℕ
de = 68 ∷ 69 ∷ []

-- The steps of the test: ABC is added with the value 100, then DE with 200.
with_abc : Dict
unfolding new add store store_chain node_new ensure_table key_length grow_when_loaded append_node
    current_load resize reinsert_table reinsert_chain reinsert_when_resizing meiyan chain_find find
    bytes_eq strlen resizes
with_abc = let (d, s) = add (new 0) abc 3 in store d s 100

with_de : Dict
unfolding with_abc
with_de = let (d, s) = add with_abc de 2 in store d s 200

run_sizes : (with_abc.size ≡ 1) × (with_de.size ≡ 2) × (with_de.count ≡ 2)
unfolding with_de
run_sizes = (refl, refl, refl)

run_finds : (find with_de abc 3 ≡ 100) × (find with_de de 2 ≡ 200) × (find with_de abc 0 ≡ 0)
unfolding with_de
run_finds = (refl, refl, refl)

new_room : HasRoom (new 0)
unfolding new
new_room = omega arith

with_abc-IsValid : IsValid with_abc
unfolding with_abc
with_abc-IsValid = added-IsValid (new 0) abc 3 100 (new-IsValid 0 []).0 new_room (omega arith)

abc_room : HasRoom with_abc
unfolding with_abc
abc_room = omega arith

find-first_example : find with_abc abc 3 ≡ first (values with_abc (take 3 abc))
find-first_example = find-first with_abc abc 3 with_abc-IsValid (omega arith)

values-resize_example :
    values (resize with_abc 2) (take 3 abc) ≡ reverse (values with_abc (take 3 abc))
values-resize_example = values-resize with_abc 2 with_abc-IsValid (omega arith) (take 3 abc)

add-IsValid_example : IsValid (add with_abc de 2).0
add-IsValid_example = add-IsValid with_abc de 2 with_abc-IsValid abc_room (omega arith)

find-add_example : find with_de de 2 ≡ 200
unfolding with_de
find-add_example = find-add with_abc de 2 200 with_abc-IsValid abc_room (omega arith) refl
