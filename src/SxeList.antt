-- ===== src/SxeList.antt =====
-- lib-sxe-list: a circular doubly linked list through nodes inside the caller's objects. Memory maps
-- an address to the SXE_LIST_NODE there; the sentinel is the first member of the list, so its
-- address is the list's. Pointers are kept relative to the list, as in SXE_PTR_REL of sxe-util.h.
-- A failed assertion ends the program: `none`. The debug assertions (SXEA6) are included.
pub mod Links
pub mod Insert
pub mod Remove
pub mod Walk
mod Tests
use libsxe.Base.{
  ℕ, zero, suc, ◌+◌, ◌-◌, ◌%◌, ◌^◌, ◌&&◌, ◌||◌, not, List, [], ◌∷◌, Option, none, some, Bool, ◌==◌,
  if◌then◌else◌,
}

-- `SXE_LIST_NODE`
pub record Cell : Type 0 where
  pub next : ℕ
  pub prev : ℕ
  pub id : ℕ

abbrev pub Memory : Type 0
Memory = ℕ → Cell

-- `SXE_LIST`: its address, under which the sentinel stands, and the other members.
pub record SxeList : Type 0 where
  pub base : ℕ
  pub length : ℕ
  pub offset : ℕ

-- `SXE_LIST_WALKER`
pub record Walker : Type 0 where
  pub back : ℕ
  pub node : ℕ

abbrev pub word : ℕ
word = 2 ^ 64

-- SXE_PTR_REL and SXE_PTR_FIX
unfoldable pub rel : ℕ → ℕ → ℕ
rel base p = (p + word - base) % word

unfoldable pub fix : ℕ → ℕ → ℕ
fix base r = (r + base) % word

abbrev pub null_rel : SxeList → ℕ
null_rel l = rel l.base 0

abbrev pub sentinel_rel : SxeList → ℕ
sentinel_rel l = rel l.base l.base

-- (char *)object + list->offset, and back
abbrev pub node_of : SxeList → ℕ → ℕ
node_of l object = (object + l.offset) % word

abbrev pub object_of : SxeList → ℕ → ℕ
object_of l node = (node + word - l.offset) % word

unfoldable pub set_next : Memory → ℕ → ℕ → Memory
set_next m p v q = if p == q then record (m q) { next = v } else m q

unfoldable pub set_prev : Memory → ℕ → ℕ → Memory
set_prev m p v q = if p == q then record (m q) { prev = v } else m q

unfoldable pub set_id : Memory → ℕ → ℕ → Memory
set_id m p v q = if p == q then record (m q) { id = v } else m q

-- An assertion in front of the rest.
abbrev pub assert {ℓ} : {A : Type ℓ} → Bool → Option A → Option A
assert b rest = if b then rest else none

infix 50 ◌!=◌
abbrev pub ◌!=◌ : ℕ → ℕ → Bool
a != b = not (a == b)

unfoldable pub construct : Memory → ℕ → ℕ → ℕ → Memory × SxeList
construct m base id offset = (
  set_id (set_prev (set_next m base (rel base base)) base (rel base base)) base id,
  record { base = base; length = 0; offset = offset },
)

unfoldable pub push : Memory → SxeList → ℕ → Memory × SxeList
push m l object =
    let node = node_of l object in
    let m1 = set_next m node (sentinel_rel l) in
    let m2 = set_prev m1 node (m1 l.base).prev in
    let m3 = set_prev m2 l.base (rel l.base node) in
    let m4 = set_next m3 (fix l.base (m3 node).prev) (rel l.base node) in
    let m5 = set_id m4 node (m4 l.base).id in (m5, record l { length = (l.length + 1) % 2 ^ 32 })

unfoldable pub unshift : Memory → SxeList → ℕ → Memory × SxeList
unshift m l object =
    let node = node_of l object in
    let m1 = set_prev m node (sentinel_rel l) in
    let m2 = set_next m1 node (m1 l.base).next in
    let m3 = set_next m2 l.base (rel l.base node) in
    let m4 = set_prev m3 (fix l.base (m3 node).next) (rel l.base node) in
    let m5 = set_id m4 node (m4 l.base).id in (m5, record l { length = (l.length + 1) % 2 ^ 32 })

-- The writes of sxe_list_remove, behind its assertions.
unfoldable pub unlink : Memory → SxeList → ℕ → Memory
unlink m l node =
    let m1 = set_prev m (fix l.base (m node).next) (m node).prev in
    let m2 = set_next m1 (fix l.base (m1 node).prev) (m1 node).next in
    set_next (set_prev m2 node (null_rel l)) node (null_rel l)

unfoldable pub remove : Memory → SxeList → ℕ → Option (Memory × SxeList × ℕ)
remove m l object =
    let node = node_of l object in
    let head = (m l.base).next in
    let tail = (m l.base).prev in
    assert (head != sentinel_rel l && tail != sentinel_rel l) (
      assert (head != sentinel_rel l || tail != sentinel_rel l) (
        assert ((m node).id == (m l.base).id) (
          assert ((m node).next != null_rel l && (m node).prev != null_rel l) (
            some (unlink m l node, record l { length = (l.length + word - 1) % 2 ^ 32 }, object)))))

-- `none` where an assertion fails; the number is the object, 0 for NULL.
unfoldable pub pop : Memory → SxeList → Option (Memory × SxeList × ℕ)
pop m l =
    let node = fix l.base (m l.base).prev in
    if node == l.base
    then assert ((m l.base).next == sentinel_rel l) (some (m, l, 0))
    else remove m l (object_of l node)

unfoldable pub shift : Memory → SxeList → Option (Memory × SxeList × ℕ)
shift m l =
    let node = fix l.base (m l.base).next in
    if node == l.base
    then assert ((m l.base).prev == sentinel_rel l) (some (m, l, 0))
    else remove m l (object_of l node)

unfoldable pub peek_head : Memory → SxeList → Option ℕ
peek_head m l =
    let head = (m l.base).next in
    let tail = (m l.base).prev in
    let node = fix l.base head in
    if head == sentinel_rel l
    then assert (tail == sentinel_rel l) (some 0)
    else assert (tail != sentinel_rel l) (
        assert ((m node).prev == sentinel_rel l) (
          assert ((m node).id == (m l.base).id)
            (assert ((m (fix l.base tail)).next == sentinel_rel l) (some (object_of l node)))))

unfoldable pub peek_tail : Memory → SxeList → Option ℕ
peek_tail m l =
    let head = (m l.base).next in
    let tail = (m l.base).prev in
    let node = fix l.base tail in
    if tail == sentinel_rel l
    then assert (head == sentinel_rel l) (some 0)
    else assert (head != sentinel_rel l) (
        assert ((m node).next == sentinel_rel l) (
          assert ((m node).id == (m l.base).id)
            (assert ((m (fix l.base head)).prev == sentinel_rel l) (some (object_of l node)))))

unfoldable pub walker_construct : SxeList → Walker
walker_construct l = record { back = l.base; node = l.base }

unfoldable pub walker_back : SxeList → Walker → Walker × ℕ
walker_back l w =
    if w.back != l.base
    then (record { node = w.back; back = l.base }, object_of l w.back)
    else (w, 0)

unfoldable pub walker_find : SxeList → Walker → ℕ
walker_find l w = if w.node != l.base then object_of l w.node else 0

unfoldable pub walker_step : Memory → SxeList → Walker → Walker × ℕ
walker_step m l w =
    let node = fix l.base (m w.node).next in
    (record { back = w.node; node = node }, if node != l.base then object_of l node else 0)
