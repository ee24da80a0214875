-- ===== src/PortSort.antt =====
-- The list of ports by falling speed, src/CaptureDpdk/structure.c: nodes on an explicit heap, since
-- `addNode` receives the caller's head pointer by value. A node's address is its place in the heap;
-- `malloc` takes the next free one and does not fail. `free` is never called.
pub mod Chain
pub mod Insert
pub mod Visible
use platform.Common.{ℕ, zero, suc, ◌%◌, ◌^◌, Option, none, some, List, [], ◌∷◌, ◌++◌}
use platform.Common.{Outcome, ok, fault, ◌>>=◌, expect, length, get_elem?, set, if◌then◌else◌}
use platform.Common.Int.{ℤ, negsuc, ltb_ℤ, unsigned}

-- `port_sort`; `next` is an address, `none` for NULL.
pub record Node : Type 0 where
  pub speed : ℤ
  pub port_number : ℕ
  pub next : Option ℕ

abbrev pub Heap : Type 0
Heap = List Node

-- A read through a pointer.
abbrev pub node : Heap → ℕ → Outcome Node
node h a = expect (get_elem? h a)

-- The new heap and the address of the new node. `port_number` is a `uint8_t`.
unfoldable pub creat_node : Heap → ℤ → ℤ → Heap × ℕ
creat_node h speed port_id =
    (h ++ record { speed = speed; port_number = unsigned 8 port_id; next = none } ∷ [], length h)

-- `newnode->next = pre->next; pre->next = newnode;`
pub link : Heap → ℕ → ℕ → Outcome Heap
link h pre new = do
  p ← node h pre
  n ← node h new
  let h1 = set h new (record n { next = p.next })
  q ← node h1 pre
  ok (set h1 pre (record q { next = some new }))

-- The loop of `addNode` with `cur` and `pre`, and the two writes after it. Fuel that runs out is a
-- list that does not end.
pub splice : ℕ → Heap → Option ℕ → ℕ → ℕ → Outcome Heap
splice zero h cur pre new = fault
splice (suc fuel) h none pre new = link h pre new
splice (suc fuel) h (some c) pre new =
    let advance = (do
      n ← node h c
      p ← node h pre
      pre' ← expect p.next
      splice fuel h n.next pre' new) in
    do n ← node h c; m ← node h new; if ltb_ℤ m.speed n.speed then advance else link h pre new

-- The list has no more nodes than the heap, which bounds the rounds. The changed head,
-- `sort = dummy->next`, is a local variable of the function and is dropped.
pub add_node : Heap → Option ℕ → ℤ → ℤ → Outcome Heap
add_node h sort speed port_id =
    let (h1, newnode) = creat_node h speed port_id in
    let (h2, dummy) = creat_node h1 (negsuc 0) (negsuc 0) in
    do
      d ← node h2 dummy
      splice (suc (length h)) (set h2 dummy (record d { next = sort })) sort dummy newnode
