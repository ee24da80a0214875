-- ===== src/Choice/Rings.antt =====
-- `get_port_speed` and `get_port_ringnum`: the rings of each port by its weight, dealt out in turn
-- along the list of ports where the weight does not divide them. What `rte_eth_link_get` says of a
-- port's speed is a parameter. `rte_exit` is `exited`.
pub mod Deal
pub mod Visit
pub mod Total
use platform.Common.{ℕ, zero, suc, ◌+◌, ◌%◌, ◌^◌, Option, none, some, Bool, true, false}
use platform.Common.{
  Outcome, ok, exited, fault, ◌>>=◌, expect, load, store, ltb, ◌==◌, if◌then◌else◌,
}
use platform.Common.{List, []}
use platform.Common.Int.{ℤ, pos, negsuc, eqb_ℤ, signed32, unsigned}
use platform.Double.{Double}
use platform.PortTable.{Uthash, find_weight, or_else}
use platform.PortSort.{Node, Heap, node, creat_node, add_node}
use platform.Device.{Context, port_size}

-- `link.link_speed`, a `uint32_t`; the port is a `uint8_t`.
unfoldable pub get_port_speed : (ℕ → ℕ) → ℕ → ℕ
get_port_speed link_speed port_id = link_speed (port_id % 2 ^ 8) % 2 ^ 32

-- `n` rounds of `port_ringnum[cur->port_number]++` with `cur` going round the list from `sort`.
pub deal : ℕ → Heap → Option ℕ → Option ℕ → (ℕ → ℕ) → Outcome (ℕ → ℕ)
deal zero h sort cur rings = ok rings
deal (suc n) h sort none rings = fault
deal (suc n) h sort (some c) rings = do
  x ← node h c
  v ← load port_size rings x.port_number
  rings' ← store port_size rings x.port_number ((v + 1) % 2 ^ 16)
  deal n h sort (elim x.next [ none ↦ sort | some y ↦ some y ]) rings'

-- `a % b` on `int`.
pub rem_int : ℤ → ℤ → Outcome ℤ
rem_int a (pos zero) = fault
rem_int (pos n) (pos (suc m)) = ok (pos (n % suc m))
rem_int (negsuc n) (pos (suc m)) = ok (elim (suc n % suc m) [ zero ↦ pos 0 | suc r ↦ negsuc r ])
rem_int (pos n) (negsuc m) = ok (pos (n % suc m))
rem_int (negsuc n) (negsuc m) = ok (elim (suc n % suc m) [ zero ↦ pos 0 | suc r ↦ negsuc r ])

-- The local variables of the first loop of `get_port_ringnum`. `sort` is NULL until the first port
-- is seen.
pub record Scan (d : Double) : Type 0 where
  pub heap : Heap
  pub sort : Option ℕ
  pub weight : ℤ
  pub weight_sum : d.Num

module _ (d : Double) (u : Uthash d) (table : u.Table) (link_speed : ℕ → ℕ) where
  open d use {Num, from_int, to_int, to_u16}

  -- `speed` and `weight` of the port at a place of `port_list`.
  unfoldable pub int_speed : ℕ → ℤ
  int_speed t = signed32 (get_port_speed link_speed t)

  unfoldable pub int_weight : ℕ → ℤ
  int_weight t = to_int (find_weight d u table (int_speed t))

  -- One round of the first loop.
  pub scan_port : Context → ℕ → Scan d → Outcome (Scan d)
  scan_port ctx portid s = do
    listed ← load port_size ctx.port_list portid
    let t = listed % 2 ^ 8
    let weight = int_weight t
    let sum = d.add s.weight_sum (from_int weight)
    if eqb_ℤ weight (negsuc 0)
        then exited
        else if portid == 0
        then (let (h, a) = creat_node s.heap (int_speed t) (pos t) in
            ok (record { heap = h; sort = some a; weight = weight; weight_sum = sum }))
        else (do
          h ← add_node s.heap s.sort (int_speed t) (pos t)
          ok (record { heap = h; sort = s.sort; weight = weight; weight_sum = sum }))

  pub scan : ℕ → Context → ℕ → Scan d → Outcome (Scan d)
  scan zero ctx portid s = ok s
  scan (suc left) ctx portid s = do s' ← scan_port ctx portid s; scan left ctx (portid + 1) s'

  -- The loop that gives each port its share of the rings by weight.
  pub shares : ℕ → Context → ℕ → Num → (ℕ → ℕ) → Outcome (ℕ → ℕ)
  shares zero ctx portid weight_sum rings = ok rings
  shares (suc left) ctx portid weight_sum rings = do
    listed ← load port_size ctx.port_list portid
    let t = listed % 2 ^ 8
    n ←
        expect (
          to_u16 (d.mul (d.div (from_int (int_weight t)) weight_sum) (from_int (pos ctx.ring_num))))
    rings' ← store port_size rings t n
    shares left ctx (portid + 1) weight_sum rings'

  -- What the shares leave over, dealt out in turn. A negative remainder would run the counter down
  -- past the least `int`.
  pub rest_rings : Context → Scan d → (ℕ → ℕ) → Outcome (ℕ → ℕ)
  rest_rings ctx s rings = do
    m ← rem_int (signed32 ctx.ring_num) (to_int s.weight_sum)
    elim m [ pos n ↦ deal n s.heap s.sort s.sort rings | negsuc n ↦ fault ]

  pub get_port_ringnum : Context → Outcome Context
  get_port_ringnum ctx = if ltb ctx.ring_num ctx.port_num then exited else (do
    s ←
        scan ctx.port_num ctx 0
          (record { heap = []; sort = none; weight = pos 0; weight_sum = from_int (pos 0) })
    if ltb ctx.ring_num (unsigned 32 s.weight)
        then (do
          rings ← deal ctx.ring_num s.heap s.sort s.sort ctx.port_ringnum
          ok (record ctx { port_ringnum = rings }))
        else (do
          rings ← shares ctx.port_num ctx 0 s.weight_sum ctx.port_ringnum
          rings' ← (if ctx.port_num == 1 then ok rings else rest_rings ctx s rings)
          ok (record ctx { port_ringnum = rings' })))
