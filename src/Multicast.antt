-- ===== src/Multicast.antt =====
-- The pool of multicast addresses of a port: `mcast_addr_add` and `mcast_addr_remove` of
-- src/CaptureDpdk/config.c. An address is the number of its 48 bits.
pub mod Find
pub mod Members
pub mod Refines
use platform.Common.{
  ℕ, zero, suc, ◌+◌, ◌-◌, ◌%◌, ◌^◌, Bool, true, false, not, ltb, ◌==◌, if◌then◌else◌,
}
use platform.Common.{List, [], ◌∷◌, Outcome, ok, fault, ◌>>=◌, load, store}

-- `MCAST_POOL_INC`.
abbrev pub mcast_pool_inc : ℕ
mcast_pool_inc = 32

-- The pool of a port: `size` entries are allocated, none where the pointer is null, and the first
-- `mc_addr_nb` are used. `programmed` is the list that the driver was last given.
pub record Pool : Type 0 where
  pub mc_addr_pool : ℕ → ℕ
  pub size : ℕ
  pub mc_addr_nb : ℕ
  pub programmed : List ℕ

-- `granted` tells whether `realloc` succeeds. The result is whether the function returns 0.
pub mcast_addr_pool_extend : Bool → Pool → Pool × Bool
mcast_addr_pool_extend granted s =
    let nb = (s.mc_addr_nb + 1) % 2 ^ 32 in
    if not (s.mc_addr_nb % mcast_pool_inc == 0)
    then (record s { mc_addr_nb = nb }, true)
    else if granted
    then (record s { size = (s.mc_addr_nb + mcast_pool_inc) % 2 ^ 32; mc_addr_nb = nb }, true)
    else (s, false)

-- The entries behind `idx`, up to `nb`, are moved one place to the front.
abbrev pub memmove : ℕ → ℕ → (ℕ → ℕ) → ℕ → ℕ
memmove idx nb a j = if ltb j idx then a j else if ltb j nb then a (j + 1) else a j

pub mcast_addr_pool_remove : Pool → ℕ → Outcome Pool
mcast_addr_pool_remove s addr_idx =
    let nb = (s.mc_addr_nb + (2 ^ 32 - 1)) % 2 ^ 32 in
    if addr_idx == nb
    then ok (record s { mc_addr_nb = nb; size = if nb == 0 then 0 else s.size })
    else if ltb nb s.size
    then ok (record s { mc_addr_nb = nb; mc_addr_pool = memmove addr_idx nb s.mc_addr_pool })
    else fault

-- The first `n` entries of an array from `i` on.
pub entries : ℕ → ℕ → (ℕ → ℕ) → List ℕ
entries zero i a = []
entries (suc n) i a = a i ∷ entries n (i + 1) a

-- The driver is given the pool; a failure is only printed.
pub eth_port_multicast_addr_list_set : Pool → Pool
eth_port_multicast_addr_list_set s = record s { programmed = entries s.mc_addr_nb 0 s.mc_addr_pool }

-- The loop over the entries, `n` of them from `i` on: the place of the address, or the end.
pub find : ℕ → ℕ → ℕ → (ℕ → ℕ) → ℕ → Outcome ℕ
find size zero i a mc_addr = ok i
find size (suc n) i a mc_addr = do
  x ← load size a i
  let rest = find size n (i + 1) a mc_addr
  if mc_addr == x then ok i else rest

-- `invalid` tells whether the port is invalid.
pub mcast_addr_add : Bool → Bool → ℕ → Pool → Outcome Pool
mcast_addr_add invalid granted mc_addr s =
    let e = mcast_addr_pool_extend granted s in
    if invalid then ok s else do
      i ← find s.size s.mc_addr_nb 0 s.mc_addr_pool mc_addr
      if ltb i s.mc_addr_nb
          then ok s
          else if e.1
          then (do
            pool ← store e.0.size e.0.mc_addr_pool i mc_addr
            ok (eth_port_multicast_addr_list_set (record e.0 { mc_addr_pool = pool })))
          else ok e.0

pub mcast_addr_remove : Bool → ℕ → Pool → Outcome Pool
mcast_addr_remove invalid mc_addr s = if invalid then ok s else do
  i ← find s.size s.mc_addr_nb 0 s.mc_addr_pool mc_addr
  if i == s.mc_addr_nb
      then ok s
      else do s' ← mcast_addr_pool_remove s i; ok (eth_port_multicast_addr_list_set s')
