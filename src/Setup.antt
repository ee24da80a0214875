-- ===== src/Setup.antt =====
-- The list of ports that `dpdk_init` of src/CaptureDpdk/dpdk.c makes before `choice_init`, and
-- `shard_init` of src/CaptureDpdk/shmdata.c, which clears the shared memory after it.
pub mod Listed
pub mod Cleared
pub mod Fresh
pub mod Drive
pub mod Buffers
pub mod Init
use platform.Common.{ℕ, zero, suc, ◌+◌, ◌%◌, ◌^◌, Outcome, ok, fault, ◌>>=◌, load, store, ltb, ◌&&◌}
use platform.Common.{update, if◌then◌else◌}
use platform.Device.{Context, port_size, queue_size}

-- The loop over `n` ports from `portid` on, a `uint8_t`. The entry of the list is read before it
-- is written.
pub list_ports : ℕ → ℕ → Context → Outcome Context
list_ports zero portid ctx = ok ctx
list_ports (suc n) portid ctx = do
  entry ← load port_size ctx.port_list portid
  let t = entry % 2 ^ 8
  queues ← store port_size ctx.port_queuenum t 0
  rings ← store port_size ctx.port_ringnum t 0
  list ← store port_size ctx.port_list ctx.port_num portid
  list_ports n (portid + 1) (record ctx {
    port_queuenum = queues;
    port_ringnum = rings;
    port_list = list;
    port_num = (ctx.port_num + 1) % 2 ^ 16;
  })

-- `struct shared_use_st`
pub record Shared : Type 0 where
  pub port_num : ℕ
  pub queue_num : ℕ → ℕ
  pub ring_num : ℕ → ℕ
  pub before_ring : ℕ → ℕ → ℕ
  pub count_ring : ℕ → ℕ → ℕ
  pub after_ring : ℕ → ℕ → ℕ
  pub eth_queue : ℕ → ℕ → ℕ

abbrev pub put : (ℕ → ℕ → ℕ) → ℕ → ℕ → ℕ → ℕ → ℕ → ℕ
put a i j v = update a i (update (a i) j v)

-- `a[i][j] = v` in a table of 16 by 80.
abbrev pub store_at : (ℕ → ℕ → ℕ) → ℕ → ℕ → ℕ → Outcome (ℕ → ℕ → ℕ)
store_at a i j v = if ltb i port_size && ltb j queue_size then ok (put a i j v) else fault

-- The inner loops of `shard_init`, over `n` rings or queues.
pub clear_rings : ℕ → ℕ → ℕ → Shared → Outcome Shared
clear_rings zero t ring st = ok st
clear_rings (suc n) t ring st = do
  after ← store_at st.after_ring t ring 0
  before ← store_at st.before_ring t ring 0
  counts ← store_at st.count_ring t ring 0
  clear_rings n t (ring + 1)
      (record st { after_ring = after; before_ring = before; count_ring = counts })

pub clear_queues : ℕ → ℕ → ℕ → Shared → Outcome Shared
clear_queues zero t queue st = ok st
clear_queues (suc n) t queue st = do
  eth ← store_at st.eth_queue t queue 0
  clear_queues n t (queue + 1) (record st { eth_queue = eth })

-- The loop over `n` ports from `portid` on.
pub clear_ports : ℕ → ℕ → Context → Shared → Outcome Shared
clear_ports zero portid ctx st = ok st
clear_ports (suc n) portid ctx st = do
  entry ← load port_size ctx.port_list portid
  let t = entry % 2 ^ 8
  rings ← load port_size ctx.port_ringnum t
  queues ← load port_size ctx.port_queuenum t
  st1 ← clear_rings rings t 0 st
  st2 ← clear_queues queues t 0 st1
  ring_nums ← store port_size st2.ring_num t rings
  queue_nums ← store port_size st2.queue_num t queues
  clear_ports n (portid + 1) ctx
      (record st2 { port_num = ctx.port_num; ring_num = ring_nums; queue_num = queue_nums })

-- What follows `get_shared`.
pub shard_init : Context → Shared → Outcome Shared
shard_init ctx st = clear_ports ctx.port_num 0 ctx st
