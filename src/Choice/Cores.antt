-- ===== src/Choice/Cores.antt =====
-- `bind_core_length`, `get_core_portnum`, `get_core_queuenum`, `get_port_queuenum` and
-- `get_thread_portinfo`: which core serves which port and queue, and which ring a thread reads.
-- `rte_eth_dev_count` is a parameter. The `core_id` counters are `unsigned` and `int` and stay far
-- below their limits, since a store beyond the arrays is a fault.
pub mod Layout
pub mod Bound
pub mod Assigned
pub mod Queues
use platform.Common.{ℕ, zero, suc, ◌+◌, ◌-◌, ◌*◌, ◌/◌, ◌%◌, ◌^◌, Bool, true, false}
use platform.Common.{Outcome, ok, exited, fault, ◌>>=◌, load, store, ltb, ◌==◌, if◌then◌else◌}
use platform.Common.Int.{pos, negsuc, unsigned, eqb_ℤ}
use platform.Double.{Double}
use platform.PortTable.{Uthash, find_queue}
use platform.Device.{Context, port_size, core_size, max_core_size}
use platform.Choice.Rings.{get_port_speed}

pub bind_core_length : ℕ → Context → Outcome ℕ
bind_core_length dev_count ctx = (do
  length ←
      (if ctx.thread_mode == 1
        then ok (2 * dev_count)
        else if ctx.thread_mode == 2
        then ok (ctx.ring_num + dev_count)
        else exited)
  if ltb max_core_size length then exited else ok length)

-- `core_portnum[core] = port` for `n` cores from `core` on and as many ports from `port` on.
pub one_core_each : ℕ → ℕ → ℕ → (ℕ → ℕ) → Outcome (ℕ → ℕ)
one_core_each zero core port cores = ok cores
one_core_each (suc n) core port cores = do
  cores' ← store core_size cores core (port % 2 ^ 16)
  one_core_each n (core + 1) (port + 1) cores'

-- The inner `while` of mode 2: `n` cores from `core` on for one port.
pub cores_of_port : ℕ → ℕ → ℕ → (ℕ → ℕ) → Outcome (ℕ → ℕ)
cores_of_port zero core port cores = ok cores
cores_of_port (suc n) core port cores = do
  cores' ← store core_size cores core port
  cores_of_port n (core + 1) port cores'

-- The loop around it, over `n` ports from `port` on.
pub core_per_ring : ℕ → (ℕ → ℕ) → ℕ → ℕ → (ℕ → ℕ) → Outcome (ℕ → ℕ)
core_per_ring zero rings core port cores = ok cores
core_per_ring (suc n) rings core port cores = do
  ringnum ← load port_size rings port
  cores' ← cores_of_port ringnum core port cores
  core_per_ring n rings (core + ringnum) (port + 1) cores'

-- `portnum` is a `uint16_t`.
pub get_core_portnum : Context → Outcome Context
get_core_portnum ctx =
    let mid = ((ctx.start + ctx.end + 1) / 2) % 2 ^ 16 in
    let portnum = ctx.nb_ports % 2 ^ 16 in
    if ctx.thread_mode == 1
    then (do
      a ← one_core_each (mid - ctx.start) ctx.start 0 ctx.core_portnum
      b ← one_core_each (ctx.end + 1 - mid) mid 0 a
      ok (record ctx { core_portnum = b }))
    else if ctx.thread_mode == 2
    then (do
      a ← one_core_each portnum ctx.start 0 ctx.core_portnum
      b ← core_per_ring ctx.nb_ports ctx.port_ringnum (ctx.start + portnum) 0 a
      ok (record ctx { core_portnum = b }))
    else ok ctx

-- `core_queuenum[core] = queue` for `n` cores from `core` on and as many queues from `queue` on.
pub one_core_per_queue : ℕ → ℕ → ℕ → (ℕ → ℕ) → Outcome (ℕ → ℕ)
one_core_per_queue zero core queue cores = ok cores
one_core_per_queue (suc n) core queue cores = do
  cores' ← store core_size cores core queue
  one_core_per_queue n (core + 1) (queue + 1) cores'

pub queues_of_ports : ℕ → (ℕ → ℕ) → ℕ → ℕ → (ℕ → ℕ) → Outcome (ℕ → ℕ)
queues_of_ports zero queues core port cores = ok cores
queues_of_ports (suc n) queues core port cores = do
  queuenum ← load port_size queues port
  cores' ← one_core_per_queue queuenum core 0 cores
  queues_of_ports n queues (core + queuenum) (port + 1) cores'

pub get_core_queuenum : Context → Outcome Context
get_core_queuenum ctx = do
  cores ← queues_of_ports ctx.port_num ctx.port_queuenum ctx.start 0 ctx.core_queuenum
  ok (record ctx { core_queuenum = cores })

module _ (d : Double) (u : Uthash d) (table : u.Table) (link_speed : ℕ → ℕ) where
  -- `uint16_t speed`, and `port_queuenum[t] = find_queue(speed)`, a `uint16_t` too. That is compared
  -- with -1 as an `int`.
  pub table_queues : ℕ → Context → ℕ → (ℕ → ℕ) → Outcome (ℕ → ℕ)
  table_queues zero ctx portid queues = ok queues
  table_queues (suc left) ctx portid queues = do
    listed ← load port_size ctx.port_list portid
    let t = listed % 2 ^ 8
    let speed = get_port_speed link_speed t % 2 ^ 16
    let stored = unsigned 16 (find_queue d u table (pos speed))
    queues' ← store port_size queues t stored
    if eqb_ℤ (pos stored) (negsuc 0) then exited else table_queues left ctx (portid + 1) queues'

  pub ring_queues : ℕ → Context → ℕ → (ℕ → ℕ) → Outcome (ℕ → ℕ)
  ring_queues zero ctx portid queues = ok queues
  ring_queues (suc left) ctx portid queues = do
    listed ← load port_size ctx.port_list portid
    let t = listed % 2 ^ 8
    rings ← load port_size ctx.port_ringnum t
    queues' ← store port_size queues t rings
    ring_queues left ctx (portid + 1) queues'

  pub get_port_queuenum : Context → Outcome Context
  get_port_queuenum ctx =
      if ctx.queue_mode == 1
      then (do
        queues ← table_queues ctx.port_num ctx 0 ctx.port_queuenum
        ok (record ctx { port_queuenum = queues }))
      else if ctx.queue_mode == 2
      then (do
        queues ← ring_queues ctx.port_num ctx 0 ctx.port_queuenum
        ok (record ctx { port_queuenum = queues }))
      else ok ctx

-- The two arrays that `get_thread_portinfo` fills.
pub record Threads : Type 0 where
  pub ports : ℕ → ℕ
  pub rings : ℕ → ℕ

-- The inner loop: `n` rings of a port from `ring` on, for the threads from `thread` on.
pub threads_of_port : ℕ → ℕ → ℕ → ℕ → Threads → Outcome Threads
threads_of_port zero port ring thread a = ok a
threads_of_port (suc n) port ring thread a = do
  ports ← store max_core_size a.ports thread port
  rings ← store max_core_size a.rings thread ring
  threads_of_port n port (ring + 1) (thread + 1) (record { ports = ports; rings = rings })

pub threads_of_ports : ℕ → (ℕ → ℕ) → ℕ → ℕ → Threads → Outcome Threads
threads_of_ports zero counts port thread a = ok a
threads_of_ports (suc n) counts port thread a = do
  ringnum ← load port_size counts port
  a' ← threads_of_port ringnum port 0 thread a
  threads_of_ports n counts (port + 1) (thread + ringnum) a'

pub get_thread_portinfo : Context → Outcome Context
get_thread_portinfo ctx = do
  a ←
      threads_of_ports ctx.port_num ctx.port_ringnum 0 0
        (record { ports = ctx.thread_portnum; rings = ctx.thread_ringnum })
  ok (record ctx { thread_portnum = a.ports; thread_ringnum = a.rings })
