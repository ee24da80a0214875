-- ===== src/Setup/Buffers.antt =====
-- What `dpdk_init` of src/CaptureDpdk/dpdk.c makes after the ports: the rings, by `initRing`, and the
-- counters of the context set to 0. What `rte_ring_create` returns depends on the names of the rings
-- made so far, the last one first.
pub mod Steps
pub mod Made
pub mod Past
pub mod Ready
use platform.Common.{ℕ, zero, suc, ◌+◌, ◌%◌, ◌^◌, List, ◌∷◌, Option, none, some, Bool}
use platform.Common.{Outcome, ok, fault, ◌>>=◌, load, store, ltb, ◌&&◌, if◌then◌else◌, update}
use platform.Common.Int.{ℤ, pos, negsuc}
use platform.Device.{Context, port_size, queue_size, burst_size}
use platform.Setup.{put}

-- The names that `sprintf` gives: "temp_tx_ring_%d_queue_%d" and "temp_rx_ring_%d_queue_%d".
pub data RingName : Type 0 where
  temp_tx_ring temp_rx_ring : ℕ → ℕ → RingName

-- `is_found` says whether `rte_ring_lookup` of a name returns the ring.
pub record RingLibrary (Ring : Type 0) : Type 0 where
  pub create : List RingName → RingName → Option Ring
  pub is_found : List RingName → RingName → Ring → Bool

-- A store in a table of `rows` by `columns`. A column that the row does not have is an access outside
-- an array, also where the next row follows it in memory.
abbrev pub store_in {ℓ} : {A : Type ℓ} → ℕ → ℕ → (ℕ → ℕ → A) → ℕ → ℕ → A → Outcome (ℕ → ℕ → A)
store_in rows columns a i j v =
    if ltb i rows && ltb j columns then ok (update a i (update (a i) j v)) else fault

module _ {Ring : Type 0} (lib : RingLibrary Ring) where
  open lib use {create, is_found}

  unfoldable ring_status : List RingName → RingName → Option Ring → ℤ
  ring_status made name none = negsuc 0
  ring_status made name (some r) = if is_found (name ∷ made) name r then pos 0 else negsuc 0

  -- What `*r` is set to, and what is returned.
  pub init_ring : List RingName → RingName → Option Ring × ℤ
  init_ring made name = let r = create made name in (r, ring_status made name r)

  -- The fields of the context that are set.
  pub record Buffers : Type 0 where
    pub rxsize : ℕ → ℕ
    pub before_enqueue : ℕ → ℕ → ℕ
    pub after_enqueue : ℕ → ℕ → ℕ
    pub after_dequeue : ℕ → ℕ → ℕ
    pub rx_queue : ℕ → ℕ → ℕ
    pub sleep_num : ℕ
    pub no_sleep_num : ℕ
    pub packet_num : ℕ → ℕ
    pub txring : ℕ → ℕ → Option Ring
    pub rxring : ℕ → ℕ → Option Ring
    pub made : List RingName

  -- The loop over `n` rings from `queue` on. What `initRing` returns is not read.
  pub init_rings : ℕ → ℕ → ℕ → Buffers → Outcome Buffers
  init_rings zero t queue b = ok b
  init_rings (suc n) t queue b = do
    let tx = RingName.temp_tx_ring t queue
    tx_rings ← store_in port_size queue_size b.txring t queue (init_ring b.made tx).0
    let rx = RingName.temp_rx_ring t queue
    rx_rings ← store_in port_size queue_size b.rxring t queue (init_ring (tx ∷ b.made) rx).0
    before ← store_in 16 16 b.before_enqueue t queue 0
    after ← store_in 16 16 b.after_enqueue t queue 0
    dequeued ← store_in 16 16 b.after_dequeue t queue 0
    init_rings n t (queue + 1) (record b {
      txring = tx_rings;
      rxring = rx_rings;
      made = rx ∷ tx ∷ b.made;
      before_enqueue = before;
      after_enqueue = after;
      after_dequeue = dequeued;
    })

  -- The loop over `n` ports from `portid` on.
  pub init_port_rings : ℕ → ℕ → Context → Buffers → Outcome Buffers
  init_port_rings zero portid ctx b = ok b
  init_port_rings (suc n) portid ctx b = do
    entry ← load port_size ctx.port_list portid
    let t = entry % 2 ^ 8
    rings ← load port_size ctx.port_ringnum t
    b1 ← init_rings rings t 0 b
    sizes ← store 1024 b1.rxsize t 0
    init_port_rings n (portid + 1) ctx (record b1 { rxsize = sizes })

  -- The loop over `n` queues from `i` on.
  pub zero_queues : ℕ → ℕ → ℕ → Buffers → Outcome Buffers
  zero_queues zero t i b = ok b
  zero_queues (suc n) t i b = do
    queues ← store_in 16 16 b.rx_queue t i 0
    zero_queues n t (i + 1) (record b { rx_queue = queues })

  pub zero_port_queues : ℕ → ℕ → Context → Buffers → Outcome Buffers
  zero_port_queues zero portid ctx b = ok b
  zero_port_queues (suc n) portid ctx b = do
    entry ← load port_size ctx.port_list portid
    let t = entry % 2 ^ 8
    queues ← load port_size ctx.port_queuenum t
    b1 ← zero_queues queues t 0 b
    zero_port_queues n (portid + 1) ctx b1

  -- The loop over the `n` first places of `packetNum` from `i` on.
  pub zero_packets : ℕ → ℕ → Buffers → Buffers
  zero_packets zero i b = b
  zero_packets (suc n) i b =
      zero_packets n (i + 1) (record b { packet_num = update b.packet_num i 0 })

  -- From the counters of the sleeps to the clearing of the queues.
  pub init_buffers : Context → Buffers → Outcome Buffers
  init_buffers ctx b = do
    let awake = record b { sleep_num = 0; no_sleep_num = 0 }
    rings ← init_port_rings ctx.port_num 0 ctx (zero_packets burst_size 0 awake)
    zero_port_queues ctx.port_num 0 ctx rings
