-- ===== src/Capture/Rx.antt =====
-- `slaveCoreRx` and `dpdk_masterRx`. One round of the endless loop of `slaveCoreRx` is a function;
-- what `rte_eth_rx_burst` returns for its calls in turn is a list of bursts. The 64-bit counters wrap.
pub mod Counts
pub mod Deliver
use platform.Common.{ℕ, zero, suc, ◌+◌, ◌%◌, ◌^◌, List, [], ◌∷◌, Outcome, ok, fault, ◌>>=◌, length}
use platform.Common.{load, store, ltb, ◌==◌, ◌&&◌, if◌then◌else◌, update}
use platform.Device.{Context, port_size, core_size, max_core_size, queue_size}
use platform.Capture.Ring.{RteRing}
use platform.Capture.Classify.{Packet, ring_of}

-- `a[i][j] += n` for a table of `rows` by `columns`.
abbrev pub bump : (ℕ → ℕ → ℕ) → ℕ → ℕ → ℕ → ℕ → ℕ → ℕ
bump a i j n = update a i (update (a i) j ((a i j + n) % 2 ^ 64))

pub count : ℕ → ℕ → (ℕ → ℕ → ℕ) → ℕ → ℕ → ℕ → Outcome (ℕ → ℕ → ℕ)
count rows columns a i j n = if ltb i rows && ltb j columns then ok (bump a i j n) else fault

module _ (rte : RteRing Packet) where
  open rte use {Ring, enqueue, dequeue_burst}

  -- The counters of the context and of the shared memory `st`, and the rings of each port.
  pub record Counters : Type 0 where
    pub rxsize : ℕ → ℕ
    pub rx_queue : ℕ → ℕ → ℕ
    pub before_enqueue : ℕ → ℕ → ℕ
    pub after_enqueue : ℕ → ℕ → ℕ
    pub after_dequeue : ℕ → ℕ → ℕ
    pub eth_queue : ℕ → ℕ → ℕ
    pub before_ring : ℕ → ℕ → ℕ
    pub count_ring : ℕ → ℕ → ℕ
    pub after_ring : ℕ → ℕ → ℕ
    pub rxring : ℕ → ℕ → Ring

  abbrev pub put_ring : (ℕ → ℕ → Ring) → ℕ → ℕ → Ring → ℕ → ℕ → Ring
  put_ring rings port ring r = update rings port (update (rings port) ring r)

  -- The body of the loop over a burst. What `rte_ring_enqueue` returns is not read.
  pub rx_packet : ℕ → ℕ → Packet → Counters → Outcome Counters
  rx_packet port ring_num pkt c = do
    ring_id ← ring_of ring_num pkt
    before ← count 16 16 c.before_enqueue port ring_id 1
    before' ← count 16 queue_size c.before_ring port ring_id 1
    let rings = put_ring c.rxring port ring_id (enqueue (c.rxring port ring_id) pkt)
    after ← count 16 16 c.after_enqueue port ring_id 1
    after' ← count 16 queue_size c.count_ring port ring_id 1
    ok (record c {
      before_enqueue = before;
      before_ring = before';
      rxring = rings;
      after_enqueue = after;
      count_ring = after';
    })

  pub rx_packets : ℕ → ℕ → List Packet → Counters → Outcome Counters
  rx_packets port ring_num [] c = ok c
  rx_packets port ring_num (pkt ∷ bufs) c = do
    c' ← rx_packet port ring_num pkt c
    rx_packets port ring_num bufs c'

  -- One call of `rte_eth_rx_burst` and what follows it.
  pub rx_burst : ℕ → ℕ → ℕ → List Packet → Counters → Outcome Counters
  rx_burst port queue ring_num bufs c =
      let tmp = length bufs in
      if tmp == 0 then ok c else (do
        sizes ←
            (if ltb port 1024
              then ok (update c.rxsize port ((c.rxsize port + tmp) % 2 ^ 64))
              else fault)
        queues ← count 16 16 c.rx_queue port queue tmp
        eth ← count 16 queue_size c.eth_queue port queue tmp
        rx_packets port ring_num bufs
            (record c { rxsize = sizes; rx_queue = queues; eth_queue = eth }))

  -- The loop over the rings: one burst for each, from one queue.
  pub rx_rings :
      ℕ → ℕ → ℕ → ℕ → List (List Packet) → Counters → Outcome (Counters × List (List Packet))
  rx_rings zero port queue ring_num arriving c = ok (c, arriving)
  rx_rings (suc left) port queue ring_num [] c = ok (c, [])
  rx_rings (suc left) port queue ring_num (bufs ∷ arriving) c = do
    c' ← rx_burst port queue ring_num bufs c
    rx_rings left port queue ring_num arriving c'

  -- The loop over `n` queues from `queue` on.
  pub rx_queues :
      ℕ → ℕ → ℕ → ℕ → List (List Packet) → Counters → Outcome (Counters × List (List Packet))
  rx_queues zero port queue ring_num arriving c = ok (c, arriving)
  rx_queues (suc n) port queue ring_num arriving c = do
    r ← rx_rings ring_num port queue ring_num arriving c
    rx_queues n port (queue + 1) ring_num r.1 r.0

  -- A round of `while (1)` on a core. `core_id` and `port` are `uint8_t`.
  pub rx_round :
      ℕ → Context → List (List Packet) → Counters → Outcome (Counters × List (List Packet))
  rx_round core_id ctx arriving c = do
    bound ← load core_size ctx.core_portnum core_id
    let port = bound % 2 ^ 8
    ring_num ← load port_size ctx.port_ringnum port
    queue_num ← load port_size ctx.port_queuenum port
    if ctx.queue_mode == 2 && ctx.thread_mode == 2
        then (do
          queue ← load core_size ctx.core_queuenum core_id
          rx_rings ring_num port queue ring_num arriving c)
        else rx_queues queue_num port 0 ring_num arriving c

  -- `dpdk_masterRx`: the packets go to `bufs`, and their number is returned. `card_num = &port`
  -- changes the parameter only, so the caller's variable stays as it was.
  pub master_rx : Context → ℕ → ℕ → Counters → Outcome (Counters × List Packet)
  master_rx ctx num thread_num c = do
    port ← load max_core_size ctx.thread_portnum thread_num
    ring_id ← load max_core_size ctx.thread_ringnum thread_num
    let (r, bufs) = dequeue_burst (c.rxring port ring_id) num
    after ← count 16 16 c.after_dequeue port ring_id (length bufs)
    after' ← count 16 queue_size c.after_ring port ring_id (length bufs)
    ok (
      record c {
        rxring = put_ring c.rxring port ring_id r;
        after_dequeue = after;
        after_ring = after';
      },
      bufs,
    )
