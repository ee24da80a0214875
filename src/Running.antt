-- ===== src/Running.antt =====
-- A run of packet forwarding, from `start_packet_forwarding` to `stop_packet_forwarding` of
-- src/CaptureDpdk/dpdk.c: the guards, the counters that are reset, the cores that are launched and
-- stopped, and the statistics that are added up. `max` is the size of the tables of ports. What the
-- device counts is a parameter of each of the two operations, and what the cores count in between
-- stands in the tallies of the streams. The packets that are thrown away before a run, what is
-- printed of each port, and the template of packets that the engine txonly fills at its begin are left
-- out.
pub mod Added
pub mod Begun
pub mod Summed
pub mod Bursts
pub mod Whole
pub mod Counts
use platform.Common.{ℕ, zero, suc, ◌+◌, ◌-◌, ◌%◌, ◌^◌, List, [], ◌∷◌, Option, none, some}
use platform.Common.{Outcome, ok, exited, fault, ◌>>=◌, Bool, true, false, not, load, store, update}
use platform.Common.{ltb, ◌==◌, ◌&&◌, ◌||◌, if◌then◌else◌}
use platform.Common.Int.{ℤ}
use platform.Streams.{Stream, Fwd, PortLimits}
use platform.Streams.Modes.{DcbInfo, fwd_config_setup}
use platform.Settings.Mappings.{QueueStats, MapCall, map_registers}

-- `struct rte_eth_stats`, the counters that are read.
pub record Stats : Type 0 where
  pub ipackets : ℕ
  pub opackets : ℕ
  pub ibytes : ℕ
  pub obytes : ℕ
  pub imissed : ℕ
  pub oerrors : ℕ
  pub rx_nombuf : ℕ

-- `struct rte_port`, what a run reads and writes of it. A stream is its number.
pub record PortCounts : Type 0 where
  pub dcb_flag : Bool
  pub stats : Stats
  pub tx_dropped : ℕ
  pub rx_bad_ip_csum : ℕ
  pub rx_bad_l4_csum : ℕ
  pub rx_stream : Option ℕ
  pub tx_stream : Option ℕ
  pub tx_queue_stats_mapping_enabled : Bool
  pub rx_queue_stats_mapping_enabled : Bool

-- `struct fwd_stream`, the counters.
pub record Tally : Type 0 where
  pub rx_packets : ℕ
  pub tx_packets : ℕ
  pub fwd_dropped : ℕ
  pub rx_bad_ip_csum : ℕ
  pub rx_bad_l4_csum : ℕ

-- A function that is launched on a core: the engine of the configuration, or one burst.
pub data Launch : Type 0 where
  forward burst : ℕ → Launch

pub record Run : Type 0 where
  pub fwd : Fwd
  pub ports : ℕ → PortCounts
  pub tallies : ℕ → Tally
  pub stopped : ℕ → Bool
  pub test_done : Bool
  pub dcb_test : Bool
  pub queue_stats : QueueStats
  pub map_calls : List MapCall
  pub launches : List Launch

-- The name of the engine, as far as it is compared.
pub data Mode : Type 0 where
  rxonly txonly other : Mode

-- What a run does not change. `fwd_lcores_cpuids` are the cores; `lcore_id` is that of the caller.
pub record Setting : Type 0 where
  pub mode : Mode
  pub icmp : Bool
  pub dcb_config : Bool
  pub max : ℕ
  pub pools : ℕ
  pub numa : Bool
  pub info : ℕ → DcbInfo
  pub limits : ℕ → PortLimits
  pub interactive : Bool
  pub lcore_id : ℕ
  pub fwd_lcores_cpuids : ℕ → ℕ
  pub not_supported : ℤ
  pub answer : List MapCall → MapCall → ℤ

unfoldable pub queues_missing : Mode → ℕ → ℕ → Bool
queues_missing Mode.rxonly nb_rxq nb_txq = nb_rxq == 0
queues_missing Mode.txonly nb_rxq nb_txq = nb_txq == 0
queues_missing Mode.other nb_rxq nb_txq = nb_rxq == 0 || nb_txq == 0

-- Whether `n` forwarding ports from `i` on are configured for traffic classes.
pub all_dcb : ℕ → ℕ → Run → Bool
all_dcb zero i s = true
all_dcb (suc n) i s =
    let rest = all_dcb n (i + 1) s in
    if (s.ports (s.fwd.fwd_ports_ids i)).dcb_flag then rest else false

unfoldable pub dcb_refuses : Run → Bool
dcb_refuses s = s.dcb_test && (not (all_dcb s.fwd.nb_fwd_ports 0 s) || s.fwd.nb_fwd_lcores == 1)

abbrev pub no_tally : Tally
no_tally = record {
  rx_packets = 0;
  tx_packets = 0;
  fwd_dropped = 0;
  rx_bad_ip_csum = 0;
  rx_bad_l4_csum = 0;
}

-- The loop over `n` streams from `sm_id` on.
pub reset_streams : ℕ → ℕ → (ℕ → Tally) → ℕ → Tally
reset_streams zero sm_id tallies = tallies
reset_streams (suc n) sm_id tallies = reset_streams n (sm_id + 1) (update tallies sm_id no_tally)

module _ (g : Setting) where
  open g use {max, not_supported, answer}

  -- The loop over `n` forwarding ports from `i` on.
  pub reset_ports : (ℕ → Stats) → ℕ → ℕ → Run → Outcome Run
  reset_ports device zero i s = ok s
  reset_ports device (suc n) i s = do
    pt_id ← load max s.fwd.fwd_ports_ids i
    port ← load max s.ports pt_id
    (tx, rx, calls) ←
        map_registers answer not_supported pt_id s.queue_stats
          (port.tx_queue_stats_mapping_enabled, port.rx_queue_stats_mapping_enabled) s.map_calls
    ports ← store max s.ports pt_id (record port {
      stats = device pt_id;
      tx_dropped = 0;
      tx_queue_stats_mapping_enabled = tx;
      rx_queue_stats_mapping_enabled = rx;
    })
    reset_ports device n (i + 1) (record s { ports = ports; map_calls = calls })

  -- The loop over `n` cores from `i` on.
  pub launch_cores : (ℕ → Launch) → ℕ → ℕ → Run → Run
  launch_cores launch zero i s = s
  launch_cores launch (suc n) i s =
      let lc_id = g.fwd_lcores_cpuids i in
      launch_cores launch n (i + 1) (
        if not g.interactive || not (lc_id == g.lcore_id)
        then record s { stopped = update s.stopped i false; launches = launch lc_id ∷ s.launches }
        else s)

  pub launch_packet_forwarding : (ℕ → Launch) → Run → Run
  launch_packet_forwarding launch s = launch_cores launch s.fwd.cfg_nb_fwd_lcores 0 s

  -- The loop over `with_tx_first`.
  pub first_bursts : ℕ → Run → Run
  first_bursts zero s = s
  first_bursts (suc n) s = first_bursts n (launch_packet_forwarding Launch.burst s)

  -- After the guards.
  pub begin_run : ℕ → (ℕ → Stats) → Run → Outcome Run
  begin_run with_tx_first device s = do
    fwd ← fwd_config_setup g.icmp g.dcb_config max g.pools g.numa g.info g.limits s.fwd
    s1 ← reset_ports device fwd.cfg_nb_fwd_ports 0 (record s { test_done = false; fwd = fwd })
    let s2 = record s1 { tallies = reset_streams fwd.cfg_nb_fwd_streams 0 s1.tallies }
    ok (launch_packet_forwarding Launch.forward (first_bursts with_tx_first s2))

  -- `all_started` is what `all_ports_started` returns.
  pub start_packet_forwarding : Bool → ℕ → (ℕ → Stats) → Run → Outcome Run
  start_packet_forwarding all_started with_tx_first device s =
      if queues_missing g.mode s.fwd.nb_rxq s.fwd.nb_txq
      then exited
      else if not all_started
      then ok s
      else if not s.test_done
      then ok s
      else if dcb_refuses s
      then ok s
      else begin_run with_tx_first device s

  -- The loop over `n` cores from `lc_id` on.
  pub stop_cores : ℕ → ℕ → (ℕ → Bool) → ℕ → Bool
  stop_cores zero lc_id stopped = stopped
  stop_cores (suc n) lc_id stopped = stop_cores n (lc_id + 1) (update stopped lc_id true)

  -- The body of the loop over the streams: the pointers of the two ports, and then their counters.
  pub add_stream : Fwd → ℕ → Tally → (ℕ → PortCounts) → Outcome (ℕ → PortCounts)
  add_stream fwd sm_id t ports = do
    let stream = fwd.fwd_streams sm_id
    let single : Option ℕ =
        if ltb fwd.cfg_nb_fwd_ports fwd.cfg_nb_fwd_streams then none else some sm_id
    p ← load max ports stream.tx_port
    ports1 ←
        store max ports stream.tx_port
          (record p { tx_stream = single; tx_dropped = (p.tx_dropped + t.fwd_dropped) % 2 ^ 64 })
    q ← load max ports1 stream.rx_port
    store max ports1 stream.rx_port (record q {
      rx_stream = single;
      rx_bad_ip_csum = (q.rx_bad_ip_csum + t.rx_bad_ip_csum) % 2 ^ 64;
      rx_bad_l4_csum = (q.rx_bad_l4_csum + t.rx_bad_l4_csum) % 2 ^ 64;
    })

  -- The loop over `n` streams from `sm_id` on.
  pub add_streams : ℕ → ℕ → Fwd → (ℕ → Tally) → (ℕ → PortCounts) → Outcome (ℕ → PortCounts)
  add_streams zero sm_id fwd tallies ports = ok ports
  add_streams (suc n) sm_id fwd tallies ports = do
    ports' ← add_stream fwd sm_id (tallies sm_id) ports
    add_streams n (sm_id + 1) fwd tallies ports'

-- `a -= b` in 64 bits.
abbrev pub minus : ℕ → ℕ → ℕ
minus a b = (a + 2 ^ 64 - b) % 2 ^ 64

abbrev pub no_stats : Stats
no_stats = record {
  ipackets = 0;
  opackets = 0;
  ibytes = 0;
  obytes = 0;
  imissed = 0;
  oerrors = 0;
  rx_nombuf = 0;
}

-- What is printed for all ports together.
pub record Totals : Type 0 where
  pub total_recv : ℕ
  pub total_xmit : ℕ
  pub total_rx_dropped : ℕ
  pub total_tx_dropped : ℕ
  pub total_rx_nombuf : ℕ

abbrev pub no_totals : Totals
no_totals = record {
  total_recv = 0;
  total_xmit = 0;
  total_rx_dropped = 0;
  total_tx_dropped = 0;
  total_rx_nombuf = 0;
}

-- What a port adds, from what its device counts now.
unfoldable pub add_port : Stats → PortCounts → Totals → Totals
add_port now port t = record {
  total_recv = (t.total_recv + minus now.ipackets port.stats.ipackets) % 2 ^ 64;
  total_xmit = (t.total_xmit + minus now.opackets port.stats.opackets) % 2 ^ 64;
  total_rx_dropped = (t.total_rx_dropped + minus now.imissed port.stats.imissed) % 2 ^ 64;
  total_tx_dropped = (t.total_tx_dropped + port.tx_dropped) % 2 ^ 64;
  total_rx_nombuf = (t.total_rx_nombuf + minus now.rx_nombuf port.stats.rx_nombuf) % 2 ^ 64;
}

-- The loop over `n` forwarding ports from `i` on.
pub add_ports :
    ℕ
    → (ℕ → Stats)
    → ℕ
    → ℕ
    → (ℕ → ℕ)
    → (ℕ → PortCounts)
    → Totals
    → Outcome ((ℕ → PortCounts) × Totals)
add_ports max device zero i ids ports t = ok (ports, t)
add_ports max device (suc n) i ids ports t = do
  pt_id ← load max ids i
  port ← load max ports pt_id
  ports' ← store max ports pt_id (record port { stats = no_stats })
  add_ports max device n (i + 1) ids ports' (add_port (device pt_id) port t)

-- The result with what is printed; nothing is where no run is going on.
pub stop_packet_forwarding : Setting → (ℕ → Stats) → Run → Outcome (Run × Option Totals)
stop_packet_forwarding g device s = if s.test_done then ok (s, none) else (do
  let stopped = stop_cores g s.fwd.cfg_nb_fwd_lcores 0 s.stopped
  ports ← add_streams g s.fwd.cfg_nb_fwd_streams 0 s.fwd s.tallies s.ports
  (ports', totals) ←
      add_ports g.max device s.fwd.cfg_nb_fwd_ports 0 s.fwd.fwd_ports_ids ports no_totals
  ok (record s { stopped = stopped; ports = ports'; test_done = true }, some totals))
