-- ===== src/Streams/Modes.antt =====
-- The set-up of the streams where ports have one queue, `simple_fwd_config_setup`, and for traffic
-- classes, `dcb_fwd_config_setup`, and the choice between the set-ups, `fwd_config_setup`, of
-- src/CaptureDpdk/config.c.
pub mod Simple
pub mod Ports
use platform.Common.{
  ℕ, zero, suc, ◌+◌, ◌-◌, ◌*◌, ◌/◌, ◌%◌, ◌^◌, Outcome, ok, fault, ◌>>=◌, load, store,
}
use platform.Common.{ltb, leb, ◌==◌, ◌&&◌, not, Bool, true, false, if◌then◌else◌}
use platform.Streams.{Topology, Stream, Lcore, PortLimits, Fwd, init_fwd_streams}
use platform.Streams.{
  setup_fwd_config_of_each_lcore, rss_fwd_config_setup, icmp_echo_config_setup, stream_of,
}

-- The streams of one round: that of port `i` to port `j`, and where the ports are in pairs the one back.
unfoldable pub simple_pair : ℕ → Fwd → ℕ → ℕ → Outcome Fwd
simple_pair max s i j = do
  fs ← stream_of max s i 0 j 0
  there ← store s.nb_fwd_streams s.fwd_streams i fs
  let s' = record s { fwd_streams = there }
  elim s.port_topology [
    | Topology.paired ↦ do
      fs' ← stream_of max s j 0 i 0
      back ← store s.nb_fwd_streams there j fs'
      ok (record s { fwd_streams = back })
    | Topology.chained ↦ ok s'
    | Topology.loop ↦ ok s'
  ]

-- The loop, `fuel` rounds at most; one that goes on behind them counts as a fault here.
unfoldable pub simple_streams : ℕ → ℕ → ℕ → Fwd → Outcome Fwd
simple_streams zero max i s = if ltb i s.cfg_nb_fwd_ports then fault else ok s
simple_streams (suc fuel) max i s =
    let nb = s.cfg_nb_fwd_ports in
    let inc : ℕ = elim s.port_topology [ Topology.paired ↦ 2 | _ ↦ 1 ] in
    let j : ℕ = elim s.port_topology [ Topology.loop ↦ i | _ ↦ (i + 1) % nb ] in
    let rest = simple_pair max s i j >>= λ s'. simple_streams fuel max ((i + inc) % 2 ^ 8) s' in
    if ltb i nb then rest else ok s

unfoldable pub simple_fwd_config_setup : ℕ → (ℕ → PortLimits) → Fwd → Outcome Fwd
simple_fwd_config_setup max ports s =
    let nb = s.nb_fwd_ports in
    let nb_lcores = if ltb nb s.nb_fwd_lcores then nb else s.nb_fwd_lcores in
    let s1 =
      init_fwd_streams max ports (record s { cfg_nb_fwd_ports = nb; cfg_nb_fwd_streams = nb }) in
    do
      s2 ← setup_fwd_config_of_each_lcore (record s1 { cfg_nb_fwd_lcores = nb_lcores })
      simple_streams nb max 0 s2

-- The queues of a traffic class in a pool.
pub record DcbQueues : Type 0 where
  pub base : ℕ
  pub nb_queue : ℕ

-- `struct rte_eth_dcb_info`, the fields that are read, the tables by pool and class.
pub record DcbInfo : Type 0 where
  pub nb_tcs : ℕ
  pub tc_rxq : ℕ → ℕ → DcbQueues
  pub tc_txq : ℕ → ℕ → DcbQueues

-- The ports, and the class, that the loop over the cores is at.
pub record At : Type 0 where
  pub rxp : ℕ
  pub txp : ℕ
  pub tc : ℕ

-- The loop over the queues of a class, `n` of them from `j` on; `k` is the first stream.
pub dcb_queues : ℕ → ℕ → ℕ → ℕ → At → ℕ → ℕ → ℕ → Fwd → Outcome Fwd
dcb_queues zero max k j a rxq txq nb_tx_queue s = ok s
dcb_queues (suc n) max k j a rxq txq nb_tx_queue s = if nb_tx_queue == 0 then fault else do
  rx_port ← load max s.fwd_ports_ids a.rxp
  tx_port ← load max s.fwd_ports_ids a.txp
  streams ← store s.nb_fwd_streams s.fwd_streams (k + j) (record {
    rx_port = rx_port;
    rx_queue = (rxq + j) % 2 ^ 16;
    tx_port = tx_port;
    tx_queue = (txq + j % nb_tx_queue) % 2 ^ 16;
    peer_addr = tx_port;
    retry_enabled = s.retry_enabled;
  })
  dcb_queues n max k (j + 1) a rxq txq nb_tx_queue (record s { fwd_streams = streams })

-- The loop over the pools, `n` of them from `i` on, for core `lc`; `rx` and `tx` are what is known of
-- the two ports. The number of queues that receive is read from the port that sends, as the code does.
pub dcb_pools : ℕ → ℕ → ℕ → At → DcbInfo → DcbInfo → ℕ → Fwd → Outcome Fwd
dcb_pools zero max i a rx tx lc s = ok s
dcb_pools (suc n) max i a rx tx lc s = do
  lcore ← load s.nb_lcores s.fwd_lcores lc
  let nb = (rx.tc_rxq i a.tc).nb_queue
  if nb == 0 then ok s else do
    s' ←
        dcb_queues (tx.tc_rxq i a.tc).nb_queue max ((lcore.stream_nb + lcore.stream_idx) % 2 ^ 16) 0
          a (rx.tc_rxq i a.tc).base (tx.tc_txq i a.tc).base (tx.tc_txq i a.tc).nb_queue s
    lcores ←
        store s'.nb_lcores s'.fwd_lcores lc
          (record lcore { stream_nb = (lcore.stream_nb + nb) % 2 ^ 16 })
    dcb_pools n max (i + 1) a rx tx lc (record s' { fwd_lcores = lcores })

-- The next port that receives; a division by no port is a fault.
pub next_rxp : Bool → Fwd → ℕ → Outcome ℕ
next_rxp numa s rxp =
    if numa && leb s.nb_fwd_ports (s.nb_ports / 2)
    then (if s.nb_fwd_ports == 0
        then fault
        else ok ((rxp + s.nb_ports / 2 / s.nb_fwd_ports) % 2 ^ 8))
    else ok ((rxp + 1) % 2 ^ 8)

-- The loop over the cores, `n` of them from `lc` on. `info` is what the structure holds after
-- `rte_eth_dev_get_dcb_info` is called for a port.
pub dcb_cores :
    ℕ → ℕ → ℕ → Bool → (ℕ → DcbInfo) → ℕ → ℕ → At → DcbInfo → DcbInfo → Fwd → Outcome Fwd
dcb_cores zero max pools numa info lc sm_id a rx tx s = ok s
dcb_cores (suc n) max pools numa info lc sm_id a rx tx s = do
  start ← store s.nb_lcores s.fwd_lcores lc (record { stream_idx = sm_id; stream_nb = 0 })
  s1 ← dcb_pools pools max 0 a rx tx lc (record s { fwd_lcores = start })
  lcore ← load s1.nb_lcores s1.fwd_lcores lc
  let next = (sm_id + lcore.stream_nb) % 2 ^ 16
  let tc = (a.tc + 1) % 2 ^ 8
  if ltb tc rx.nb_tcs
      then dcb_cores n max pools numa info (lc + 1) next (record a { tc = tc }) rx tx s1
      else do
        rxp ← next_rxp numa s1 a.rxp
        let txp = if rxp % 2 == 0 then (rxp + 1) % 2 ^ 8 else rxp - 1
        if leb s1.nb_fwd_ports rxp then ok s1 else do
          rx_id ← load max s1.fwd_ports_ids rxp
          tx_id ← load max s1.fwd_ports_ids txp
          dcb_cores n max pools numa info (lc + 1) next (record { rxp = rxp; txp = txp; tc = 0 })
              (info rx_id) (info tx_id) s1

pub dcb_fwd_config_setup : ℕ → ℕ → Bool → (ℕ → DcbInfo) → (ℕ → PortLimits) → Fwd → Outcome Fwd
dcb_fwd_config_setup max pools numa info ports s =
    let s1 = init_fwd_streams max ports (record s {
      cfg_nb_fwd_lcores = s.nb_fwd_lcores;
      cfg_nb_fwd_ports = s.nb_fwd_ports;
      cfg_nb_fwd_streams = (s.nb_rxq * s.nb_fwd_ports) % 2 ^ 16;
    }) in
    do
      rx_id ← load max s1.fwd_ports_ids 0
      tx_id ← load max s1.fwd_ports_ids 1
      dcb_cores s.nb_fwd_lcores max pools numa info 0 0 (record { rxp = 0; txp = 1; tc = 0 })
          (info rx_id) (info tx_id) s1

-- `icmp` tells whether the engine is that for echo requests, `dcb` whether classes are configured.
unfoldable pub fwd_config_setup :
    Bool → Bool → ℕ → ℕ → Bool → (ℕ → DcbInfo) → (ℕ → PortLimits) → Fwd → Outcome Fwd
fwd_config_setup icmp dcb max pools numa info ports s =
    if icmp
    then icmp_echo_config_setup max ports s
    else if ltb 1 s.nb_rxq && ltb 1 s.nb_txq
    then (if dcb
        then dcb_fwd_config_setup max pools numa info ports s
        else rss_fwd_config_setup max ports s)
    else simple_fwd_config_setup max ports s
