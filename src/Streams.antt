-- ===== src/Streams.antt =====
-- The forwarding streams and how they are given to the forwarding cores: `init_fwd_streams` of
-- src/CaptureDpdk/dpdk.c, and `setup_fwd_config_of_each_lcore` and its callers in
-- src/CaptureDpdk/config.c. Memory is never exhausted, so an allocation gives as many streams as
-- are asked for.
pub mod Tiles
pub mod Slots
pub mod Rss
pub mod Peers
pub mod EchoCores
pub mod Modes
use platform.Common.{
  ℕ, zero, suc, ◌+◌, ◌-◌, ◌*◌, ◌/◌, ◌%◌, ◌^◌, Outcome, ok, fault, ◌>>=◌, load, store,
}
use platform.Common.{ltb, leb, ◌==◌, ◌&&◌, not, Bool, true, false, if◌then◌else◌}

-- `enum` of the port topologies.
pub data Topology : Type 0 where
  paired chained loop : Topology

-- `struct fwd_stream`, the fields that its set-up writes.
pub record Stream : Type 0 where
  pub rx_port : ℕ
  pub rx_queue : ℕ
  pub tx_port : ℕ
  pub tx_queue : ℕ
  pub peer_addr : ℕ
  pub retry_enabled : ℕ

-- `struct fwd_lcore`, the fields that its set-up writes.
pub record Lcore : Type 0 where
  pub stream_idx : ℕ
  pub stream_nb : ℕ

-- What `init_fwd_streams` reads of a port.
pub record PortLimits : Type 0 where
  pub enabled : Bool
  pub max_rx_queues : ℕ
  pub max_tx_queues : ℕ

-- The globals. `fwd_lcores` has `nb_lcores` entries, `fwd_streams` has `nb_fwd_streams`.
pub record Fwd : Type 0 where
  pub nb_ports : ℕ
  pub nb_rxq : ℕ
  pub nb_txq : ℕ
  pub nb_lcores : ℕ
  pub nb_fwd_lcores : ℕ
  pub nb_fwd_ports : ℕ
  pub fwd_ports_ids : ℕ → ℕ
  pub port_topology : Topology
  pub retry_enabled : ℕ
  pub nb_fwd_streams : ℕ
  pub fwd_streams : ℕ → Stream
  pub fwd_lcores : ℕ → Lcore
  pub cfg_nb_fwd_streams : ℕ
  pub cfg_nb_fwd_lcores : ℕ
  pub cfg_nb_fwd_ports : ℕ

abbrev pub zeroed : Stream
zeroed = record {
  rx_port = 0;
  rx_queue = 0;
  tx_port = 0;
  tx_queue = 0;
  peer_addr = 0;
  retry_enabled = 0;
}

-- The loop over the ports that are enabled, `n` from `pid` on: whether each has the queues.
unfoldable pub queues_fit : ℕ → ℕ → (ℕ → PortLimits) → Fwd → Bool
queues_fit zero pid ports s = true
queues_fit (suc n) pid ports s =
    let rest = queues_fit n (pid + 1) ports s in
    let port = ports pid in
    if port.enabled
    then (if ltb port.max_rx_queues s.nb_rxq
        then false
        else if ltb port.max_tx_queues s.nb_txq
        then false
        else rest)
    else rest

-- The sockets of the ports, which the loop also sets, are read by no function here. The callers
-- below do not read what it returns.
unfoldable pub init_fwd_streams : ℕ → (ℕ → PortLimits) → Fwd → Fwd
init_fwd_streams max ports s =
    let q = if ltb s.nb_rxq s.nb_txq then s.nb_txq else s.nb_rxq in
    let nb_new = (s.nb_ports * q) % 2 ^ 16 in
    if queues_fit max 0 ports s
    then (if q == 0
        then s
        else if nb_new == s.nb_fwd_streams
        then s
        else record s { nb_fwd_streams = nb_new; fwd_streams = λ sm_id. zeroed })
    else s

-- Either loop of `setup_fwd_config_of_each_lcore`: `per` streams from `sm_id` on for each of `n`
-- cores from `lc_id` on.
unfoldable pub give_streams : ℕ → ℕ → ℕ → ℕ → ℕ → (ℕ → Lcore) → Outcome ((ℕ → Lcore) × ℕ)
give_streams zero nb_lcores per lc_id sm_id lcores = ok (lcores, sm_id)
give_streams (suc n) nb_lcores per lc_id sm_id lcores = do
  lcores' ← store nb_lcores lcores lc_id (record { stream_idx = sm_id; stream_nb = per })
  give_streams n nb_lcores per (lc_id + 1) ((sm_id + per) % 2 ^ 16) lcores'

-- `lcoreid_t` has 8 bits, `streamid_t` has 16. A division by no core is a fault.
unfoldable pub setup_fwd_config_of_each_lcore : Fwd → Outcome Fwd
setup_fwd_config_of_each_lcore s =
    let nb_fs = s.cfg_nb_fwd_streams in
    let nb_fc = s.cfg_nb_fwd_lcores in
    let few = leb nb_fs nb_fc in
    if not few && nb_fc == 0
    then fault
    else let per = if few then 1 else nb_fs / nb_fc in
      let nb_extra = if few then 0 else (nb_fs % nb_fc) % 2 ^ 8 in
      let nb_lc = (nb_fc - nb_extra) % 2 ^ 8 in
      do
        r ← give_streams nb_lc s.nb_lcores per 0 0 s.fwd_lcores
        r' ← give_streams nb_extra s.nb_lcores ((per + 1) % 2 ^ 16) nb_lc r.1 r.0
        ok (record s { fwd_lcores = r'.0 })

-- The port that is sent to; `nb` is `cur_fwd_config.nb_fwd_ports`.
pub fwd_topology_tx_port_get : Topology → ℕ → ℕ → Outcome ℕ
fwd_topology_tx_port_get paired nb rxp =
    if rxp % 2 == 0 then (if ltb (rxp + 1) nb then ok (rxp + 1) else ok rxp) else ok (rxp - 1)
fwd_topology_tx_port_get chained nb rxp = if nb == 0 then fault else ok ((rxp + 1) % nb)
fwd_topology_tx_port_get loop nb rxp = ok rxp

-- The stream from one queue to another, of ports at two places of the list; `max` is
-- `RTE_MAX_ETHPORTS`, the size of the list.
unfoldable pub stream_of : ℕ → Fwd → ℕ → ℕ → ℕ → ℕ → Outcome Stream
stream_of max s rxp rxq txp txq = do
  rx_port ← load max s.fwd_ports_ids rxp
  tx_port ← load max s.fwd_ports_ids txp
  ok (record {
    rx_port = rx_port;
    rx_queue = rxq;
    tx_port = tx_port;
    tx_queue = txq;
    peer_addr = tx_port;
    retry_enabled = s.retry_enabled;
  })

-- The loop of `rss_fwd_config_setup`: `n` streams from `sm_id` on.
pub rss_streams : ℕ → ℕ → ℕ → ℕ → ℕ → ℕ → Fwd → Outcome Fwd
rss_streams zero max nb_q sm_id rxp rxq s = ok s
rss_streams (suc n) max nb_q sm_id rxp rxq s = do
  txp ← fwd_topology_tx_port_get s.port_topology s.cfg_nb_fwd_ports rxp
  fs ← stream_of max s rxp rxq txp rxq
  streams ← store s.nb_fwd_streams s.fwd_streams sm_id fs
  let next = (rxq + 1) % 2 ^ 16
  let more = ltb next nb_q
  rss_streams n max nb_q (sm_id + 1) (if more then rxp else (rxp + 1) % 2 ^ 8)
      (if more then next else 0) (record s { fwd_streams = streams })

pub rss_fwd_config_setup : ℕ → (ℕ → PortLimits) → Fwd → Outcome Fwd
rss_fwd_config_setup max ports s =
    let nb_q = if ltb s.nb_txq s.nb_rxq then s.nb_txq else s.nb_rxq in
    let nb_streams = (nb_q * s.nb_fwd_ports) % 2 ^ 16 in
    let nb_lcores =
      if ltb nb_streams s.nb_fwd_lcores then nb_streams % 2 ^ 8 else s.nb_fwd_lcores in
    let s1 = init_fwd_streams max ports (record s {
      cfg_nb_fwd_lcores = nb_lcores;
      cfg_nb_fwd_ports = s.nb_fwd_ports;
      cfg_nb_fwd_streams = nb_streams;
    }) in
    do s2 ← setup_fwd_config_of_each_lcore s1; rss_streams nb_streams max nb_q 0 0 0 s2

-- The inner loop of `icmp_echo_config_setup`: `n` streams from `index` on.
pub icmp_core : ℕ → ℕ → ℕ → ℕ → ℕ → Fwd → Outcome (Fwd × ℕ × ℕ)
icmp_core zero max index rxp rxq s = ok (s, rxp, rxq)
icmp_core (suc n) max index rxp rxq s = do
  fs ← stream_of max s rxp rxq rxp rxq
  streams ← store s.nb_fwd_streams s.fwd_streams index fs
  let next = (rxq + 1) % 2 ^ 16
  let full = next == s.nb_rxq
  icmp_core n max (index + 1) (if full then (rxp + 1) % 2 ^ 8 else rxp) (if full then 0 else next)
      (record s { fwd_streams = streams })

-- The loop around it, over `n` cores from `lc_id` on.
pub icmp_cores : ℕ → ℕ → ℕ → ℕ → ℕ → Fwd → Outcome Fwd
icmp_cores zero max lc_id rxp rxq s = ok s
icmp_cores (suc n) max lc_id rxp rxq s = do
  lcore ← load s.nb_lcores s.fwd_lcores lc_id
  r ← icmp_core lcore.stream_nb max lcore.stream_idx rxp rxq s
  icmp_cores n max (lc_id + 1) r.1 r.2 r.0

pub icmp_echo_config_setup : ℕ → (ℕ → PortLimits) → Fwd → Outcome Fwd
icmp_echo_config_setup max ports s =
    let nb_tx = s.nb_txq * s.nb_fwd_ports in
    let nb_streams = (s.nb_rxq * s.nb_fwd_ports) % 2 ^ 16 in
    let some_lcores = if ltb nb_tx s.nb_fwd_lcores then nb_tx % 2 ^ 8 else s.nb_fwd_lcores in
    let nb_lcores = if ltb nb_streams some_lcores then nb_streams % 2 ^ 8 else some_lcores in
    let s1 = init_fwd_streams max ports (record s {
      cfg_nb_fwd_lcores = nb_lcores;
      cfg_nb_fwd_ports = s.nb_fwd_ports;
      cfg_nb_fwd_streams = nb_streams;
    }) in
    do s2 ← setup_fwd_config_of_each_lcore s1; icmp_cores nb_lcores max 0 0 0 s2
