-- ===== src/Engines.antt =====
-- The engines that pass packets on: `pkt_burst_io_forward` of src/CaptureDpdk/iofwd.c,
-- `pkt_burst_mac_forward` of macfwd.c and `pkt_burst_mac_swap` of macswap.c. A packet is the fields of
-- its headers and of its `rte_mbuf` that they write, and the rest. The device takes of the packets it
-- is offered as many as `taken` says, by the number of the call and the packets offered.
pub mod Sent
pub mod Rewritten
use platform.Common.{ℕ, zero, suc, ◌+◌, ◌-◌, ◌%◌, ◌^◌, Bool, ltb, ◌==◌, ◌&&◌, if◌then◌else◌}
use platform.Common.{List, [], ◌∷◌, ◌++◌, length, take, drop}
use platform.Settings.Vlan.{TxTag, has_flag, insert_vlan, insert_qinq}
use platform.Running.{Tally}

-- `ol_flags` is the two flags that the engines set, `PKT_TX_VLAN_PKT` and `PKT_TX_QINQ_PKT`.
pub record Packet : Type 0 where
  pub d_addr : ℕ
  pub s_addr : ℕ
  pub tx_vlan_pkt : Bool
  pub tx_qinq_pkt : Bool
  pub l2_len : ℕ
  pub l3_len : ℕ
  pub vlan_tci : ℕ
  pub vlan_tci_outer : ℕ
  pub rest : List ℕ

-- The fields of the `rte_mbuf`, from what the port inserts.
unfoldable pub tagged : TxTag → Packet → Packet
tagged txp mb = record mb {
  tx_vlan_pkt = has_flag insert_vlan txp.tx_ol_flags;
  tx_qinq_pkt = has_flag insert_qinq txp.tx_ol_flags;
  l2_len = 14;
  l3_len = 20;
  vlan_tci = txp.tx_vlan_id;
  vlan_tci_outer = txp.tx_vlan_id_outer;
}

-- The body of the loop of `pkt_burst_mac_forward`.
unfoldable pub mac_forward : ℕ → ℕ → TxTag → Packet → Packet
mac_forward peer_addr eth_addr txp mb =
    tagged txp (record mb { d_addr = peer_addr; s_addr = eth_addr })

-- The body of the loop of `pkt_burst_mac_swap`.
unfoldable pub mac_swap : TxTag → Packet → Packet
mac_swap txp mb =
    let addr = mb.d_addr in tagged txp (record mb { d_addr = mb.s_addr; s_addr = addr })

-- The loop over a burst.
pub rewrite_burst : (Packet → Packet) → List Packet → List Packet
rewrite_burst f [] = []
rewrite_burst f (mb ∷ mbs) = f mb ∷ rewrite_burst f mbs

-- The calls of `rte_eth_tx_burst` made so far, the packets that the device took, in their order, and
-- `nb_tx`.
pub record Sending : Type 0 where
  pub calls : ℕ
  pub wire : List Packet
  pub nb_tx : ℕ

module _ (taken : ℕ → ℕ → ℕ) where
  -- A call for the packets from `nb_tx` on.
  pub tx_burst : List Packet → Sending → Sending
  tx_burst pkts s =
      let offered = drop s.nb_tx pkts in
      let n = taken s.calls (length offered) in
      record {
        calls = s.calls + 1;
        wire = s.wire ++ take n offered;
        nb_tx = (s.nb_tx + n) % 2 ^ 16;
      }

  -- The loop, with `n` retries left.
  pub retries : ℕ → List Packet → Sending → Sending
  retries zero pkts s = s
  retries (suc n) pkts s =
      let rest = retries n pkts (tx_burst pkts s) in if ltb s.nb_tx (length pkts) then rest else s

  pub send : Bool → ℕ → List Packet → Sending
  send retry_enabled burst_tx_retry_num pkts =
      let first = tx_burst pkts (record { calls = 0; wire = []; nb_tx = 0 }) in
      if ltb first.nb_tx (length pkts) && retry_enabled
      then retries burst_tx_retry_num pkts first
      else first

  -- A burst that is received: the counters after it, what is sent, and the packets that are freed.
  pub forward_burst :
      (Packet → Packet) → Bool → ℕ → List Packet → Tally → Tally × Sending × List Packet
  forward_burst f retry_enabled burst_tx_retry_num received c =
      let nb_rx = length received in
      let pkts = rewrite_burst f received in
      let s = send retry_enabled burst_tx_retry_num pkts in
      let counted = record c {
        rx_packets = (c.rx_packets + nb_rx) % 2 ^ 32;
        tx_packets = (c.tx_packets + s.nb_tx) % 2 ^ 32;
      } in
      if nb_rx == 0
      then (c, record { calls = 0; wire = []; nb_tx = 0 }, [])
      else if ltb s.nb_tx nb_rx
      then (
        record counted { fwd_dropped = (c.fwd_dropped + (nb_rx - s.nb_tx)) % 2 ^ 32 },
        s,
        drop s.nb_tx pkts,
      )
      else (counted, s, [])

  pub pkt_burst_io_forward : Bool → ℕ → List Packet → Tally → Tally × Sending × List Packet
  pkt_burst_io_forward retry_enabled num received c =
      forward_burst (λ mb. mb) retry_enabled num received c

  pub pkt_burst_mac_forward :
      ℕ → ℕ → TxTag → Bool → ℕ → List Packet → Tally → Tally × Sending × List Packet
  pkt_burst_mac_forward peer_addr eth_addr txp retry_enabled num received c =
      forward_burst (mac_forward peer_addr eth_addr txp) retry_enabled num received c

  pub pkt_burst_mac_swap : TxTag → Bool → ℕ → List Packet → Tally → Tally × Sending × List Packet
  pkt_burst_mac_swap txp retry_enabled num received c =
      forward_burst (mac_swap txp) retry_enabled num received c
