-- ===== src/Engines/Rewritten.antt =====
-- What the engines that pass packets on do to a burst.
use platform.Common.{ℕ, ◌+◌, ◌%◌, ◌^◌, ◌≤◌, ◌<◌, ◌≡◌, refl, sym, ap, arith}
use platform.Common.{Bool, ◌==◌, if◌then◌else◌, Bool-cases, inl, inr}
use platform.Common.{List, [], ◌∷◌, length, ge→ltb}
use platform.Settings.Vlan.{TxTag}
use platform.Running.{Tally}
use platform.Engines.{Packet, tagged, mac_forward, mac_swap, rewrite_burst, tx_burst, send}
use platform.Engines.{
  forward_burst, pkt_burst_io_forward, pkt_burst_mac_forward, pkt_burst_mac_swap,
}
use platform.Engines.Sent.{
  Forwarded, forward_burst-Forwarded, length-rewrite_burst, take_all, no_packets,
}

-- If the device never takes more packets than it is offered, then of a burst of fewer than 65536
-- packets each of pkt_burst_io_forward, pkt_burst_mac_forward and pkt_burst_mac_swap sends or
-- frees each packet once, rewritten as the engine does, in their order, the sent ones first;
-- modulo 2 to the 32 the counters of the stream grow by the packets received, sent and freed; and
-- at most one call more than burst_tx_retry_num is made where retrying is enabled, and at most
-- one where it is not.
pub bursts_forwarded :
    (taken : ℕ → ℕ → ℕ) (peer_addr eth_addr : ℕ) (txp : TxTag) (retry_enabled : Bool) (num : ℕ)
    (received : List Packet) (c : Tally)
    → ((k n : ℕ) → taken k n ≤ n)
    → length received < 2 ^ 16
    → (let limit = if retry_enabled then 1 + num else 1 in
        Forwarded
          (λ mb. mb)
          limit
          received
          c
          (pkt_burst_io_forward taken retry_enabled num received c)
        × Forwarded
            (mac_forward peer_addr eth_addr txp)
            limit
            received
            c
            (pkt_burst_mac_forward taken peer_addr eth_addr txp retry_enabled num received c)
        × Forwarded
            (mac_swap txp)
            limit
            received
            c
            (pkt_burst_mac_swap taken txp retry_enabled num received c))
unfolding pkt_burst_io_forward pkt_burst_mac_forward pkt_burst_mac_swap
bursts_forwarded taken peer_addr eth_addr txp retry_enabled num received c within short = (
  forward_burst-Forwarded taken (λ mb. mb) retry_enabled num received c within short,
  forward_burst-Forwarded taken (mac_forward peer_addr eth_addr txp) retry_enabled num received c
      within short,
  forward_burst-Forwarded taken (mac_swap txp) retry_enabled num received c within short,
)

-- The destination, the source and the rest of each packet.
abbrev pub contents : List Packet → List (ℕ × ℕ × List ℕ)
contents [] = []
contents (mb ∷ mbs) = (mb.d_addr, mb.s_addr, mb.rest) ∷ contents mbs

-- With the source of each packet as its destination, and the other way round.
abbrev pub exchanged : List Packet → List (ℕ × ℕ × List ℕ)
exchanged [] = []
exchanged (mb ∷ mbs) = (mb.s_addr, mb.d_addr, mb.rest) ∷ exchanged mbs

swapped-exchanged :
    (txp : TxTag) (mbs : List Packet) → contents (rewrite_burst (mac_swap txp) mbs) ≡ exchanged mbs
unfolding rewrite_burst mac_swap tagged
swapped-exchanged txp [] = refl
swapped-exchanged txp (mb ∷ mbs) =
    ap (λ l. (mb.s_addr, mb.d_addr, mb.rest) ∷ l) (swapped-exchanged txp mbs)

swapped_twice :
    (there back : TxTag) (mbs : List Packet)
    → contents (rewrite_burst (mac_swap back) (rewrite_burst (mac_swap there) mbs)) ≡ contents mbs
unfolding rewrite_burst mac_swap tagged
swapped_twice there back [] = refl
swapped_twice there back (mb ∷ mbs) =
    ap (λ l. (mb.d_addr, mb.s_addr, mb.rest) ∷ l) (swapped_twice there back mbs)

module _ (taken : ℕ → ℕ → ℕ) (all : (k n : ℕ) → taken k n ≡ n) where
  first-all :
      (pkts : List Packet)
      → length pkts < 2 ^ 16
      → tx_burst taken pkts (record { calls = 0; wire = []; nb_tx = 0 })
        ≡ record { calls = 0 + 1; wire = pkts; nb_tx = length pkts }
  unfolding tx_burst
  first-all pkts short =
      let n : (0 + length pkts) % 2 ^ 16 ≡ length pkts = omega (arith, short) in
      rw (all 0 (length pkts), n, take_all pkts) refl

  send-all :
      (retry_enabled : Bool) (num : ℕ) (pkts : List Packet)
      → length pkts < 2 ^ 16
      → send taken retry_enabled num pkts
        ≡ record { calls = 0 + 1; wire = pkts; nb_tx = length pkts }
  unfolding send
  send-all retry_enabled num pkts short =
      rw (first-all pkts short, ge→ltb (length pkts) (length pkts) (omega arith)) refl

  burst-all :
      (f : Packet → Packet) (retry_enabled : Bool) (num : ℕ) (received : List Packet) (c : Tally)
      → length received < 2 ^ 16
      → (forward_burst taken f retry_enabled num received c).1.wire ≡ rewrite_burst f received
  unfolding forward_burst
  burst-all f retry_enabled num received c short =
      let len = length-rewrite_burst f received in
      elim (Bool-cases (length received == 0)) [
        | inl e ↦ rw e (sym (no_packets f received (ground (arith, e))))
        | inr e ↦
            rw
              (
                e,
                send-all retry_enabled num (rewrite_burst f received) (omega (arith, len, short)),
                len,
                ge→ltb (length received) (length received) (omega arith),
              )
              refl
      ]

  -- If the device takes all packets that it is offered, a burst of fewer than 65536 packets that
  -- passes through pkt_burst_mac_swap is sent with the destination and the source of each packet
  -- exchanged and the rest of it as it was; and when what was sent passes through
  -- pkt_burst_mac_swap again, also for another port, it is sent with destination, source and rest
  -- as they were at first.
  pub swaps_return :
      (there back : TxTag) (retry_enabled : Bool) (num : ℕ) (received : List Packet) (c c' : Tally)
      → length received < 2 ^ 16
      → (let once = (pkt_burst_mac_swap taken there retry_enabled num received c).1.wire in
          let twice = (pkt_burst_mac_swap taken back retry_enabled num once c').1.wire in
          (contents once ≡ exchanged received) × (contents twice ≡ contents received))
  unfolding pkt_burst_mac_swap
  swaps_return there back retry_enabled num received c c' short =
      let once = burst-all (mac_swap there) retry_enabled num received c short in
      let len = length-rewrite_burst (mac_swap there) received in
      let twice =
        burst-all (mac_swap back) retry_enabled num (rewrite_burst (mac_swap there) received) c'
          (omega (arith, len, short)) in
      (
        rw once (swapped-exchanged there received),
        rw (once, twice) (swapped_twice there back received),
      )
