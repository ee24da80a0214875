-- ===== src/Tests/Passing.antt =====
-- A burst of three packets, of which the device takes one at a time.
use platform.Common.{ℕ, ◌+◌, ◌≡◌, refl, arith, List, [], ◌∷◌, true, false}
use platform.Common.{ltb, if◌then◌else◌}
use platform.Settings.Vlan.{TxTag}
use platform.Running.{no_tally}
use platform.Engines.{Packet, mac_forward, mac_swap, pkt_burst_io_forward, pkt_burst_mac_forward}
use platform.Engines.{pkt_burst_mac_swap}
use platform.Engines.Sent.{Forwarded}
use platform.Engines.Rewritten.{bursts_forwarded, swaps_return, contents, exchanged}

abbrev frame : ℕ → Packet
frame n = record {
  d_addr = n;
  s_addr = n + 100;
  tx_vlan_pkt = false;
  tx_qinq_pkt = false;
  l2_len = 0;
  l3_len = 0;
  vlan_tci = 0;
  vlan_tci_outer = 0;
  rest = n ∷ [];
}

abbrev three : List Packet
three = frame 1 ∷ frame 2 ∷ frame 3 ∷ []

abbrev one_of : ℕ → ℕ → ℕ
one_of k n = if ltb 1 n then 1 else n

abbrev seven : TxTag
seven = record { tx_ol_flags = 64; tx_vlan_id = 7; tx_vlan_id_outer = 0 }

bursts_forwarded_example :
    Forwarded (λ mb. mb) 2 three no_tally (pkt_burst_io_forward one_of true 1 three no_tally)
    × Forwarded
        (mac_forward 8 9 seven)
        2
        three
        no_tally
        (pkt_burst_mac_forward one_of 8 9 seven true 1 three no_tally)
    × Forwarded
        (mac_swap seven)
        2
        three
        no_tally
        (pkt_burst_mac_swap one_of seven true 1 three no_tally)
bursts_forwarded_example =
    bursts_forwarded one_of 8 9 seven true 1 three no_tally (λ k n. ground arith) (omega arith)

-- What is sent after one swap, and after two.
abbrev sent_once : List Packet
sent_once = (pkt_burst_mac_swap (λ k n. n) seven true 1 three no_tally).1.wire

swaps_return_example :
    (contents sent_once ≡ exchanged three)
    × (contents (pkt_burst_mac_swap (λ k n. n) seven true 1 sent_once no_tally).1.wire
        ≡ contents three)
swaps_return_example =
    swaps_return (λ k n. n) (λ k n. refl) seven seven true 1 three no_tally no_tally (omega arith)
