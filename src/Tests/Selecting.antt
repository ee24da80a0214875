-- ===== src/Tests/Selecting.antt =====
-- A pool with two addresses, a mask of two cores, and packets of two segments.
use platform.Common.{
  ℕ, ◌≡◌, ◌≢◌, ◌<◌, ◌+◌, ◌⊎◌, ◌↔◌, refl, ok, arith, true, false, Bool, ltb, [], ◌∷◌, sum_to,
}
use platform.Multicast.{Pool, mcast_addr_add, mcast_addr_remove}
use platform.Multicast.Members.{IsPool, Member, Programmed}
use platform.Multicast.Refines.{add_refines, remove_refines}
use platform.Selection.{Machine, Config, usable_lcore, set_fwd_lcores_mask, set_tx_pkt_segments}
use platform.Selection.Masks.{Bit, set_fwd_lcores_mask-selects}
use platform.Selection.Segments.{IsPacket, sum, set_tx_pkt_segments-IsPacket}

abbrev two_addresses : Pool
two_addresses = record { mc_addr_pool = λ j. j + 7; size = 32; mc_addr_nb = 2; programmed = [] }

two_addresses-IsPool : IsPool two_addresses
two_addresses-IsPool = record {
  fits = omega arith;
  steps = omega arith;
  small = omega arith;
  distinct = λ i j lt hi e. absurd (omega (arith, lt, e));
}

add_refines_example :
    (t : Pool) × (mcast_addr_add false true 9 two_addresses ≡ ok t)
    × IsPool t
    × ((x : ℕ) → Member x t ↔ (x ≡ 9) ⊎ Member x two_addresses)
    × (Programmed two_addresses → Programmed t)
add_refines_example = add_refines 9 two_addresses two_addresses-IsPool (omega arith)

remove_refines_example :
    (t : Pool) × (mcast_addr_remove false 7 two_addresses ≡ ok t)
    × IsPool t
    × ((x : ℕ) → Member x t ↔ (x ≢ 7) × Member x two_addresses)
    × (Programmed two_addresses → Programmed t)
remove_refines_example = remove_refines 7 two_addresses two_addresses-IsPool

abbrev eight_cores : Machine
eight_cores = record {
  lcore_enabled = λ c. ltb c 8;
  master_lcore = 0;
  port_enabled = λ p. ltb p 2;
  max_lcores = 128;
  max_ports = 32;
}

abbrev one_core : Config
one_core = record {
  nb_cfg_lcores = 1;
  nb_fwd_lcores = 1;
  fwd_lcores_cpuids = λ j. 1;
  nb_cfg_ports = 2;
  nb_fwd_ports = 2;
  fwd_ports_ids = λ j. j;
  nb_pkt_per_burst = 32;
  nb_txd = 512;
  mbuf_data_size = 2048;
  tx_pkt_seg_lengths = λ j. 64;
  tx_pkt_length = 64;
  tx_pkt_nb_segs = 1;
}

set_fwd_lcores_mask-selects_example :
    (accepted : Bool) × (t : Config) × (set_fwd_lcores_mask eight_cores 6 one_core
      ≡ ok (accepted, t))
    × (accepted ≡ true ↔ ((c : ℕ) → c < 64 → Bit 6 c → usable_lcore eight_cores c ≡ true))
    × (accepted ≡ false → t ≡ one_core)
    × (accepted ≡ true
        → (c : ℕ)
        → (c < 64) × Bit 6 c ↔ (j : ℕ) × (j < t.nb_fwd_lcores) × (t.fwd_lcores_cpuids j ≡ c))
set_fwd_lcores_mask-selects_example =
    set_fwd_lcores_mask-selects eight_cores 6 one_core (omega arith)
      (λ e. absurd (omega (arith, e)))

one_core-IsPacket : IsPacket one_core
unfolding sum_to
one_core-IsPacket = record {
  total = refl;
  headers = omega arith;
  buffers = λ j lt. omega arith;
  descriptors = omega arith;
}

short : sum (100 ∷ 200 ∷ []) < 65536
unfolding sum
short = omega arith

set_tx_pkt_segments-IsPacket_example :
    (t : Config) × (set_tx_pkt_segments (100 ∷ 200 ∷ []) one_core ≡ ok t) × IsPacket t
set_tx_pkt_segments-IsPacket_example =
    set_tx_pkt_segments-IsPacket (100 ∷ 200 ∷ []) one_core (omega arith) short one_core-IsPacket
