-- ===== src/Tests/Mapping.antt =====
-- The settings of the ports: calls that set VLAN tags, and a queue that is mapped to a counter.
use platform.Common.{ℕ, ◌+◌, ◌≤◌, ◌≡◌, ◌≢◌, refl, arith, List, [], ◌∷◌, some, ok, fault}
use platform.Common.{Bool, true, false, ◌⊎◌, inl, ◌==◌}
use platform.Common.Int.{pos, negsuc}
use mathlib.Core.List.{Mem}
use platform.Forwarding.{port_all, port_id_is_invalid}
use platform.Settings.Vlan.{TxTag, TagCall, tx_vlan_reset, tag_calls}
use platform.Settings.Vlan.Tagged.{IsTagged, tag_calls-IsTagged, reset_all_faults}
use platform.Settings.Mappings.{Mapping, Mappings, QueueStats, MapCall, set_qmap, map_registers}
use platform.Settings.Mappings.Lookup.{counter_of, set_qmap-receive}
use platform.Settings.Mappings.Registers.{set_qmap_reaches}

abbrev untagged : ℕ → TxTag
untagged p = record { tx_ol_flags = 0; tx_vlan_id = 0; tx_vlan_id_outer = 0 }

untagged-IsTagged : (p : ℕ) → IsTagged (untagged p)
untagged-IsTagged p = record {
  exclusive = inl refl;
  untagged = λ a b. refl;
  single = λ a. refl;
  small = (omega arith, omega arith);
}

-- Port 1 has the extended offload.
abbrev extended : ℕ → Bool
extended p = p == 1

abbrev tags : List TagCall
tags =
    TagCall.vlan 0 100
    ∷ TagCall.qinq 1 200 300
    ∷ TagCall.vlan 1 5
    ∷ TagCall.qinq 0 5 6
    ∷ TagCall.vlan 0 4096
    ∷ TagCall.reset 1
    ∷ TagCall.vlan 0 7
    ∷ []

tag_calls-IsTagged_example :
    (after : ℕ → TxTag) × (tag_calls (λ p. true) extended 32 tags untagged ≡ ok after)
    × ((q : ℕ) → IsTagged (after q))
tag_calls-IsTagged_example =
    tag_calls-IsTagged (λ p. true) extended 32 tags untagged
      (
        omega arith,
        (
          omega arith,
          (omega arith, (omega arith, (omega arith, (omega arith, (omega arith, tt))))),
        ),
      )
      untagged-IsTagged

reset_all_faults_example : tx_vlan_reset (λ p. true) extended 32 port_all untagged ≡ fault
reset_all_faults_example = reset_all_faults (λ p. true) extended 32 untagged (omega arith)

abbrev blank_entry : Mapping
blank_entry = record { port_id = 0; queue_id = 0; stats_counter_id = 0 }

abbrev pub one_mapped : QueueStats
one_mapped = record {
  enabled = λ p. true;
  nb_rxq = 4;
  nb_txq = 4;
  tx = record { entries = λ i. blank_entry; number = 0 };
  rx = record {
    entries = λ i. record { port_id = 0; queue_id = 3; stats_counter_id = 1 };
    number = 1;
  };
}

valid_port : port_id_is_invalid one_mapped.enabled 32 1 ≡ false
unfolding port_id_is_invalid
valid_port = refl

set_qmap-receive_example :
    (m : Mappings) × (set_qmap 32 16 1 true 2 9 one_mapped ≡ ok (record one_mapped { rx = m }))
    × (counter_of m 1 2 ≡ some 9)
    × ((p' q' : ℕ) → (p' ≢ 1) ⊎ (q' ≢ 2) → counter_of m p' q' ≡ counter_of one_mapped.rx p' q')
    × (m.number ≤ 1 + 1)
set_qmap-receive_example =
    set_qmap-receive 32 16 one_mapped 1 2 9 valid_port (omega arith) (omega arith) (omega arith)

set_qmap_reaches_example :
    (s' : QueueStats) × (set_qmap 32 16 1 true 2 9 one_mapped ≡ ok s')
    × ((calls : List MapCall)
        → (tx_after : Bool) × (calls' : List MapCall) × (map_registers
              (λ calls c. pos 0)
              (negsuc 94)
              1
              s'
              (false, false)
              calls
            ≡ ok (tx_after, true, calls'))
          × Mem (MapCall.set_rx_mapping 1 2 9) calls')
set_qmap_reaches_example =
    set_qmap_reaches (λ calls c. pos 0) (λ calls c. refl) 32 16 (negsuc 94) one_mapped 1 2 9
      (false, false) valid_port (omega arith) (omega arith) (omega arith)
