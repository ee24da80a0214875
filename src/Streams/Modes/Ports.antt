-- ===== src/Streams/Modes/Ports.antt =====
-- `simple_fwd_config_setup` as a whole.
use platform.Common.{ℕ, ◌+◌, ◌*◌, ◌%◌, ◌^◌, ◌≤◌, ◌<◌, ◌≡◌, refl, ◌∙◌, arith, inl, inr, true}
use platform.Common.{ok, ltb, if◌then◌else◌, Bool-cases}
use native.Mathlib.Nat.{le-mul_of_pos_right}
use platform.Streams.{
  Topology, PortLimits, Fwd, queues_fit, init_fwd_streams, setup_fwd_config_of_each_lcore,
}
use platform.Streams.Modes.{simple_streams, simple_fwd_config_setup}
use platform.Streams.Modes.Simple.{port_slot, ports-slots}
use platform.Streams.Slots.{init_fwd_streams-eq}
use platform.Streams.Rss.{queues_fit_cfg}
use platform.Streams.Tiles.{Tiles, lcores_tiled}

-- The queues of a port, the larger number of the two directions.
abbrev pub nb_queues : Fwd → ℕ
nb_queues s = if ltb s.nb_rxq s.nb_txq then s.nb_txq else s.nb_rxq

least-cores :
    (nb wanted : ℕ)
    → 0 < nb
    → 0 < wanted
    → wanted < 2 ^ 8
    → (l : ℕ) × ((if ltb nb wanted then nb else wanted) ≡ l)
      × (0 < l)
      × (l ≤ nb)
      × (l < 2 ^ 8)
      × (l ≤ wanted)
least-cores nb wanted some some' byte = elim (Bool-cases (ltb nb wanted)) [
  | inl e ↦
      let lt : nb < wanted = ground (arith, e) in
      (nb, rw e refl, some, omega arith, omega (arith, lt), omega (arith, lt))
  | inr e ↦
      let ge : wanted ≤ nb = ground (arith, e) in (wanted, rw e refl, some', ge, byte, omega arith)
]

setup-steps :
    (max : ℕ) (ports : ℕ → PortLimits) (s s1 s2 c : Fwd) (lcores : ℕ)
    → (if ltb s.nb_fwd_ports s.nb_fwd_lcores then s.nb_fwd_ports else s.nb_fwd_lcores) ≡ lcores
    → init_fwd_streams max ports
        (record s { cfg_nb_fwd_ports = s.nb_fwd_ports; cfg_nb_fwd_streams = s.nb_fwd_ports })
      ≡ s1
    → setup_fwd_config_of_each_lcore (record s1 { cfg_nb_fwd_lcores = lcores }) ≡ ok s2
    → simple_streams s.nb_fwd_ports max 0 s2 ≡ ok c
    → simple_fwd_config_setup max ports s ≡ ok c
unfolding simple_fwd_config_setup
setup-steps max ports s s1 s2 c lcores least init setup loop = rw (least, init, setup, loop) refl

-- Let the ports have the queues, at least one; let there be a forwarding port, at most as many as
-- ports, these fewer than 256 and within the list, and their number even where they are paired;
-- let there be a forwarding core, fewer than 256 and each allocated; and let the queues of all
-- ports be fewer than 65535. Then simple_fwd_config_setup returns; each forwarding port has the
-- stream of its own number, from its queue 0 to queue 0 of the port that its topology gives; and
-- the cores have these streams between them, each the ones behind those of the core before it.
pub every_port_has_stream :
    (max : ℕ) (ports : ℕ → PortLimits) (s : Fwd)
    → queues_fit max 0 ports s ≡ true
    → s.nb_fwd_ports ≤ s.nb_ports
    → 0 < nb_queues s
    → s.nb_ports * nb_queues s + 1 < 2 ^ 16
    → s.nb_fwd_ports ≤ max
    → 0 < s.nb_fwd_ports
    → s.nb_fwd_ports < 2 ^ 8
    → 0 < s.nb_fwd_lcores
    → s.nb_fwd_lcores < 2 ^ 8
    → s.nb_fwd_lcores ≤ s.nb_lcores
    → (s.port_topology ≡ Topology.paired → s.nb_fwd_ports % 2 ≡ 0)
    → (c : Fwd) × (simple_fwd_config_setup max ports s ≡ ok c)
      × (c.cfg_nb_fwd_streams ≡ s.nb_fwd_ports)
      × Tiles c.cfg_nb_fwd_lcores 0 0 c.cfg_nb_fwd_streams c.fwd_lcores
      × ((p : ℕ) → p < s.nb_fwd_ports → c.fwd_streams p ≡ port_slot c p)
every_port_has_stream max ports s fit few some_queues small listed some_ports byte some_lcores byte'
      room even =
    let n = s.nb_fwd_ports in
    let q = nb_queues s in
    let s0 = record s { cfg_nb_fwd_ports = n; cfg_nb_fwd_streams = n } in
    let most : n ≤ s.nb_ports * q =
      let x = le-mul_of_pos_right s.nb_ports some_queues in omega (arith, few, x) in
    let (lcores, least, l1, l2, l3, l4) =
      least-cores n s.nb_fwd_lcores some_ports some_lcores byte' in
    let (old, einit) =
      init_fwd_streams-eq max ports s0 q
        (queues_fit_cfg max 0 ports s s.cfg_nb_fwd_lcores n n ∙ fit) refl some_queues
        (omega (arith, small)) in
    let s1 = record s0 { nb_fwd_streams = s.nb_ports * q; fwd_streams = old } in
    let (cores, esetup, tiles, each) =
      lcores_tiled (record s1 { cfg_nb_fwd_lcores = lcores }) l1 l2 (omega (arith, most, small)) l3
        (omega (arith, l4, room)) in
    let s2 = record s1 { cfg_nb_fwd_lcores = lcores; fwd_lcores = cores } in
    let (streams, eloop, new) =
      ports-slots max s.port_topology s2 (record { ports = listed; byte = byte; room = most }) refl
        even in
    (
      record s2 { fwd_streams = streams },
      setup-steps max ports s s1 s2 (record s2 { fwd_streams = streams }) lcores least einit esetup
          eloop,
      refl,
      tiles,
      new,
    )
