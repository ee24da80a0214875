-- ===== src/Tests/Streaming.antt =====
-- Two ports with two queues each, which three cores forward between.
use platform.Common.{ℕ, ◌≡◌, ◌<◌, refl, ok, arith, true, ltb}
use platform.Streams.{Topology, PortLimits, Fwd, zeroed, queues_fit, rss_fwd_config_setup}
use platform.Streams.{icmp_echo_config_setup}
use platform.Streams.Tiles.{Tiles}
use platform.Streams.Rss.{rss_slot, every_queue_has_stream}
use platform.Streams.Modes.{simple_fwd_config_setup}
use platform.Streams.Modes.Simple.{port_slot}
use platform.Streams.Modes.Ports.{every_port_has_stream}
use platform.Streams.EchoCores.{echo_slot, every_queue_echoes}

abbrev pub limits : ℕ → PortLimits
limits p = record { enabled = ltb p 2; max_rx_queues = 8; max_tx_queues = 8 }

abbrev pub forwarding_two : Fwd
forwarding_two = record {
  nb_ports = 2;
  nb_rxq = 2;
  nb_txq = 2;
  nb_lcores = 4;
  nb_fwd_lcores = 3;
  nb_fwd_ports = 2;
  fwd_ports_ids = λ j. j;
  port_topology = Topology.paired;
  retry_enabled = 0;
  nb_fwd_streams = 0;
  fwd_streams = λ k. zeroed;
  fwd_lcores = λ j. record { stream_idx = 0; stream_nb = 0 };
  cfg_nb_fwd_streams = 4;
  cfg_nb_fwd_lcores = 3;
  cfg_nb_fwd_ports = 2;
}

limits_fit : queues_fit 4 0 limits forwarding_two ≡ true
unfolding queues_fit
limits_fit = refl

every_queue_has_stream_example :
    (c : Fwd) × (rss_fwd_config_setup 4 limits forwarding_two ≡ ok c)
    × (c.cfg_nb_fwd_streams ≡ 4)
    × Tiles c.cfg_nb_fwd_lcores 0 0 c.cfg_nb_fwd_streams c.fwd_lcores
    × ((k : ℕ) → k < c.cfg_nb_fwd_streams → c.fwd_streams k ≡ rss_slot c 2 k)
every_queue_has_stream_example =
    every_queue_has_stream 4 limits forwarding_two limits_fit (omega arith) (omega arith) refl
      (omega arith) (omega arith) (omega arith) (omega arith) (omega arith) (omega arith)
      (omega arith)

every_port_has_stream_example :
    (c : Fwd) × (simple_fwd_config_setup 4 limits forwarding_two ≡ ok c)
    × (c.cfg_nb_fwd_streams ≡ 2)
    × Tiles c.cfg_nb_fwd_lcores 0 0 c.cfg_nb_fwd_streams c.fwd_lcores
    × ((p : ℕ) → p < 2 → c.fwd_streams p ≡ port_slot c p)
every_port_has_stream_example =
    every_port_has_stream 4 limits forwarding_two limits_fit (omega arith) (omega arith)
      (omega arith) (omega arith) (omega arith) (omega arith) (omega arith) (omega arith)
      (omega arith) (λ e. refl)

every_queue_echoes_example :
    (c : Fwd) × (icmp_echo_config_setup 4 limits forwarding_two ≡ ok c)
    × (c.cfg_nb_fwd_streams ≡ 4)
    × Tiles c.cfg_nb_fwd_lcores 0 0 c.cfg_nb_fwd_streams c.fwd_lcores
    × ((k : ℕ) → k < c.cfg_nb_fwd_streams → c.fwd_streams k ≡ echo_slot c 2 k)
every_queue_echoes_example =
    every_queue_echoes 4 limits forwarding_two limits_fit (omega arith) (omega arith) (omega arith)
      (omega arith) (omega arith) (omega arith) (omega arith) (omega arith) (omega arith)
      (omega arith) (omega arith)
