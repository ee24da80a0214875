-- ===== src/Tests/Runs.antt =====
-- A run between two ports with one queue each, whose streams drop packets.
use platform.Common.{ℕ, ◌+◌, ◌≡◌, refl, arith, List, [], none, some, ok, true, false}
use platform.Common.{◌==◌, if◌then◌else◌}
use platform.Common.Int.{pos, negsuc}
use platform.Streams.{Fwd, Stream, zeroed, init_fwd_streams, give_streams, queues_fit}
use platform.Streams.{setup_fwd_config_of_each_lcore, stream_of}
use platform.Streams.Modes.{simple_pair, simple_streams, simple_fwd_config_setup, fwd_config_setup}
use platform.Running.{Stats, Tally, Run, Setting, Mode, Totals, no_stats, no_tally}
use platform.Running.{queues_missing, dcb_refuses}
use platform.Running.{start_packet_forwarding, stop_packet_forwarding}
use platform.Running.Begun.{Allowed}
use platform.Running.Bursts.{run_bursts}
use platform.Running.Whole.{Fits}
use platform.Running.Counts.{Counted, run-Counted}
use platform.Tests.Streaming.{limits, forwarding_two}
use platform.Tests.Mapping.{one_mapped}

abbrev one_queue : Fwd
one_queue = record forwarding_two { nb_rxq = 1; nb_txq = 1 }

-- The streams that are set up.
abbrev pair : ℕ → Stream
pair k =
    if k == 1
    then record zeroed { rx_port = 1; tx_port = 0; peer_addr = 0 }
    else if k == 0
    then record zeroed { rx_port = 0; tx_port = 1; peer_addr = 1 }
    else zeroed

abbrev set_up : Fwd
set_up = record one_queue {
  nb_fwd_streams = 2;
  fwd_streams = pair;
  fwd_lcores = λ j.
      if j == 1
      then record { stream_idx = 1; stream_nb = 1 }
      else if j == 0
      then record { stream_idx = 0; stream_nb = 1 }
      else record { stream_idx = 0; stream_nb = 0 };
  cfg_nb_fwd_streams = 2;
  cfg_nb_fwd_lcores = 2;
}

abbrev setting : Setting
setting = record {
  mode = Mode.other;
  icmp = false;
  dcb_config = false;
  max = 4;
  pools = 1;
  numa = false;
  info = λ p. record {
    nb_tcs = 0;
    tc_rxq = λ a b. record { base = 0; nb_queue = 0 };
    tc_txq = λ a b. record { base = 0; nb_queue = 0 };
  };
  limits = limits;
  interactive = true;
  lcore_id = 0;
  fwd_lcores_cpuids = λ i. i + 1;
  not_supported = negsuc 94;
  answer = λ calls c. pos 0;
}

-- Each port has 5 packets with a bad checksum from before.
abbrev resting : Run
resting = record {
  fwd = one_queue;
  ports = λ p. record {
    dcb_flag = false;
    stats = no_stats;
    tx_dropped = 9;
    rx_bad_ip_csum = 5;
    rx_bad_l4_csum = 5;
    rx_stream = none;
    tx_stream = none;
    tx_queue_stats_mapping_enabled = false;
    rx_queue_stats_mapping_enabled = false;
  };
  tallies = λ k. record no_tally { fwd_dropped = 7; rx_bad_ip_csum = 3 };
  stopped = λ k. true;
  test_done = true;
  dcb_test = false;
  queue_stats = one_mapped;
  map_calls = [];
  launches = [];
}

allowed : Allowed setting true resting set_up
unfolding queues_missing dcb_refuses fwd_config_setup simple_fwd_config_setup simple_streams
    simple_pair stream_of setup_fwd_config_of_each_lcore give_streams init_fwd_streams queues_fit
allowed = record {
  has_queues = refl;
  ports_started = refl;
  not_running = refl;
  dcb_agrees = refl;
  set_up = refl;
}

fits : Fits 4 set_up
fits = record {
  few = omega arith;
  listed = λ j h. omega arith;
  different = λ j k lt h e. omega (arith, e);
  of_streams = λ i h. ground arith;
}

abbrev device : ℕ → Stats
device p = record no_stats { ipackets = 100; opackets = 50 }

-- The counter of packets that were received has wrapped.
abbrev later : ℕ → Stats
later p = record no_stats { ipackets = 20; opackets = 90 }

run-Counted_example :
    (begun : Run) × (start_packet_forwarding setting true 1 device resting ≡ ok begun)
    × ((bursts : List (ℕ × Tally))
        → (r : Run) × (t : Totals) × (stop_packet_forwarding setting later
              (record begun { tallies = run_bursts bursts begun.tallies })
            ≡ ok (r, some t))
          × Counted setting device later (λ calls c. refl) resting set_up bursts r t)
run-Counted_example =
    run-Counted setting device later (λ calls c. refl) true 1 resting set_up allowed fits
