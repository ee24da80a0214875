-- ===== src/Running/Whole.antt =====
-- A whole run: what is counted from its start to its stop.
use platform.Common.{ℕ, ◌+◌, ◌%◌, ◌^◌, ◌≤◌, ◌<◌, ◌≡◌, ◌≢◌, refl, ◌∙◌, sym, ap, arith, ok}
use platform.Common.{some, true, false}
use platform.Choice.Cores.Layout.{sum_from}
use platform.Streams.{Fwd}
use platform.Running.{Stats, PortCounts, Run, Setting, Totals, no_totals, minus, add_port}
use platform.Running.{stop_cores, stop_packet_forwarding}
use platform.Running.Added.{share, add_streams-Adds}
use platform.Running.Summed.{sum_from_ext, add_ports-returns, add_ports-total}

-- The forwarding ports are in the table and different, and so are the ports of the streams in it.
pub record Fits (max : ℕ) (f : Fwd) : Type 0 where
  pub few : f.cfg_nb_fwd_ports ≤ max
  pub listed : (j : ℕ) → j < f.cfg_nb_fwd_ports → f.fwd_ports_ids j < max
  pub different : (j k : ℕ) → j < k → k < f.cfg_nb_fwd_ports → f.fwd_ports_ids j ≢ f.fwd_ports_ids k
  pub of_streams :
      (i : ℕ)
      → i < f.cfg_nb_fwd_streams
      → ((f.fwd_streams i).tx_port < max) × ((f.fwd_streams i).rx_port < max)

recv_adds :
    (now : Stats) (port : PortCounts) (t : Totals)
    → (add_port now port t).total_recv
      ≡ (t.total_recv + minus now.ipackets port.stats.ipackets) % 2 ^ 64
unfolding add_port
recv_adds now port t = refl

xmit_adds :
    (now : Stats) (port : PortCounts) (t : Totals)
    → (add_port now port t).total_xmit
      ≡ (t.total_xmit + minus now.opackets port.stats.opackets) % 2 ^ 64
unfolding add_port
xmit_adds now port t = refl

drop_adds :
    (now : Stats) (port : PortCounts) (t : Totals)
    → (add_port now port t).total_tx_dropped ≡ (t.total_tx_dropped + port.tx_dropped) % 2 ^ 64
unfolding add_port
drop_adds now port t = refl

-- What a stopped run leaves, from the state `s` that it is stopped in.
pub record Stopped (device : ℕ → Stats) (s r : Run) (t : Totals) : Type 0 where
  pub done : r.test_done ≡ true
  pub dropped :
      (p : ℕ)
      → (r.ports p).tx_dropped % 2 ^ 64
        ≡ ((s.ports p).tx_dropped
            + sum_from s.fwd.cfg_nb_fwd_streams 0
                (share (λ i. (s.fwd.fwd_streams i).tx_port) (λ c. c.fwd_dropped) s.tallies p))
          % 2 ^ 64
  pub bad_ip :
      (p : ℕ)
      → (r.ports p).rx_bad_ip_csum % 2 ^ 64
        ≡ ((s.ports p).rx_bad_ip_csum
            + sum_from s.fwd.cfg_nb_fwd_streams 0
                (share (λ i. (s.fwd.fwd_streams i).rx_port) (λ c. c.rx_bad_ip_csum) s.tallies p))
          % 2 ^ 64
  pub bad_l4 :
      (p : ℕ)
      → (r.ports p).rx_bad_l4_csum % 2 ^ 64
        ≡ ((s.ports p).rx_bad_l4_csum
            + sum_from s.fwd.cfg_nb_fwd_streams 0
                (share (λ i. (s.fwd.fwd_streams i).rx_port) (λ c. c.rx_bad_l4_csum) s.tallies p))
          % 2 ^ 64
  pub received :
      t.total_recv % 2 ^ 64
      ≡ sum_from s.fwd.cfg_nb_fwd_ports 0 (λ j.
        minus
          (device (s.fwd.fwd_ports_ids j)).ipackets
          (s.ports (s.fwd.fwd_ports_ids j)).stats.ipackets)
        % 2 ^ 64
  pub sent :
      t.total_xmit % 2 ^ 64
      ≡ sum_from s.fwd.cfg_nb_fwd_ports 0 (λ j.
        minus
          (device (s.fwd.fwd_ports_ids j)).opackets
          (s.ports (s.fwd.fwd_ports_ids j)).stats.opackets)
        % 2 ^ 64
  pub all_dropped :
      t.total_tx_dropped % 2 ^ 64
      ≡ sum_from s.fwd.cfg_nb_fwd_ports 0 (λ j. (r.ports (s.fwd.fwd_ports_ids j)).tx_dropped)
        % 2 ^ 64

module _ (g : Setting) where
  -- If a run is going on, stop_packet_forwarding returns.
  pub stop-Stopped :
      (device : ℕ → Stats) (s : Run)
      → s.test_done ≡ false
      → Fits g.max s.fwd
      → (r : Run) × (t : Totals) × (stop_packet_forwarding g device s ≡ ok (r, some t))
        × Stopped device s r t
  unfolding stop_packet_forwarding
  stop-Stopped device s running f =
      let n = s.fwd.cfg_nb_fwd_ports in
      let ids = s.fwd.fwd_ports_ids in
      let zero_first : (b : ℕ) → b < 0 + n → b < n = λ b h. omega arith in
      let known : (j : ℕ) → j < 0 + n → ids j < g.max = λ j h. f.listed j (zero_first j h) in
      let apart : (j k : ℕ) → j < k → k < 0 + n → ids j ≢ ids k =
        λ j k lt h. f.different j k lt (zero_first k h) in
      let few : 0 + n ≤ g.max = let w = f.few in omega (arith, w) in
      let (ports, e, a) =
        add_streams-Adds g s.fwd s.tallies s.fwd.cfg_nb_fwd_streams 0 s.ports
          (λ i h. f.of_streams i (omega arith)) in
      let (after, t, e', tx, ip, l4) =
        add_ports-returns g.max device ids n 0 ports no_totals few known in
      let stopped = stop_cores g s.fwd.cfg_nb_fwd_lcores 0 s.stopped in
      (
        record s { stopped = stopped; ports = after; test_done = true },
        t,
        rw (running, e, e') refl,
        record {
          done = refl;
          dropped = λ p. ap (λ (x : ℕ). x % 2 ^ 64) (tx p) ∙ a.dropped p;
          bad_ip = λ p. ap (λ (x : ℕ). x % 2 ^ 64) (ip p) ∙ a.bad_ip p;
          bad_l4 = λ p. ap (λ (x : ℕ). x % 2 ^ 64) (l4 p) ∙ a.bad_l4 p;
          received =
              let total =
                add_ports-total g.max device ids (λ c. c.total_recv)
                  (λ now port. minus now.ipackets port.stats.ipackets) recv_adds n 0 ports after
                  no_totals t few known apart e' in
              let same =
                sum_from_ext n 0
                  (λ j. minus (device (ids j)).ipackets (ports (ids j)).stats.ipackets)
                  (λ j. minus (device (ids j)).ipackets (s.ports (ids j)).stats.ipackets)
                  (λ j lo hi.
                    ap (λ c. minus (device (ids j)).ipackets c.ipackets) (a.same_stats (ids j))) in
              omega (arith, total, same);
          sent =
              let total =
                add_ports-total g.max device ids (λ c. c.total_xmit)
                  (λ now port. minus now.opackets port.stats.opackets) xmit_adds n 0 ports after
                  no_totals t few known apart e' in
              let same =
                sum_from_ext n 0
                  (λ j. minus (device (ids j)).opackets (ports (ids j)).stats.opackets)
                  (λ j. minus (device (ids j)).opackets (s.ports (ids j)).stats.opackets)
                  (λ j lo hi.
                    ap (λ c. minus (device (ids j)).opackets c.opackets) (a.same_stats (ids j))) in
              omega (arith, total, same);
          all_dropped =
              let total =
                add_ports-total g.max device ids (λ c. c.total_tx_dropped)
                  (λ now port. port.tx_dropped) drop_adds n 0 ports after no_totals t few known
                  apart e' in
              let same =
                sum_from_ext n 0 (λ j. (ports (ids j)).tx_dropped) (λ j. (after (ids j)).tx_dropped)
                  (λ j lo hi. sym (tx (ids j))) in
              omega (arith, total, same);
        },
      )
