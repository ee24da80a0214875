-- ===== src/Running/Begun.antt =====
-- The state after `start_packet_forwarding`.
use platform.Common.{
  ℕ, zero, suc, ◌+◌, ◌≤◌, ◌<◌, ◌≡◌, refl, ◌∙◌, sym, ap, arith, ok, exited, List, ◌∷◌,
}
use platform.Common.{Bool, true, false, not, ◌==◌, ◌||◌, if◌then◌else◌, update, load-ok, store-ok}
use platform.Common.{Bool-cases, eq-cases, eq→==, inl, inr}
use platform.Common.Int.{pos}
use platform.Streams.{Fwd}
use platform.Streams.Modes.{fwd_config_setup}
use platform.Settings.Mappings.{MapCall, map_registers}
use platform.Settings.Mappings.Registers.{maps}
use platform.Running.{Stats, PortCounts, Run, Setting, Launch}
use platform.Running.{queues_missing, dcb_refuses, reset_ports, reset_streams, launch_cores}
use platform.Running.{launch_packet_forwarding, first_bursts, begin_run, start_packet_forwarding}
use platform.Running.{no_tally}
use platform.Running.Added.{update_keeps}
use platform.Running.Bursts.{reset-cleared}

-- A port whose counts start from those of the device.
pub record IsReset (device : ℕ → Stats) (ports : ℕ → PortCounts) (p : ℕ) : Type 0 where
  pub none_dropped : (ports p).tx_dropped ≡ 0
  pub from_device : (ports p).stats ≡ device p

-- What the guards ask for, and that the streams are set up as `f`.
pub record Allowed (g : Setting) (all_started : Bool) (s : Run) (f : Fwd) : Type 0 where
  pub has_queues : queues_missing g.mode s.fwd.nb_rxq s.fwd.nb_txq ≡ false
  pub ports_started : all_started ≡ true
  pub not_running : s.test_done ≡ true
  pub dcb_agrees : dcb_refuses s ≡ false
  pub set_up :
      fwd_config_setup g.icmp g.dcb_config g.max g.pools g.numa g.info g.limits s.fwd ≡ ok f

-- The last branch behind four guards.
last_branch :
    {A : Type 0} (a b c d : Bool) (x y z w v : A)
    → a ≡ false
    → b ≡ true
    → c ≡ true
    → d ≡ false
    → (if a then x else if not b then y else if not c then z else if d then w else v) ≡ v
last_branch a b c d x y z w v ea eb ec ed = rw (ea, eb, ec, ed) refl

module _ (g : Setting) where
  -- Launching changes neither the counts nor the streams.
  record Same (s r : Run) : Type 0 where
    fwd : r.fwd ≡ s.fwd
    ports : r.ports ≡ s.ports
    tallies : r.tallies ≡ s.tallies
    test_done : r.test_done ≡ s.test_done

  launch_cores-Same :
      (launch : ℕ → Launch) (n i : ℕ) (s : Run) → Same s (launch_cores g launch n i s)
  unfolding launch_cores
  launch_cores-Same launch zero i s = record {
    fwd = refl;
    ports = refl;
    tallies = refl;
    test_done = refl;
  }
  launch_cores-Same launch (suc n) i s =
      let lc_id = g.fwd_lcores_cpuids i in
      elim (Bool-cases (not g.interactive || not (lc_id == g.lcore_id))) [
        | inl e ↦
            let one = record s {
              stopped = update s.stopped i false;
              launches = launch lc_id ∷ s.launches;
            } in
            let rest = launch_cores-Same launch n (i + 1) one in
            rw e (record {
              fwd = rest.fwd;
              ports = rest.ports;
              tallies = rest.tallies;
              test_done = rest.test_done;
            })
        | inr e ↦ rw e (launch_cores-Same launch n (i + 1) s)
      ]

  bursts-Same : (n : ℕ) (s : Run) → Same s (first_bursts g n s)
  unfolding first_bursts launch_packet_forwarding
  bursts-Same zero s = record { fwd = refl; ports = refl; tallies = refl; test_done = refl }
  bursts-Same (suc n) s =
      let a = launch_cores-Same Launch.burst s.fwd.cfg_nb_fwd_lcores 0 s in
      let b = bursts-Same n (launch_packet_forwarding g Launch.burst s) in
      record {
        fwd = b.fwd ∙ a.fwd;
        ports = b.ports ∙ a.ports;
        tallies = b.tallies ∙ a.tallies;
        test_done = b.test_done ∙ a.test_done;
      }

module _ (g : Setting) (device : ℕ → Stats)
    (accepts : (calls : List MapCall) (c : MapCall) → g.answer calls c ≡ pos 0) where
  abbrev fresh : Bool → Bool → ℕ → (ℕ → PortCounts) → PortCounts
  fresh tx rx p ports = record (ports p) {
    stats = device p;
    tx_dropped = 0;
    tx_queue_stats_mapping_enabled = tx;
    rx_queue_stats_mapping_enabled = rx;
  }

  abbrev next : Bool → Bool → ℕ → List MapCall → Run → Run
  next tx rx p calls s = record s {
    ports = update s.ports p (fresh tx rx p s.ports);
    map_calls = calls;
  }

  record Resets (n i : ℕ) (s r : Run) : Type 0 where
    fwd : r.fwd ≡ s.fwd
    test_done : r.test_done ≡ s.test_done
    bad_ip : (p : ℕ) → (r.ports p).rx_bad_ip_csum ≡ (s.ports p).rx_bad_ip_csum
    bad_l4 : (p : ℕ) → (r.ports p).rx_bad_l4_csum ≡ (s.ports p).rx_bad_l4_csum
    keeps : (p : ℕ) → IsReset device s.ports p → IsReset device r.ports p
    resets : (j : ℕ) → i ≤ j → j < i + n → IsReset device r.ports (s.fwd.fwd_ports_ids j)

  fresh-IsReset :
      (tx rx : Bool) (p : ℕ) (ports : ℕ → PortCounts)
      → IsReset device (update ports p (fresh tx rx p ports)) p
  fresh-IsReset tx rx p ports =
      let e = eq→== p p refl in record { none_dropped = rw e refl; from_device = rw e refl }

  fresh-keeps :
      (tx rx : Bool) (p q : ℕ) (ports : ℕ → PortCounts)
      → IsReset device ports q
      → IsReset device (update ports p (fresh tx rx p ports)) q
  fresh-keeps tx rx p q ports r = elim (Bool-cases (q == p)) [
    | inl e ↦
        let x : q ≡ p = ground (arith, e) in
        record { none_dropped = rw e refl; from_device = rw e (ap device (sym x)) }
    | inr e ↦ record { none_dropped = rw e r.none_dropped; from_device = rw e r.from_device }
  ]

  reset-step :
      (n i : ℕ) (s : Run) (tx rx : Bool) (calls : List MapCall)
      → i < g.max
      → s.fwd.fwd_ports_ids i < g.max
      → (let p = s.fwd.fwd_ports_ids i in
          map_registers g.answer g.not_supported p s.queue_stats
            ((s.ports p).tx_queue_stats_mapping_enabled, (s.ports p).rx_queue_stats_mapping_enabled)
            s.map_calls
          ≡ ok (tx, rx, calls))
      → reset_ports g device (suc n) i s
        ≡ reset_ports g device n (i + 1) (next tx rx (s.fwd.fwd_ports_ids i) calls s)
  unfolding reset_ports
  reset-step n i s tx rx calls h h' e =
      let p = s.fwd.fwd_ports_ids i in
      rw
        (
          load-ok g.max s.fwd.fwd_ports_ids i h,
          load-ok g.max s.ports p h',
          e,
          store-ok g.max s.ports p (fresh tx rx p s.ports) h',
        )
        refl

  reset_ports-Resets :
      (n i : ℕ) (s : Run)
      → i + n ≤ g.max
      → ((j : ℕ) → j < i + n → s.fwd.fwd_ports_ids j < g.max)
      → (r : Run) × (reset_ports g device n i s ≡ ok r) × Resets n i s r
  unfolding reset_ports
  reset_ports-Resets zero i s few known = (
    s,
    refl,
    record {
      fwd = refl;
      test_done = refl;
      bad_ip = λ p. refl;
      bad_l4 = λ p. refl;
      keeps = λ p h. h;
      resets = λ j lo hi. absurd (omega arith);
    },
  )
  reset_ports-Resets (suc n) i s few known =
      let p = s.fwd.fwd_ports_ids i in
      let (tx, rx, calls, e) =
        maps g.answer accepts g.not_supported s.queue_stats p
          ((s.ports p).tx_queue_stats_mapping_enabled, (s.ports p).rx_queue_stats_mapping_enabled)
          s.map_calls in
      let s1 = next tx rx p calls s in
      let (r, e', z) =
        reset_ports-Resets n (i + 1) s1 (omega arith) (λ j h. known j (omega arith)) in
      (
        r,
        reset-step n i s tx rx calls (omega arith) (known i (omega arith)) e ∙ e',
        record {
          fwd = z.fwd;
          test_done = z.test_done;
          bad_ip = λ q.
              z.bad_ip q
              ∙ update_keeps (λ c. c.rx_bad_ip_csum) s.ports p q (fresh tx rx p s.ports) refl;
          bad_l4 = λ q.
              z.bad_l4 q
              ∙ update_keeps (λ c. c.rx_bad_l4_csum) s.ports p q (fresh tx rx p s.ports) refl;
          keeps = λ q h. z.keeps q (fresh-keeps tx rx p q s.ports h);
          resets = λ j lo hi. elim (eq-cases j i) [
            | inl x ↦ rw x (z.keeps p (fresh-IsReset tx rx p s.ports))
            | inr ne ↦ z.resets j (omega (arith, ne)) (omega arith)
          ];
        },
      )

  -- What a run begins with.
  pub record Begins (s : Run) (f : Fwd) (r : Run) : Type 0 where
    pub fwd : r.fwd ≡ f
    pub running : r.test_done ≡ false
    pub resets : (j : ℕ) → j < f.cfg_nb_fwd_ports → IsReset device r.ports (f.fwd_ports_ids j)
    pub bad_ip : (p : ℕ) → (r.ports p).rx_bad_ip_csum ≡ (s.ports p).rx_bad_ip_csum
    pub bad_l4 : (p : ℕ) → (r.ports p).rx_bad_l4_csum ≡ (s.ports p).rx_bad_l4_csum
    pub cleared : (k : ℕ) → k < f.cfg_nb_fwd_streams → r.tallies k ≡ no_tally

  reset-Begins :
      (with_tx_first : ℕ) (s s1 : Run) (f : Fwd)
      → Resets f.cfg_nb_fwd_ports 0 (record s { test_done = false; fwd = f }) s1
      → Begins s f (
          launch_packet_forwarding g Launch.forward (
            first_bursts g with_tx_first
              (record s1 { tallies = reset_streams f.cfg_nb_fwd_streams 0 s1.tallies })))
  unfolding launch_packet_forwarding
  reset-Begins with_tx_first s s1 f z =
      let s2 = record s1 { tallies = reset_streams f.cfg_nb_fwd_streams 0 s1.tallies } in
      let a = bursts-Same g with_tx_first s2 in
      let b = first_bursts g with_tx_first s2 in
      let c = launch_cores-Same g Launch.forward b.fwd.cfg_nb_fwd_lcores 0 b in
      let same = c.ports ∙ a.ports in
      record {
        fwd = c.fwd ∙ a.fwd ∙ z.fwd;
        running = c.test_done ∙ a.test_done ∙ z.test_done;
        resets = λ j h.
            let one = z.resets j (omega arith) (omega arith) in
            let p = f.fwd_ports_ids j in
            record {
              none_dropped = ap (λ ports. (ports p).tx_dropped) same ∙ one.none_dropped;
              from_device = ap (λ ports. (ports p).stats) same ∙ one.from_device;
            };
        bad_ip = λ p. ap (λ ports. (ports p).rx_bad_ip_csum) same ∙ z.bad_ip p;
        bad_l4 = λ p. ap (λ ports. (ports p).rx_bad_l4_csum) same ∙ z.bad_l4 p;
        cleared = λ k h.
            ap (λ tallies. tallies k) (c.tallies ∙ a.tallies)
            ∙ reset-cleared f.cfg_nb_fwd_streams 0 k s1.tallies (omega arith) (omega arith);
      }

  guards-pass :
      (all_started : Bool) (with_tx_first : ℕ) (s : Run) (f : Fwd)
      → Allowed g all_started s f
      → start_packet_forwarding g all_started with_tx_first device s
        ≡ begin_run g with_tx_first device s
  unfolding start_packet_forwarding
  guards-pass all_started with_tx_first s f a =
      last_branch (queues_missing g.mode s.fwd.nb_rxq s.fwd.nb_txq) all_started s.test_done
        (dcb_refuses s) exited (ok s) (ok s) (ok s) (begin_run g with_tx_first device s)
        a.has_queues a.ports_started a.not_running a.dcb_agrees

  pub start-Begins :
      (all_started : Bool) (with_tx_first : ℕ) (s : Run) (f : Fwd)
      → Allowed g all_started s f
      → f.cfg_nb_fwd_ports ≤ g.max
      → ((j : ℕ) → j < f.cfg_nb_fwd_ports → f.fwd_ports_ids j < g.max)
      → (r : Run) × (start_packet_forwarding g all_started with_tx_first device s ≡ ok r)
        × Begins s f r
  unfolding begin_run
  start-Begins all_started with_tx_first s f a few known =
      let (s1, e, z) =
        reset_ports-Resets f.cfg_nb_fwd_ports 0 (record s { test_done = false; fwd = f })
          (omega arith) (λ j h. known j (omega arith)) in
      (
        launch_packet_forwarding g Launch.forward (
            first_bursts g with_tx_first
              (record s1 { tallies = reset_streams f.cfg_nb_fwd_streams 0 s1.tallies })),
        guards-pass all_started with_tx_first s f a ∙ rw (a.set_up, e) refl,
        reset-Begins with_tx_first s s1 f z,
      )
