-- ===== src/Running/Counts.antt =====
-- A whole run: what is counted from its start to its stop.
use platform.Common.{ℕ, ◌+◌, ◌%◌, ◌^◌, ◌<◌, ◌≡◌, refl, ◌∙◌, sym, ap, arith, ok, List, some}
use platform.Common.{Bool}
use platform.Common.Int.{pos}
use mathlib.Core.Path.{subst}
use platform.Choice.Cores.Layout.{sum_from}
use platform.Streams.{Fwd}
use platform.Settings.Mappings.{MapCall}
use platform.Running.{Stats, Tally, Run, Setting, Totals, minus}
use platform.Running.{start_packet_forwarding, stop_packet_forwarding}
use platform.Running.Summed.{sum_from_ext}
use platform.Running.Begun.{Allowed, Begins, start-Begins}
use platform.Running.Bursts.{counted_for, run_bursts, shares-counted}
use platform.Running.Whole.{Fits, Stopped, stop-Stopped}

-- What the bursts of a run count for port `p`, as the port that their streams send to, or that they
-- receive from.
abbrev pub sent_for : Fwd → (Tally → ℕ) → List (ℕ × Tally) → ℕ → ℕ
sent_for f = counted_for f.cfg_nb_fwd_streams (λ i. (f.fwd_streams i).tx_port)

abbrev pub received_for : Fwd → (Tally → ℕ) → List (ℕ × Tally) → ℕ → ℕ
received_for f = counted_for f.cfg_nb_fwd_streams (λ i. (f.fwd_streams i).rx_port)

module _ (g : Setting) (device later : ℕ → Stats)
    (accepts : (calls : List MapCall) (c : MapCall) → g.answer calls c ≡ pos 0) where
  -- What a run that began from `s` with the streams `f`, and that forwarded `bursts`, leaves, and its
  -- totals.
  pub record Counted (s : Run) (f : Fwd) (bursts : List (ℕ × Tally)) (r : Run) (t : Totals)
      : Type 0 where
    pub dropped :
        (j : ℕ)
        → j < f.cfg_nb_fwd_ports
        → (r.ports (f.fwd_ports_ids j)).tx_dropped % 2 ^ 64
          ≡ sent_for f (λ c. c.fwd_dropped) bursts (f.fwd_ports_ids j) % 2 ^ 64
    pub bad_ip :
        (p : ℕ)
        → (r.ports p).rx_bad_ip_csum % 2 ^ 64
          ≡ ((s.ports p).rx_bad_ip_csum + received_for f (λ c. c.rx_bad_ip_csum) bursts p) % 2 ^ 64
    pub bad_l4 :
        (p : ℕ)
        → (r.ports p).rx_bad_l4_csum % 2 ^ 64
          ≡ ((s.ports p).rx_bad_l4_csum + received_for f (λ c. c.rx_bad_l4_csum) bursts p) % 2 ^ 64
    pub received :
        t.total_recv % 2 ^ 64
        ≡ sum_from f.cfg_nb_fwd_ports 0
            (λ j. minus (later (f.fwd_ports_ids j)).ipackets (device (f.fwd_ports_ids j)).ipackets)
          % 2 ^ 64
    pub sent :
        t.total_xmit % 2 ^ 64
        ≡ sum_from f.cfg_nb_fwd_ports 0
            (λ j. minus (later (f.fwd_ports_ids j)).opackets (device (f.fwd_ports_ids j)).opackets)
          % 2 ^ 64

  -- The counts of a run from those at its stop.
  Stopped-Counted :
      (s begun : Run) (f : Fwd) (bursts : List (ℕ × Tally)) (r : Run) (t : Totals)
      → Begins g device accepts s f begun
      → Stopped later (record begun { tallies = run_bursts bursts begun.tallies; fwd = f }) r t
      → Counted s f bursts r t
  Stopped-Counted s begun f bursts r t b z =
      let ids = f.fwd_ports_ids in
      let n = f.cfg_nb_fwd_streams in
      let drops =
        shares-counted (λ c. c.fwd_dropped) (λ x c. refl) n (λ i. (f.fwd_streams i).tx_port) bursts
          begun.tallies in
      let ips =
        shares-counted (λ c. c.rx_bad_ip_csum) (λ x c. refl) n (λ i. (f.fwd_streams i).rx_port)
          bursts begun.tallies in
      let l4s =
        shares-counted (λ c. c.rx_bad_l4_csum) (λ x c. refl) n (λ i. (f.fwd_streams i).rx_port)
          bursts begun.tallies in
      record {
        dropped = λ j h.
            let one = b.resets j h in
            let none = one.none_dropped in
            let whole = z.dropped (ids j) in
            let sum = drops (ids j) refl b.cleared in omega (arith, whole, none, sum);
        bad_ip = λ p.
            let whole = z.bad_ip p in
            let old = b.bad_ip p in
            let sum = ips p refl b.cleared in omega (arith, whole, old, sum);
        bad_l4 = λ p.
            let whole = z.bad_l4 p in
            let old = b.bad_l4 p in
            let sum = l4s p refl b.cleared in omega (arith, whole, old, sum);
        received =
            z.received
            ∙ ap (λ (n : ℕ). n % 2 ^ 64)
                (sum_from_ext f.cfg_nb_fwd_ports 0
                  (λ j. minus (later (ids j)).ipackets (begun.ports (ids j)).stats.ipackets)
                  (λ j. minus (later (ids j)).ipackets (device (ids j)).ipackets)
                  (λ j lo hi.
                    ap (λ c. minus (later (ids j)).ipackets c.ipackets)
                      (b.resets j (omega arith)).from_device));
        sent =
            z.sent
            ∙ ap (λ (n : ℕ). n % 2 ^ 64)
                (sum_from_ext f.cfg_nb_fwd_ports 0
                  (λ j. minus (later (ids j)).opackets (begun.ports (ids j)).stats.opackets)
                  (λ j. minus (later (ids j)).opackets (device (ids j)).opackets)
                  (λ j lo hi.
                    ap (λ c. minus (later (ids j)).opackets c.opackets)
                      (b.resets j (omega arith)).from_device));
      }

  -- Let the guards of start_packet_forwarding let a run begin, the streams be set up, the
  -- forwarding ports be in the table and different, the ports of the streams be in the table, and
  -- the device accept all mappings of queues. Then start_packet_forwarding returns, and whatever
  -- bursts the streams then forward, in any order, each adding to the counters of its stream
  -- modulo 2 to the 32 what it counts, stop_packet_forwarding returns. Modulo 2 to the 64, each
  -- forwarding port has dropped what these bursts have dropped in the streams that send to it,
  -- taken modulo 2 to the 32 for each stream, whatever the streams counted before the run; each
  -- port has as many bad IP checksums, and as many bad L4 checksums, as before the run and as
  -- these bursts have counted, so taken, in the streams that receive from it; and the totals
  -- received and sent are the sums over the forwarding ports of what their devices count at the
  -- stop less what they counted at the start, also where such a counter has wrapped.
  pub run-Counted :
      (all_started : Bool) (with_tx_first : ℕ) (s : Run) (f : Fwd)
      → Allowed g all_started s f
      → Fits g.max f
      → (begun : Run) × (start_packet_forwarding g all_started with_tx_first device s ≡ ok begun)
        × ((bursts : List (ℕ × Tally))
            → (r : Run) × (t : Totals) × (stop_packet_forwarding g later
                  (record begun { tallies = run_bursts bursts begun.tallies })
                ≡ ok (r, some t))
              × Counted s f bursts r t)
  run-Counted all_started with_tx_first s f a fits =
      let (begun, e, b) =
        start-Begins g device accepts all_started with_tx_first s f a fits.few fits.listed in
      (
        begun,
        e,
        (λ bursts.
            let tallies = run_bursts bursts begun.tallies in
            let (r, t, e', z) =
              stop-Stopped g later (record begun { tallies = tallies }) b.running
                (subst (Fits g.max) (sym b.fwd) fits) in
            (
              r,
              t,
              e',
              Stopped-Counted s begun f bursts r t b (
                  subst (λ w. Stopped later (record begun { tallies = tallies; fwd = w }) r t) b.fwd
                    z),
            )),
      )
