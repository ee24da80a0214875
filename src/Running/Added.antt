-- ===== src/Running/Added.antt =====
-- What the counters of the ports are after those of the streams are added.
use platform.Common.{ℕ, zero, suc, ◌+◌, ◌%◌, ◌^◌, ◌<◌, ◌≡◌, refl, ◌∙◌, sym, ap, arith, ok}
use platform.Common.{
  Option, none, some, false, ltb, ◌==◌, if◌then◌else◌, update, Bool-cases, inl, inr,
}
use platform.Common.{load-ok, store-ok, eq→==}
use platform.Choice.Cores.Layout.{sum_from}
use platform.Streams.{Fwd}
use platform.Running.{PortCounts, Tally, Setting, add_stream, add_streams}

-- A write that keeps a field at its place keeps it everywhere.
pub update_keeps :
    {A : Type 0} (f : PortCounts → A) (ports : ℕ → PortCounts) (i p : ℕ) (v : PortCounts)
    → f v ≡ f (ports i)
    → f (update ports i v p) ≡ f (ports p)
update_keeps f ports i p v h = elim (Bool-cases (p == i)) [
  | inl e ↦ let x : p ≡ i = ground (arith, e) in rw e (h ∙ ap (λ z. f (ports z)) (sym x))
  | inr e ↦ rw e refl
]

-- A write that adds to a field at its place adds nothing elsewhere.
update_adds :
    (f : PortCounts → ℕ) (ports : ℕ → PortCounts) (i p d : ℕ) (v : PortCounts)
    → f v ≡ (f (ports i) + d) % 2 ^ 64
    → f (update ports i v p) % 2 ^ 64 ≡ (f (ports p) + (if i == p then d else 0)) % 2 ^ 64
update_adds f ports i p d v h = elim (Bool-cases (p == i)) [
  | inl e ↦
      let x : p ≡ i = ground (arith, e) in
      let y : f (ports p) ≡ f (ports i) = ap (λ z. f (ports z)) x in
      rw (e, eq→== i p (sym x)) (omega (arith, h, y))
  | inr e ↦ let z : (i == p) ≡ false = ground (arith, e) in rw (e, z) (omega arith)
]

-- What stream `i` adds to port `p`, of a counter of the streams.
abbrev pub share : (ℕ → ℕ) → (Tally → ℕ) → (ℕ → Tally) → ℕ → ℕ → ℕ
share port_of counter tallies p i = if port_of i == p then counter (tallies i) else 0

module _ (g : Setting) (fwd : Fwd) (tallies : ℕ → Tally) where
  abbrev tx_of : ℕ → ℕ
  tx_of i = (fwd.fwd_streams i).tx_port

  abbrev rx_of : ℕ → ℕ
  rx_of i = (fwd.fwd_streams i).rx_port

  -- The counters after `n` streams from `k` on, and what stays.
  pub record Adds (n k : ℕ) (before after : ℕ → PortCounts) : Type 0 where
    pub dropped :
        (p : ℕ)
        → (after p).tx_dropped % 2 ^ 64
          ≡ ((before p).tx_dropped + sum_from n k (share tx_of (λ t. t.fwd_dropped) tallies p))
            % 2 ^ 64
    pub bad_ip :
        (p : ℕ)
        → (after p).rx_bad_ip_csum % 2 ^ 64
          ≡ ((before p).rx_bad_ip_csum
              + sum_from n k (share rx_of (λ t. t.rx_bad_ip_csum) tallies p))
            % 2 ^ 64
    pub bad_l4 :
        (p : ℕ)
        → (after p).rx_bad_l4_csum % 2 ^ 64
          ≡ ((before p).rx_bad_l4_csum
              + sum_from n k (share rx_of (λ t. t.rx_bad_l4_csum) tallies p))
            % 2 ^ 64
    pub same_stats : (p : ℕ) → (after p).stats ≡ (before p).stats

  abbrev single : ℕ → Option ℕ
  single k = if ltb fwd.cfg_nb_fwd_ports fwd.cfg_nb_fwd_streams then none else some k

  abbrev sent : ℕ → (ℕ → PortCounts) → PortCounts
  sent k ports = record (ports (tx_of k)) {
    tx_stream = single k;
    tx_dropped = ((ports (tx_of k)).tx_dropped + (tallies k).fwd_dropped) % 2 ^ 64;
  }

  abbrev received : ℕ → (ℕ → PortCounts) → PortCounts
  received k ports = record (ports (rx_of k)) {
    rx_stream = single k;
    rx_bad_ip_csum = ((ports (rx_of k)).rx_bad_ip_csum + (tallies k).rx_bad_ip_csum) % 2 ^ 64;
    rx_bad_l4_csum = ((ports (rx_of k)).rx_bad_l4_csum + (tallies k).rx_bad_l4_csum) % 2 ^ 64;
  }

  abbrev after_sent : ℕ → (ℕ → PortCounts) → ℕ → PortCounts
  after_sent k ports = update ports (tx_of k) (sent k ports)

  abbrev after_stream : ℕ → (ℕ → PortCounts) → ℕ → PortCounts
  after_stream k ports = update (after_sent k ports) (rx_of k) (received k (after_sent k ports))

  add_stream-eq :
      (k : ℕ) (ports : ℕ → PortCounts)
      → tx_of k < g.max
      → rx_of k < g.max
      → add_stream g fwd k (tallies k) ports ≡ ok (after_stream k ports)
  unfolding add_stream
  add_stream-eq k ports h h' =
      rw
        (
          load-ok g.max ports (tx_of k) h,
          store-ok g.max ports (tx_of k) (sent k ports) h,
          load-ok g.max (after_sent k ports) (rx_of k) h',
          store-ok g.max (after_sent k ports) (rx_of k) (received k (after_sent k ports)) h',
        )
        refl

  stream-dropped :
      (k p : ℕ) (ports : ℕ → PortCounts)
      → (after_stream k ports p).tx_dropped % 2 ^ 64
        ≡ ((ports p).tx_dropped + share tx_of (λ t. t.fwd_dropped) tallies p k) % 2 ^ 64
  stream-dropped k p ports =
      ap (λ (n : ℕ). n % 2 ^ 64)
        (update_keeps (λ c. c.tx_dropped) (after_sent k ports) (rx_of k) p
          (received k (after_sent k ports)) refl)
      ∙ update_adds (λ c. c.tx_dropped) ports (tx_of k) p (tallies k).fwd_dropped (sent k ports)
          refl

  stream-bad_ip :
      (k p : ℕ) (ports : ℕ → PortCounts)
      → (after_stream k ports p).rx_bad_ip_csum % 2 ^ 64
        ≡ ((ports p).rx_bad_ip_csum + share rx_of (λ t. t.rx_bad_ip_csum) tallies p k) % 2 ^ 64
  stream-bad_ip k p ports =
      update_adds (λ c. c.rx_bad_ip_csum) (after_sent k ports) (rx_of k) p
        (tallies k).rx_bad_ip_csum (received k (after_sent k ports)) refl
      ∙ ap (λ (n : ℕ). (n + share rx_of (λ t. t.rx_bad_ip_csum) tallies p k) % 2 ^ 64)
          (update_keeps (λ c. c.rx_bad_ip_csum) ports (tx_of k) p (sent k ports) refl)

  stream-bad_l4 :
      (k p : ℕ) (ports : ℕ → PortCounts)
      → (after_stream k ports p).rx_bad_l4_csum % 2 ^ 64
        ≡ ((ports p).rx_bad_l4_csum + share rx_of (λ t. t.rx_bad_l4_csum) tallies p k) % 2 ^ 64
  stream-bad_l4 k p ports =
      update_adds (λ c. c.rx_bad_l4_csum) (after_sent k ports) (rx_of k) p
        (tallies k).rx_bad_l4_csum (received k (after_sent k ports)) refl
      ∙ ap (λ (n : ℕ). (n + share rx_of (λ t. t.rx_bad_l4_csum) tallies p k) % 2 ^ 64)
          (update_keeps (λ c. c.rx_bad_l4_csum) ports (tx_of k) p (sent k ports) refl)

  stream-stats :
      (k p : ℕ) (ports : ℕ → PortCounts) → (after_stream k ports p).stats ≡ (ports p).stats
  stream-stats k p ports =
      update_keeps (λ c. c.stats) (after_sent k ports) (rx_of k) p (received k (after_sent k ports))
        refl
      ∙ update_keeps (λ c. c.stats) ports (tx_of k) p (sent k ports) refl

  -- One counter over a step and the rest.
  sums :
      (a b c d r : ℕ)
      → a % 2 ^ 64 ≡ (b + r) % 2 ^ 64
      → b % 2 ^ 64 ≡ (c + d) % 2 ^ 64
      → a % 2 ^ 64 ≡ (c + (d + r)) % 2 ^ 64
  sums a b c d r h h' = omega (arith, h, h')

  -- Where the ports of the streams are in the table, the counters of the streams are added to those
  -- of their ports.
  pub add_streams-Adds :
      (n k : ℕ) (ports : ℕ → PortCounts)
      → ((i : ℕ) → i < k + n → (tx_of i < g.max) × (rx_of i < g.max))
      → (after : ℕ → PortCounts) × (add_streams g n k fwd tallies ports ≡ ok after)
        × Adds n k ports after
  unfolding add_streams sum_from
  add_streams-Adds zero k ports known = (
    ports,
    refl,
    record {
      dropped = λ p. omega arith;
      bad_ip = λ p. omega arith;
      bad_l4 = λ p. omega arith;
      same_stats = λ p. refl;
    },
  )
  add_streams-Adds (suc n) k ports known =
      let (h, h') = known k (omega arith) in
      let (after, e, a) =
        add_streams-Adds n (k + 1) (after_stream k ports) (λ i b. known i (omega arith)) in
      (
        after,
        rw (add_stream-eq k ports h h') e,
        record {
          dropped = λ p. sums _ _ _ _ _ (a.dropped p) (stream-dropped k p ports);
          bad_ip = λ p. sums _ _ _ _ _ (a.bad_ip p) (stream-bad_ip k p ports);
          bad_l4 = λ p. sums _ _ _ _ _ (a.bad_l4 p) (stream-bad_l4 k p ports);
          same_stats = λ p. a.same_stats p ∙ stream-stats k p ports;
        },
      )
