-- ===== src/Running/Summed.antt =====
-- What the totals of a run are: the sums over the forwarding ports of what each has counted.
use platform.Common.{ℕ, zero, suc, ◌+◌, ◌%◌, ◌^◌, ◌≤◌, ◌<◌, ◌≡◌, ◌≢◌, refl, ◌∙◌, sym, arith, ok}
use platform.Common.{update, ne→==, load-ok, store-ok}
use platform.Choice.Cores.Layout.{sum_from}
use platform.Running.{Stats, PortCounts, Totals, no_stats, add_port, add_ports}
use platform.Running.Added.{update_keeps}

pub sum_from_ext :
    (n i : ℕ) (a b : ℕ → ℕ)
    → ((j : ℕ) → i ≤ j → j < i + n → a j ≡ b j)
    → sum_from n i a ≡ sum_from n i b
unfolding sum_from
sum_from_ext zero i a b h = refl
sum_from_ext (suc n) i a b h = omega (
  arith,
  h i (omega arith) (omega arith),
  sum_from_ext n (i + 1) a b (λ j lo hi. h j (omega arith) (omega arith)),
)

module _ (max : ℕ) (device : ℕ → Stats) (ids : ℕ → ℕ) where
  abbrev read : ℕ → (ℕ → PortCounts) → ℕ → PortCounts
  read i ports = update ports (ids i) (record (ports (ids i)) { stats = no_stats })

  ports-step :
      (n i : ℕ) (ports : ℕ → PortCounts) (t : Totals)
      → i < max
      → ids i < max
      → add_ports max device (suc n) i ids ports t
        ≡ add_ports max device n
            (i + 1)
            ids
            (read i ports)
            (add_port (device (ids i)) (ports (ids i)) t)
  unfolding add_ports
  ports-step n i ports t h h' =
      rw
        (
          load-ok max ids i h,
          load-ok max ports (ids i) h',
          store-ok max ports (ids i) (record (ports (ids i)) { stats = no_stats }) h',
        )
        refl

  -- The loop returns, and leaves the counters that the streams were added to.
  pub add_ports-returns :
      (n i : ℕ) (ports : ℕ → PortCounts) (t : Totals)
      → i + n ≤ max
      → ((j : ℕ) → j < i + n → ids j < max)
      → (after : ℕ → PortCounts) × (sum : Totals) × (add_ports max device n i ids ports t
          ≡ ok (after, sum))
        × ((p : ℕ) → (after p).tx_dropped ≡ (ports p).tx_dropped)
        × ((p : ℕ) → (after p).rx_bad_ip_csum ≡ (ports p).rx_bad_ip_csum)
        × ((p : ℕ) → (after p).rx_bad_l4_csum ≡ (ports p).rx_bad_l4_csum)
  unfolding add_ports
  add_ports-returns zero i ports t few known =
      (ports, t, refl, (λ p. refl), (λ p. refl), (λ p. refl))
  add_ports-returns (suc n) i ports t few known =
      let now = record (ports (ids i)) { stats = no_stats } in
      let (after, sum, e, tx, ip, l4) =
        add_ports-returns n (i + 1) (read i ports) (add_port (device (ids i)) (ports (ids i)) t)
          (omega arith) (λ j h. known j (omega arith)) in
      (
        after,
        sum,
        ports-step n i ports t (omega arith) (known i (omega arith)) ∙ e,
        (λ p. tx p ∙ update_keeps (λ c. c.tx_dropped) ports (ids i) p now refl),
        (λ p. ip p ∙ update_keeps (λ c. c.rx_bad_ip_csum) ports (ids i) p now refl),
        (λ p. l4 p ∙ update_keeps (λ c. c.rx_bad_l4_csum) ports (ids i) p now refl),
      )

  -- One of the totals, `get`, which a port adds `gain` to.
  module _ (get : Totals → ℕ) (gain : Stats → PortCounts → ℕ)
      (adds : (now : Stats) (port : PortCounts) (t : Totals)
        → get (add_port now port t) ≡ (get t + gain now port) % 2 ^ 64) where
    pub add_ports-total :
        (n i : ℕ) (ports after : ℕ → PortCounts) (t sum : Totals)
        → i + n ≤ max
        → ((j : ℕ) → j < i + n → ids j < max)
        → ((j k : ℕ) → j < k → k < i + n → ids j ≢ ids k)
        → add_ports max device n i ids ports t ≡ ok (after, sum)
        → get sum % 2 ^ 64
          ≡ (get t + sum_from n i (λ j. gain (device (ids j)) (ports (ids j)))) % 2 ^ 64
    unfolding add_ports sum_from
    add_ports-total zero i ports after t sum few known apart e =
        let same : t ≡ sum = cc in rw same (omega arith)
    add_ports-total (suc n) i ports after t sum few known apart e =
        let one = add_port (device (ids i)) (ports (ids i)) t in
        let rest =
          add_ports-total n (i + 1) (read i ports) after one sum (omega arith)
            (λ j h. known j (omega arith)) (λ j k lt h. apart j k lt (omega arith))
            (sym (ports-step n i ports t (omega arith) (known i (omega arith))) ∙ e) in
        let unread : (j : ℕ)
            → i + 1 ≤ j
            → j < i + 1 + n
            → gain (device (ids j)) (read i ports (ids j)) ≡ gain (device (ids j)) (ports (ids j)) =
          λ j lo hi.
            let other = apart i j (omega arith) (omega arith) in
            rw (ne→== (ids j) (ids i) (λ x. other (sym x))) refl in
        let same =
          sum_from_ext n (i + 1) (λ j. gain (device (ids j)) (read i ports (ids j)))
            (λ j. gain (device (ids j)) (ports (ids j))) unread in
        omega (arith, rest, same, adds (device (ids i)) (ports (ids i)) t)
