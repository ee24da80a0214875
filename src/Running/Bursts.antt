-- ===== src/Running/Bursts.antt =====
-- What the streams count in a run. A core forwards one burst after the other, for the streams in any
-- order, and each burst adds to the counters of its stream, which are 32 bits.
use platform.Common.{ℕ, zero, suc, ◌+◌, ◌%◌, ◌^◌, ◌≤◌, ◌<◌, ◌≡◌, refl, ◌∙◌, sym, ap, arith}
use platform.Common.{List, [], ◌∷◌, ◌==◌, if◌then◌else◌, update, Bool-cases, inl, inr}
use platform.Common.{eq→==, eq-cases}
use platform.Choice.Cores.Layout.{sum_from}
use platform.Running.{Tally, no_tally, reset_streams}
use platform.Running.Added.{share}
use platform.Running.Summed.{sum_from_ext}

-- The counters of a stream after a burst that counts `c`.
abbrev pub add_counts : Tally → Tally → Tally
add_counts t c = record {
  rx_packets = (t.rx_packets + c.rx_packets) % 2 ^ 32;
  tx_packets = (t.tx_packets + c.tx_packets) % 2 ^ 32;
  fwd_dropped = (t.fwd_dropped + c.fwd_dropped) % 2 ^ 32;
  rx_bad_ip_csum = (t.rx_bad_ip_csum + c.rx_bad_ip_csum) % 2 ^ 32;
  rx_bad_l4_csum = (t.rx_bad_l4_csum + c.rx_bad_l4_csum) % 2 ^ 32;
}

-- The counters of the streams after bursts, each with its stream.
pub run_bursts : List (ℕ × Tally) → (ℕ → Tally) → ℕ → Tally
run_bursts [] tallies = tallies
run_bursts ((sm_id, c) ∷ bursts) tallies =
    run_bursts bursts (update tallies sm_id (add_counts (tallies sm_id) c))

-- What the bursts of stream `i` count together.
abbrev pub counted : (Tally → ℕ) → List (ℕ × Tally) → ℕ → ℕ
counted counter [] i = 0
counted counter ((sm_id, c) ∷ bursts) i =
    (if i == sm_id then counter c else 0) + counted counter bursts i

-- Those that belong to port `p`, cut to 32 bits for each of the `n` streams.
abbrev pub counted_for : ℕ → (ℕ → ℕ) → (Tally → ℕ) → List (ℕ × Tally) → ℕ → ℕ
counted_for n port_of counter bursts p =
    sum_from n 0 (λ i. if port_of i == p then counted counter bursts i % 2 ^ 32 else 0)

-- A counter that a burst adds to.
abbrev pub Sums : (Tally → ℕ) → Type 0
Sums counter = (t c : Tally) → counter (add_counts t c) ≡ (counter t + counter c) % 2 ^ 32

module _ (counter : Tally → ℕ) (sums : Sums counter) where
  run_bursts-counted :
      (bursts : List (ℕ × Tally)) (tallies : ℕ → Tally) (i : ℕ)
      → counter (tallies i) < 2 ^ 32
      → counter (run_bursts bursts tallies i)
        ≡ (counter (tallies i) + counted counter bursts i) % 2 ^ 32
  unfolding run_bursts
  run_bursts-counted [] tallies i small = omega (arith, small)
  run_bursts-counted ((sm_id, c) ∷ bursts) tallies i small =
      let one = update tallies sm_id (add_counts (tallies sm_id) c) in
      elim (Bool-cases (i == sm_id)) [
        | inl e ↦
            let x : i ≡ sm_id = ground (arith, e) in
            let added : counter (one i) ≡ (counter (tallies i) + counter c) % 2 ^ 32 = rw e (
              sums (tallies sm_id) c
              ∙ ap (λ (k : ℕ). (counter (tallies k) + counter c) % 2 ^ 32) (sym x)) in
            let rest = run_bursts-counted bursts one i (omega (arith, added)) in
            rw e (omega (arith, rest, added))
        | inr e ↦
            let kept : counter (one i) ≡ counter (tallies i) = rw e refl in
            let rest = run_bursts-counted bursts one i (omega (arith, kept, small)) in
            rw e (omega (arith, rest, kept))
      ]

  -- Where the counters of `n` streams begin at 0.
  pub shares-counted :
      (n : ℕ) (port_of : ℕ → ℕ) (bursts : List (ℕ × Tally)) (tallies : ℕ → Tally) (p : ℕ)
      → counter no_tally ≡ 0
      → ((i : ℕ) → i < n → tallies i ≡ no_tally)
      → sum_from n 0 (share port_of counter (run_bursts bursts tallies) p)
        ≡ counted_for n port_of counter bursts p
  shares-counted n port_of bursts tallies p none cleared =
      sum_from_ext n 0 (share port_of counter (run_bursts bursts tallies) p)
        (λ i. if port_of i == p then counted counter bursts i % 2 ^ 32 else 0)
        (λ i lo hi.
          let zero_now : counter (tallies i) ≡ 0 = ap counter (cleared i (omega arith)) ∙ none in
          let now = run_bursts-counted bursts tallies i (omega (arith, zero_now)) in
          ap (λ (k : ℕ). if port_of i == p then k else 0)
            (now ∙ ap (λ (k : ℕ). (k + counted counter bursts i) % 2 ^ 32) zero_now ∙ omega arith))

reset-keeps :
    (n i j : ℕ) (tallies : ℕ → Tally)
    → tallies j ≡ no_tally
    → reset_streams n i tallies j ≡ no_tally
unfolding reset_streams
reset-keeps zero i j tallies h = h
reset-keeps (suc n) i j tallies h =
    reset-keeps n (i + 1) j (update tallies i no_tally)
      (elim (Bool-cases (j == i)) [ inl e ↦ rw e refl | inr e ↦ rw e h ])

-- The counters that are reset.
pub reset-cleared :
    (n i j : ℕ) (tallies : ℕ → Tally) → i ≤ j → j < i + n → reset_streams n i tallies j ≡ no_tally
unfolding reset_streams
reset-cleared zero i j tallies lo hi = absurd (omega arith)
reset-cleared (suc n) i j tallies lo hi = elim (eq-cases j i) [
  | inl e ↦ reset-keeps n (i + 1) j (update tallies i no_tally) (rw (eq→== j i e) refl)
  | inr ne ↦ reset-cleared n (i + 1) j (update tallies i no_tally) (omega (arith, ne)) (omega arith)
]
