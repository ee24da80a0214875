-- ===== src/Settings/Mappings/Registers.antt =====
-- What reaches a device that accepts the mappings.
use platform.Common.{ℕ, zero, suc, ◌+◌, ◌≤◌, ◌<◌, ◌≡◌, refl, sym, arith, inl, inr}
use platform.Common.{
  List, ◌∷◌, none, some, ok, Bool, true, false, Bool-cases, ◌==◌, ◌&&◌, ltb, if◌then◌else◌,
}
use platform.Common.{lt→ltb, eq→==}
use platform.Common.Int.{ℤ, pos}
use mathlib.Core.Path.{subst}
use mathlib.Core.List.{Mem, mem-cons_of_mem, mem-cons_self}
use platform.Forwarding.{port_id_is_invalid}
use platform.Settings.Mappings.{Mapping, Mappings, QueueStats, MapCall, Pass, is_for}
use platform.Settings.Mappings.{set_qmap, set_registers, enabled_after, map_registers}
use platform.Settings.Mappings.Lookup.{counter_of, find-cases, is_for-eq}
use platform.Settings.Mappings.Lookup.{set_qmap-receive}

module _ (answer : List MapCall → MapCall → ℤ)
    (accepts : (calls : List MapCall) (c : MapCall) → answer calls c ≡ pos 0)
    (call : ℕ → ℕ → ℕ → MapCall) (nb_queues p : ℕ) (entries : ℕ → Mapping) where
  abbrev pub wanted : ℕ → Bool
  wanted i = (entries i).port_id == p && ltb (entries i).queue_id nb_queues

  abbrev pub call_of : ℕ → MapCall
  call_of i = call p (entries i).queue_id (entries i).stats_counter_id

  -- A pass over `n` entries from `i` on ends, keeps the calls made, and has made that of each entry
  -- for the port and one of its queues.
  pub record Passes (n i : ℕ) (found : Bool) (calls : List MapCall) (r : List MapCall × Pass)
      : Type 0 where
    pub any : Bool
    pub ends : r.1 ≡ Pass.passed any
    pub keeps : (c : MapCall) → Mem c calls → Mem c r.0
    pub still : found ≡ true → any ≡ true
    pub makes : (j : ℕ) → i ≤ j → j < i + n → wanted j ≡ true → (any ≡ true) × Mem (call_of j) r.0

  skip-Passes :
      (n i : ℕ) (found : Bool) (calls : List MapCall) (r : List MapCall × Pass)
      → wanted i ≡ false
      → Passes n (i + 1) found calls r
      → Passes (suc n) i found calls r
  skip-Passes n i found calls r e s = record {
    any = s.any;
    ends = s.ends;
    keeps = s.keeps;
    still = s.still;
    makes = λ j lo hi w. elim (Bool-cases (j == i)) [
      | inl x ↦
          let y : j ≡ i = ground (arith, x) in
          let z : wanted i ≡ true = subst (λ k. wanted k ≡ true) y w in cc
      | inr x ↦ s.makes j (ground (arith, x)) (omega arith) w
    ];
  }

  call-Passes :
      (n i : ℕ) (found : Bool) (calls : List MapCall) (r : List MapCall × Pass)
      → Passes n (i + 1) true (call_of i ∷ calls) r
      → Passes (suc n) i found calls r
  call-Passes n i found calls r s = record {
    any = s.any;
    ends = s.ends;
    keeps = λ c m. s.keeps c (mem-cons_of_mem (call_of i) m);
    still = λ x. s.still refl;
    makes = λ j lo hi w. elim (Bool-cases (j == i)) [
      | inl x ↦
          let y : j ≡ i = ground (arith, x) in
          (
            s.still refl,
            subst (λ k. Mem (call_of k) r.0) (sym y) (s.keeps (call_of i) mem-cons_self),
          )
      | inr x ↦ s.makes j (ground (arith, x)) (omega arith) w
    ];
  }

  skip-step :
      (n i : ℕ) (found : Bool) (calls : List MapCall)
      → wanted i ≡ false
      → set_registers answer call nb_queues p (suc n) i entries found calls
        ≡ set_registers answer call nb_queues p n (i + 1) entries found calls
  unfolding set_registers
  skip-step n i found calls e = rw e refl

  call-step :
      (n i : ℕ) (found : Bool) (calls : List MapCall)
      → wanted i ≡ true
      → set_registers answer call nb_queues p (suc n) i entries found calls
        ≡ set_registers answer call nb_queues p n (i + 1) entries true (call_of i ∷ calls)
  unfolding set_registers
  call-step n i found calls e = rw (e, accepts calls (call_of i)) refl

  pub pass-Passes :
      (n i : ℕ) (found : Bool) (calls : List MapCall)
      → Passes n i found calls (set_registers answer call nb_queues p n i entries found calls)
  unfolding set_registers
  pass-Passes zero i found calls = record {
    any = found;
    ends = refl;
    keeps = λ c m. m;
    still = λ e. e;
    makes = λ j lo hi. absurd (omega arith);
  }
  pass-Passes (suc n) i found calls = elim (Bool-cases (wanted i)) [
    | inr e ↦ subst (Passes (suc n) i found calls) (sym (skip-step n i found calls e)) (
        skip-Passes n i found calls
          (set_registers answer call nb_queues p n (i + 1) entries found calls) e
          (pass-Passes n (i + 1) found calls))
    | inl e ↦ subst (Passes (suc n) i found calls) (sym (call-step n i found calls e)) (
        call-Passes n i found calls
          (set_registers answer call nb_queues p n (i + 1) entries true (call_of i ∷ calls))
          (pass-Passes n (i + 1) true (call_of i ∷ calls)))
  ]

-- The entry of a queue that is mapped.
entry_of :
    (m : Mappings) (p q v : ℕ)
    → counter_of m p q ≡ some v
    → (j : ℕ) × (j < m.number)
      × (is_for p q (m.entries j) ≡ true)
      × ((m.entries j).stats_counter_id ≡ v)
unfolding counter_of
entry_of m p q v e = elim (find-cases m.number 0 p q m.entries) [
  | inl (j, found, f) ↦
      let x : some (m.entries j).stats_counter_id ≡ some v = rw found at e in
      (j, (let u = f.upper in omega (arith, u)), f.here, (cc))
  | inr (gone, _) ↦ let x : none ≡ some v = rw gone at e in cc
]

module _ (answer : List MapCall → MapCall → ℤ)
    (accepts : (calls : List MapCall) (c : MapCall) → answer calls c ≡ pos 0) where
  ends-enabled :
      (not_supported : ℤ) (before : Bool) (r : List MapCall × Pass) (any : Bool)
      → r.1 ≡ Pass.passed any
      → enabled_after answer not_supported before r ≡ ok (if any then true else before, r.0)
  unfolding enabled_after
  ends-enabled not_supported before (calls, Pass.passed found) any e =
      let x : found ≡ any = cc in rw x refl
  ends-enabled not_supported before (calls, Pass.refused diag) any e = cc

  -- With a device that accepts all mappings the pass over both tables returns.
  pub maps :
      (not_supported : ℤ) (s : QueueStats) (p : ℕ) (before : Bool × Bool) (calls : List MapCall)
      → (tx_after rx_after : Bool) × (calls' : List MapCall) × (map_registers answer not_supported p
            s before calls
          ≡ ok (tx_after, rx_after, calls'))
  unfolding map_registers
  maps not_supported s p (tx_before, rx_before) calls =
      let t =
        pass-Passes answer accepts MapCall.set_tx_mapping s.nb_txq p s.tx.entries s.tx.number 0
          false calls in
      let tx =
        set_registers answer MapCall.set_tx_mapping s.nb_txq p s.tx.number 0 s.tx.entries false
          calls in
      let r =
        pass-Passes answer accepts MapCall.set_rx_mapping s.nb_rxq p s.rx.entries s.rx.number 0
          false tx.0 in
      let rx =
        set_registers answer MapCall.set_rx_mapping s.nb_rxq p s.rx.number 0 s.rx.entries false
          tx.0 in
      (
        (if t.any then true else tx_before),
        (if r.any then true else rx_before),
        rx.0,
        rw
            (
              ends-enabled not_supported tx_before tx t.any t.ends,
              ends-enabled not_supported rx_before rx r.any r.ends,
            )
            refl,
      )

  -- A device that accepts all mappings is given that of each mapped receive queue.
  pub mapped_reaches :
      (not_supported : ℤ) (s : QueueStats) (p q v : ℕ) (before : Bool × Bool) (calls : List MapCall)
      → q < s.nb_rxq
      → counter_of s.rx p q ≡ some v
      → (tx_after : Bool) × (calls' : List MapCall) × (map_registers answer not_supported p s before
            calls
          ≡ ok (tx_after, true, calls'))
        × Mem (MapCall.set_rx_mapping p q v) calls'
  unfolding map_registers
  mapped_reaches not_supported s p q v (tx_before, rx_before) calls has mapped =
      let (j, below, here, same) = entry_of s.rx p q v mapped in
      let (same_port, same_queue) = is_for-eq p q (s.rx.entries j) here in
      let t =
        pass-Passes answer accepts MapCall.set_tx_mapping s.nb_txq p s.tx.entries s.tx.number 0
          false calls in
      let tx =
        set_registers answer MapCall.set_tx_mapping s.nb_txq p s.tx.number 0 s.tx.entries false
          calls in
      let r =
        pass-Passes answer accepts MapCall.set_rx_mapping s.nb_rxq p s.rx.entries s.rx.number 0
          false tx.0 in
      let rx =
        set_registers answer MapCall.set_rx_mapping s.nb_rxq p s.rx.number 0 s.rx.entries false
          tx.0 in
      let is_wanted : ((s.rx.entries j).port_id == p && ltb (s.rx.entries j).queue_id s.nb_rxq)
          ≡ true =
        rw (eq→== (s.rx.entries j).port_id p same_port, same_queue) (lt→ltb q s.nb_rxq has) in
      let (found, made) = r.makes j (omega arith) (omega arith) is_wanted in
      (
        (if t.any then true else tx_before),
        rx.0,
        rw
            (
              ends-enabled not_supported tx_before tx t.any t.ends,
              ends-enabled not_supported rx_before rx r.any r.ends,
              found,
            )
            refl,
        subst (λ z. Mem (MapCall.set_rx_mapping p q z) rx.0) same
            (subst (λ z. Mem (MapCall.set_rx_mapping p z (s.rx.entries j).stats_counter_id) rx.0)
              same_queue made),
      )

  -- For a port that is known, a receive queue that it has and a counter that a device has, where
  -- the table for receiving has room and the device accepts all mappings, set_qmap returns, and
  -- then map_port_queue_stats_mapping_registers returns with the mapping enabled to receive, and
  -- has given the device the counter of that queue.
  pub set_qmap_reaches :
      (max counters : ℕ) (not_supported : ℤ) (s : QueueStats) (p q v : ℕ) (before : Bool × Bool)
      → port_id_is_invalid s.enabled max p ≡ false
      → v < counters
      → q < s.nb_rxq
      → s.rx.number < 4096
      → (s' : QueueStats) × (set_qmap max counters p true q v s ≡ ok s')
        × ((calls : List MapCall)
            → (tx_after : Bool) × (calls' : List MapCall) × (map_registers answer not_supported p s'
                  before calls
                ≡ ok (tx_after, true, calls'))
              × Mem (MapCall.set_rx_mapping p q v) calls')
  set_qmap_reaches max counters not_supported s p q v before known low has room =
      let (m, e, mapped, _, _) = set_qmap-receive max counters s p q v known low has room in
      let s' = record s { rx = m } in
      (s', e, (λ calls. mapped_reaches not_supported s' p q v before calls has mapped))
