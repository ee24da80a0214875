-- ===== src/Streams/Modes/Simple.antt =====
-- The streams of `simple_fwd_config_setup`.
use platform.Common.{
  ℕ, zero, suc, ◌+◌, ◌-◌, ◌%◌, ◌^◌, ◌≤◌, ◌<◌, ◌≡◌, ◌≢◌, refl, ◌∙◌, sym, ap, inl, inr, arith,
}
use platform.Common.{
  ok, store-ok, update, ltb, lt→ltb, ge→ltb, eq-cases, Bool-cases, false, eq→==, ne→==, ◌==◌,
}
use mathlib.Core.Path.{subst}
use native.Mathlib.Nat.{mod-eq_of_lt}
use platform.Streams.{Topology, Stream, Fwd}
use platform.Streams.Modes.{simple_pair, simple_streams}
use platform.Streams.Slots.{peer, peer-lt, slot, stream_of-slot}

-- The stream of the port at place `p`, from its only queue.
abbrev pub port_slot : Fwd → ℕ → Stream
port_slot s p = slot s p (peer s.port_topology s.cfg_nb_fwd_ports p) 0

abbrev of : Topology → Fwd → Fwd
of t s = record s { port_topology = t }

module _ (max : ℕ) where
  -- What the loop needs of the globals.
  pub record Fits (s : Fwd) : Type 0 where
    pub ports : s.cfg_nb_fwd_ports ≤ max
    pub byte : s.cfg_nb_fwd_ports < 2 ^ 8
    pub room : s.cfg_nb_fwd_ports ≤ s.nb_fwd_streams

  -- The loop leaves the streams of the ports from `i` on.
  Filled : ℕ → ℕ → Fwd → Type 0
  Filled fuel i s =
      (streams : ℕ → Stream) × (simple_streams fuel max i s
        ≡ ok (record s { fwd_streams = streams }))
      × ((j : ℕ) → i ≤ j → j < s.cfg_nb_fwd_ports → streams j ≡ port_slot s j)
      × ((j : ℕ) → j < i → streams j ≡ s.fwd_streams j)

  written : Fwd → ℕ → Fwd
  written s i = record s { fwd_streams = update s.fwd_streams i (port_slot s i) }

  end-Filled : (fuel i : ℕ) (s : Fwd) → s.cfg_nb_fwd_ports ≤ i → Filled fuel i s
  unfolding simple_streams Filled
  end-Filled zero i s h = (
    s.fwd_streams,
    rw (ge→ltb i s.cfg_nb_fwd_ports h) refl,
    (λ j lo hi. absurd (omega arith)),
    (λ j b. refl),
  )
  end-Filled (suc fuel) i s h = (
    s.fwd_streams,
    rw (ge→ltb i s.cfg_nb_fwd_ports h) refl,
    (λ j lo hi. absurd (omega arith)),
    (λ j b. refl),
  )

  -- A round that writes the stream of one port.
  single :
      (t : Topology) (i fuel : ℕ) (s : Fwd)
      → t ≢ Topology.paired
      → Fits s
      → i < s.cfg_nb_fwd_ports
      → simple_streams (suc fuel) max i (of t s)
        ≡ simple_streams fuel max (i + 1) (written (of t s) i)
  unfolding simple_streams simple_pair written
  single Topology.paired i fuel s ne f h = absurd (ne refl)
  single Topology.chained i fuel s ne f h =
      let nb = s.cfg_nb_fwd_ports in
      let q = (i + 1) % nb in
      let m = f.ports in
      let lt = peer-lt Topology.chained nb i h in
      let stream =
        stream_of-slot max (of Topology.chained s) i q 0 (omega (arith, h, m))
          (omega (arith, lt, m)) in
      let stored =
        store-ok s.nb_fwd_streams s.fwd_streams i (slot s i q 0)
          (let r = f.room in omega (arith, h, r)) in
      let exact : (i + 1) % 2 ^ 8 ≡ i + 1 = let b = f.byte in mod-eq_of_lt (omega (arith, h, b)) in
      rw (lt→ltb i nb h, exact, stream, stored) refl
  single Topology.loop i fuel s ne f h =
      let nb = s.cfg_nb_fwd_ports in
      let m = f.ports in
      let stream =
        stream_of-slot max (of Topology.loop s) i i 0 (omega (arith, h, m)) (omega (arith, h, m)) in
      let stored =
        store-ok s.nb_fwd_streams s.fwd_streams i (slot s i i 0)
          (let r = f.room in omega (arith, h, r)) in
      let exact : (i + 1) % 2 ^ 8 ≡ i + 1 = let b = f.byte in mod-eq_of_lt (omega (arith, h, b)) in
      rw (lt→ltb i nb h, exact, stream, stored) refl

  singles :
      (fuel i : ℕ) (s : Fwd)
      → s.port_topology ≢ Topology.paired
      → Fits s
      → s.cfg_nb_fwd_ports ≤ i + fuel
      → Filled fuel i s
  unfolding written Filled
  singles zero i s ne f enough = end-Filled zero i s (omega arith)
  singles (suc fuel) i s ne f enough = elim (Bool-cases (ltb i s.cfg_nb_fwd_ports)) [
    | inr e ↦ end-Filled (suc fuel) i s (ground (arith, e))
    | inl e ↦
        let h : i < s.cfg_nb_fwd_ports = ground (arith, e) in
        let (streams, r, new, old) =
          singles fuel (i + 1) (written s i) ne
            (record { ports = f.ports; byte = f.byte; room = f.room }) (omega arith) in
        (
          streams,
          single s.port_topology i fuel s ne f h ∙ r,
          (λ j lo hi. elim (eq-cases i j) [
            | inl x ↦ rw (sym x) (old i (omega arith) ∙ rw (eq→== i i refl) refl)
            | inr other ↦ new j (omega (arith, other)) hi
          ]),
          (λ j b. old j (omega arith) ∙ rw (ne→== j i (λ x. absurd (omega (arith, x)))) refl),
        )
  ]

  -- A round that writes the streams of a pair.
  pair :
      (i fuel : ℕ) (s : Fwd)
      → Fits s
      → i % 2 ≡ 0
      → i + 1 < s.cfg_nb_fwd_ports
      → simple_streams (suc fuel) max i (of Topology.paired s)
        ≡ simple_streams fuel max (i + 2) (written (written (of Topology.paired s) i) (i + 1))
  unfolding simple_streams simple_pair written
  pair i fuel s f even h =
      let nb = s.cfg_nb_fwd_ports in
      let m = f.ports in
      let there =
        stream_of-slot max (of Topology.paired s) i (i + 1) 0 (omega (arith, h, m))
          (omega (arith, h, m)) in
      let back =
        stream_of-slot max (of Topology.paired s) (i + 1) i 0 (omega (arith, h, m))
          (omega (arith, h, m)) in
      let stored =
        store-ok s.nb_fwd_streams s.fwd_streams i (slot s i (i + 1) 0)
          (let r = f.room in omega (arith, h, r)) in
      let stored' =
        store-ok s.nb_fwd_streams (update s.fwd_streams i (slot s i (i + 1) 0)) (i + 1)
          (slot s (i + 1) i 0) (let r = f.room in omega (arith, h, r)) in
      let next : (i + 1) % nb ≡ i + 1 = mod-eq_of_lt h in
      let exact : (i + 2) % 2 ^ 8 ≡ i + 2 = let b = f.byte in mod-eq_of_lt (omega (arith, h, b)) in
      let odd : ((i + 1) % 2 == 0) ≡ false = ground (arith, even) in
      let pred : i + 1 - 1 ≡ i = omega arith in
      rw
        (
          lt→ltb i nb (omega arith),
          next,
          exact,
          there,
          stored,
          back,
          stored',
          eq→== (i % 2) 0 even,
          lt→ltb (i + 1) nb h,
          odd,
          pred,
        )
        refl

  pairs :
      (fuel i : ℕ) (s : Fwd)
      → Fits s
      → i % 2 ≡ 0
      → s.cfg_nb_fwd_ports % 2 ≡ 0
      → s.cfg_nb_fwd_ports ≤ i + fuel
      → Filled fuel i (of Topology.paired s)
  unfolding written Filled
  pairs zero i s f even even' enough = end-Filled zero i (of Topology.paired s) (omega arith)
  pairs (suc fuel) i s f even even' enough = elim (Bool-cases (ltb i s.cfg_nb_fwd_ports)) [
    | inr e ↦ end-Filled (suc fuel) i (of Topology.paired s) (ground (arith, e))
    | inl e ↦
        let h : i + 1 < s.cfg_nb_fwd_ports = ground (arith, e, even, even') in
        let (streams, r, new, old) =
          pairs fuel (i + 2) (written (written (of Topology.paired s) i) (i + 1))
            (record { ports = f.ports; byte = f.byte; room = f.room }) (omega (arith, even)) even'
            (omega arith) in
        let here : streams i ≡ port_slot (of Topology.paired s) i =
          old i (omega arith)
          ∙ rw (ne→== i (i + 1) (λ x. absurd (omega (arith, x))), eq→== i i refl) refl in
        let next : streams (i + 1) ≡ port_slot (of Topology.paired s) (i + 1) =
          old (i + 1) (omega arith) ∙ rw (eq→== (i + 1) (i + 1) refl) refl in
        (
          streams,
          pair i fuel s f even h ∙ r,
          (λ j lo hi. elim (eq-cases i j) [
            | inl x ↦ rw (sym x) here
            | inr other ↦ elim (eq-cases (i + 1) j) [
              | inl x ↦ rw (sym x) next
              | inr other' ↦ new j (omega (arith, other, other')) hi
            ]
          ]),
          (λ j b.
              old j (omega arith)
              ∙ rw
                  (
                    ne→== j (i + 1) (λ x. absurd (omega (arith, x))),
                    ne→== j i (λ x. absurd (omega (arith, x))),
                  )
                  refl),
        )
  ]

  -- The loop from the first port on leaves the streams of all.
  abbrev pub Full : Fwd → Type 0
  Full s =
      (streams : ℕ → Stream) × (simple_streams s.cfg_nb_fwd_ports max 0 s
        ≡ ok (record s { fwd_streams = streams }))
      × ((j : ℕ) → j < s.cfg_nb_fwd_ports → streams j ≡ port_slot s j)

  pub ports-slots :
      (t : Topology) (s : Fwd)
      → Fits s
      → s.port_topology ≡ t
      → (t ≡ Topology.paired → s.cfg_nb_fwd_ports % 2 ≡ 0)
      → Full s
  unfolding Filled
  ports-slots Topology.paired s f is even =
      let same : of Topology.paired s ≡ s = ap (λ t. of t s) (sym is) in
      let (streams, r, new, old) =
        pairs s.cfg_nb_fwd_ports 0 s f (omega arith) (even refl) (omega arith) in
      subst Full same (streams, r, (λ j h. new j (omega arith) h))
  ports-slots Topology.chained s f is even =
      let (streams, r, new, old) =
        singles s.cfg_nb_fwd_ports 0 s (rw is (λ e. absurd (cc))) f (omega arith) in
      (streams, r, (λ j h. new j (omega arith) h))
  ports-slots Topology.loop s f is even =
      let (streams, r, new, old) =
        singles s.cfg_nb_fwd_ports 0 s (rw is (λ e. absurd (cc))) f (omega arith) in
      (streams, r, (λ j h. new j (omega arith) h))
