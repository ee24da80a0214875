-- ===== src/Streams/EchoCores.antt =====
-- The streams of `icmp_echo_config_setup`, which are written core by core.
use platform.Common.{
  ℕ, zero, suc, ◌+◌, ◌*◌, ◌/◌, ◌%◌, ◌^◌, ◌≤◌, ◌<◌, ◌≡◌, refl, ◌∙◌, sym, inl, inr, arith,
}
use platform.Common.{
  ok, load-ok, store-ok, update, ltb, true, false, if◌then◌else◌, eq-cases, eq→==, ne→==, ge→ltb,
  ◌==◌, Bool-cases,
}
use native.Mathlib.Nat.{
  mod-lt, mod-eq_of_lt, zero-div, zero-mod, mul_comm, mul-le-mul_left, mul-pos, le-mul_of_pos_right,
}
use platform.Streams.{
  Stream, Lcore, PortLimits, Fwd, queues_fit, icmp_core, icmp_cores, icmp_echo_config_setup,
  init_fwd_streams, setup_fwd_config_of_each_lcore,
}
use platform.Streams.Slots.{
  next_queue, next_port, port-lt, slot, stream_of-slot, init_fwd_streams-eq,
}
use platform.Streams.Tiles.{Tiles, lcores_tiled}
use platform.Streams.Rss.{cores-min, queues_fit_cfg}

-- The stream with number `k`, from queue `k % n` of the port at place `k / n` back to it.
abbrev pub echo_slot : Fwd → ℕ → ℕ → Stream
echo_slot s n k = slot s (k / n) (k / n) (k % n)

Tiles-le : (n lc first last : ℕ) (lcores : ℕ → Lcore) → Tiles n lc first last lcores → first ≤ last
Tiles-le zero lc first last lcores x = omega (arith, x)
Tiles-le (suc n) lc first last lcores x =
    let rest = Tiles-le n (lc + 1) (first + (lcores lc).stream_nb) last lcores x.1 in
    omega (arith, rest)

module _ (max nb_q total : ℕ) (some : 0 < nb_q) where
  -- What the loops need of the globals, none of which they write but the streams.
  record Fits (s : Fwd) : Type 0 where
    queues : s.nb_rxq ≡ nb_q
    ports : s.cfg_nb_fwd_ports ≤ max
    byte : s.cfg_nb_fwd_ports < 2 ^ 8
    word : nb_q < 2 ^ 16
    streams : total ≡ nb_q * s.cfg_nb_fwd_ports
    room : total ≤ s.nb_fwd_streams

  abbrev with_streams : Fwd → (ℕ → Stream) → Fwd
  with_streams s streams = record s { fwd_streams = streams }

  -- The streams from `k` to below `last` are written, and no others.
  record Filled (k last : ℕ) (s : Fwd) (streams : ℕ → Stream) : Type 0 where
    new : (j : ℕ) → k ≤ j → j < last → streams j ≡ echo_slot s nb_q j
    old : (j : ℕ) → j < k → streams j ≡ s.fwd_streams j

  with_streams-Fits : (s : Fwd) (streams : ℕ → Stream) → Fits s → Fits (with_streams s streams)
  with_streams-Fits s streams f = record {
    queues = f.queues;
    ports = f.ports;
    byte = f.byte;
    word = f.word;
    streams = f.streams;
    room = f.room;
  }

  round :
      (k : ℕ) (s : Fwd)
      → Fits s
      → k < total
      → (n : ℕ)
      → icmp_core (suc n) max k (k / nb_q) (k % nb_q) s
        ≡ icmp_core n max
            (k + 1)
            ((k + 1) / nb_q)
            ((k + 1) % nb_q)
            (with_streams s (update s.fwd_streams k (echo_slot s nb_q k)))
  unfolding icmp_core
  round k s f below n =
      let p = k / nb_q in
      let here : p < s.cfg_nb_fwd_ports =
        port-lt k nb_q s.cfg_nb_fwd_ports some (let t = f.streams in omega (arith, t, below)) in
      let lt = mod-lt k some in
      let exact : (k % nb_q + 1) % 2 ^ 16 ≡ k % nb_q + 1 =
        let w = f.word in mod-eq_of_lt (omega (arith, lt, w)) in
      let exact' : (p + 1) % 2 ^ 8 ≡ p + 1 =
        let b = f.byte in mod-eq_of_lt (omega (arith, here, b)) in
      let stream =
        stream_of-slot max s p p (k % nb_q) (let m = f.ports in omega (arith, here, m))
          (let m = f.ports in omega (arith, here, m)) in
      let stored =
        store-ok s.nb_fwd_streams s.fwd_streams k (echo_slot s nb_q k)
          (let m = f.room in omega (arith, m, below)) in
      let queues = f.queues in
      elim (eq-cases (k % nb_q + 1) nb_q) [
        | inr more ↦
            let (same, up) = next_queue k nb_q (omega (arith, lt, more)) in
            let test : (k % nb_q + 1 == s.nb_rxq) ≡ false =
              ne→== (k % nb_q + 1) s.nb_rxq (λ e. more (e ∙ queues)) in
            rw (stream, stored, exact, test, same, up) refl
        | inl last ↦
            let (up, first) = next_port k nb_q last in
            let test : (k % nb_q + 1 == s.nb_rxq) ≡ true =
              eq→== (k % nb_q + 1) s.nb_rxq (last ∙ sym queues) in
            rw (stream, stored, exact, test, exact', up, first) refl
      ]

  core-Filled :
      (n k : ℕ) (s : Fwd)
      → Fits s
      → k + n ≤ total
      → (streams : ℕ → Stream) × (icmp_core n max k (k / nb_q) (k % nb_q) s
          ≡ ok (with_streams s streams, (k + n) / nb_q, (k + n) % nb_q))
        × Filled k (k + n) s streams
  unfolding icmp_core
  core-Filled zero k s f le =
      let z : k + 0 ≡ k = omega arith in
      (
        s.fwd_streams,
        rw z refl,
        record { new = λ j lo hi. absurd (omega arith); old = λ j lt. refl },
      )
  core-Filled (suc n) k s f le =
      let s' = with_streams s (update s.fwd_streams k (echo_slot s nb_q k)) in
      let (streams, r, g) =
        core-Filled n (k + 1) s' (with_streams-Fits s s'.fwd_streams f) (omega arith) in
      let z : k + 1 + n ≡ k + suc n = omega arith in
      (
        streams,
        round k s f (omega arith) n ∙ rw z at r,
        record {
          new = λ j lo hi. elim (eq-cases k j) [
            | inl x ↦ rw (sym x) (g.old k (omega arith) ∙ rw (eq→== k k refl) refl)
            | inr ne ↦ g.new j (omega (arith, ne)) (omega arith)
          ];
          old =
              λ j lt. g.old j (omega arith) ∙ rw (ne→== j k (λ x. absurd (omega (arith, x)))) refl;
        },
      )

  cores-step :
      (n lc first : ℕ) (s t : Fwd) (rxp rxq rxp' rxq' : ℕ)
      → lc < s.nb_lcores
      → (s.fwd_lcores lc).stream_idx ≡ first
      → icmp_core (s.fwd_lcores lc).stream_nb max first rxp rxq s ≡ ok (t, rxp', rxq')
      → icmp_cores (suc n) max lc rxp rxq s ≡ icmp_cores n max (lc + 1) rxp' rxq' t
  unfolding icmp_cores
  cores-step n lc first s t rxp rxq rxp' rxq' lt at_first run =
      rw (load-ok s.nb_lcores s.fwd_lcores lc lt, at_first, run) refl

  cores-Filled :
      (n lc first last : ℕ) (s : Fwd)
      → Fits s
      → Tiles n lc first last s.fwd_lcores
      → lc + n ≤ s.nb_lcores
      → last ≤ total
      → (streams : ℕ → Stream) × (icmp_cores n max lc (first / nb_q) (first % nb_q) s
          ≡ ok (with_streams s streams))
        × Filled first last s streams
  unfolding icmp_cores
  cores-Filled zero lc first last s f tiles fits le = (
    s.fwd_streams,
    refl,
    record { new = λ j lo hi. absurd (omega (arith, tiles)); old = λ j lt. refl },
  )
  cores-Filled (suc n) lc first last s f tiles fits le =
      let m = (s.fwd_lcores lc).stream_nb in
      let at_first = tiles.0 in
      let more = Tiles-le n (lc + 1) (first + m) last s.fwd_lcores tiles.1 in
      let (streams, r, g) = core-Filled m first s f (omega (arith, more)) in
      let (streams', r', g') =
        cores-Filled n (lc + 1) (first + m) last (with_streams s streams)
          (with_streams-Fits s streams f) tiles.1 (omega arith) le in
      (
        streams',
        cores-step n lc first s (with_streams s streams) (first / nb_q) (first % nb_q)
              ((first + m) / nb_q) ((first + m) % nb_q) (omega arith) at_first r
            ∙ r',
        record {
          new = λ j lo hi. elim (Bool-cases (ltb j (first + m))) [
            | inl x ↦ let lt : j < first + m = ground (arith, x) in g'.old j lt ∙ g.new j lo lt
            | inr x ↦ g'.new j (ground (arith, x)) hi
          ];
          old = λ j lt. g'.old j (omega arith) ∙ g.old j lt;
        },
      )

-- The steps of the set-up one behind the other.
setup-steps :
    (max : ℕ) (ports : ℕ → PortLimits) (s s1 s2 c : Fwd) (some_lcores lcores total : ℕ)
    → (s.nb_rxq * s.nb_fwd_ports) % 2 ^ 16 ≡ total
    → (if ltb (s.nb_txq * s.nb_fwd_ports) s.nb_fwd_lcores
        then (s.nb_txq * s.nb_fwd_ports) % 2 ^ 8
        else s.nb_fwd_lcores)
      ≡ some_lcores
    → (if ltb total some_lcores then total % 2 ^ 8 else some_lcores) ≡ lcores
    → init_fwd_streams max ports (record s {
      cfg_nb_fwd_lcores = lcores;
      cfg_nb_fwd_ports = s.nb_fwd_ports;
      cfg_nb_fwd_streams = total;
    })
      ≡ s1
    → setup_fwd_config_of_each_lcore s1 ≡ ok s2
    → icmp_cores lcores max 0 0 0 s2 ≡ ok c
    → icmp_echo_config_setup max ports s ≡ ok c
unfolding icmp_echo_config_setup
setup-steps max ports s s1 s2 c some_lcores lcores total exact cut cut' init setup loop =
    rw (exact, cut, cut', init, setup, loop) refl

-- Let the ports have the queues, at least one in each direction and not more to send than to
-- receive; let there be a forwarding port, at most as many as ports, and these fewer than 256 and
-- within the list; let there be a forwarding core, fewer than 256 and each allocated; and let the
-- queues of all ports be fewer than 65535. Then icmp_echo_config_setup returns; there is a stream
-- for each receive queue of each forwarding port, stream k from queue k % nb_rxq of the port at
-- place k / nb_rxq back to the queue of that number of the same port; and the cores have these
-- streams between them, each the ones behind those of the core before it.
pub every_queue_echoes :
    (max : ℕ) (ports : ℕ → PortLimits) (s : Fwd)
    → queues_fit max 0 ports s ≡ true
    → s.nb_fwd_ports ≤ s.nb_ports
    → 0 < s.nb_rxq
    → 0 < s.nb_txq
    → s.nb_txq ≤ s.nb_rxq
    → s.nb_ports * s.nb_rxq + 1 < 2 ^ 16
    → s.nb_fwd_ports ≤ max
    → 0 < s.nb_fwd_ports
    → s.nb_fwd_ports < 2 ^ 8
    → 0 < s.nb_fwd_lcores
    → s.nb_fwd_lcores < 2 ^ 8
    → s.nb_fwd_lcores ≤ s.nb_lcores
    → (c : Fwd) × (icmp_echo_config_setup max ports s ≡ ok c)
      × (c.cfg_nb_fwd_streams ≡ s.nb_rxq * s.nb_fwd_ports)
      × Tiles c.cfg_nb_fwd_lcores 0 0 c.cfg_nb_fwd_streams c.fwd_lcores
      × ((k : ℕ) → k < c.cfg_nb_fwd_streams → c.fwd_streams k ≡ echo_slot c s.nb_rxq k)
every_queue_echoes max ports s fit few some_queues some_tx fewer small listed some_ports byte
      some_lcores byte' room =
    let n = s.nb_rxq in
    let total = n * s.nb_fwd_ports in
    let most : total ≤ s.nb_ports * n = rw (mul_comm s.nb_ports n) (mul-le-mul_left n few) in
    let (cut_lcores, ecut, a1, a2, a3, a4) =
      cores-min (s.nb_txq * s.nb_fwd_ports) s.nb_fwd_lcores (mul-pos some_tx some_ports) some_lcores
        byte' in
    let (lcores, ecut', l1, l2, l3, l4) =
      cores-min total cut_lcores (mul-pos some_queues some_ports) a1 a3 in
    let s0 = record s {
      cfg_nb_fwd_lcores = lcores;
      cfg_nb_fwd_ports = s.nb_fwd_ports;
      cfg_nb_fwd_streams = total;
    } in
    let larger : ltb n s.nb_txq ≡ false = ge→ltb n s.nb_txq fewer in
    let exact : total % 2 ^ 16 ≡ total = mod-eq_of_lt (omega (arith, small, most)) in
    let (old, einit) =
      init_fwd_streams-eq max ports s0 n
        (queues_fit_cfg max 0 ports s lcores s.nb_fwd_ports total ∙ fit) (rw larger refl)
        some_queues (omega arith) in
    let s1 = record s0 { nb_fwd_streams = s.nb_ports * n; fwd_streams = old } in
    let fits : lcores ≤ s.nb_lcores = omega (arith, l4, a4, room) in
    let (cores, esetup, tiles, each) = lcores_tiled s1 l1 l2 (omega (arith, most, small)) l3 fits in
    let s2 = record s1 { fwd_lcores = cores } in
    let word : n < 2 ^ 16 =
      let x = le-mul_of_pos_right n some_ports in omega (arith, x, most, small) in
    let (streams, eloop, g) =
      cores-Filled max n total some_queues lcores 0 0 total s2
        (record {
          queues = refl;
          ports = listed;
          byte = byte;
          word = word;
          streams = refl;
          room = most;
        })
        tiles (omega (arith, fits)) (omega arith) in
    let eloop' : icmp_cores lcores max 0 0 0 s2 ≡ ok (record s2 { fwd_streams = streams }) =
      rw (zero-div n, zero-mod n) at eloop in
    (
      record s2 { fwd_streams = streams },
      setup-steps max ports s s1 s2 (record s2 { fwd_streams = streams }) cut_lcores lcores total
          exact ecut ecut' einit esetup eloop',
      refl,
      tiles,
      (λ k h. g.new k (omega arith) h),
    )
