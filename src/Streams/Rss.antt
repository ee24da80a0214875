-- ===== src/Streams/Rss.antt =====
-- The streams of `rss_fwd_config_setup`.
use platform.Common.{
  ℕ, zero, suc, ◌+◌, ◌*◌, ◌/◌, ◌%◌, ◌^◌, ◌≤◌, ◌<◌, ◌≡◌, refl, ◌∙◌, sym, inl, inr, arith,
}
use platform.Common.{
  ok, store-ok, update, ltb, ge→ltb, true, false, if◌then◌else◌, Bool-cases, eq-cases, eq→==, ne→==,
}
use native.Mathlib.Nat.{
  mod-lt, mod-eq_of_lt, zero-div, zero-mod, mul_comm, mul-le-mul_left, mul-pos, le-mul_of_pos_right,
}
use platform.Streams.{
  Stream, PortLimits, Fwd, queues_fit, rss_streams, rss_fwd_config_setup, init_fwd_streams,
  setup_fwd_config_of_each_lcore,
}
use platform.Streams.Slots.{
  next_queue, next_port, port-lt, peer, topology-peer, peer-lt, slot, stream_of-slot,
  init_fwd_streams-eq,
}
use platform.Streams.Tiles.{Tiles, lcores_tiled}

-- The stream with number `k`: queue `k % n` of the port at place `k / n`.
abbrev pub rss_slot : Fwd → ℕ → ℕ → Stream
rss_slot s n k = slot s (k / n) (peer s.port_topology s.cfg_nb_fwd_ports (k / n)) (k % n)

module _ (max nb_q total : ℕ) (some : 0 < nb_q) where
  -- What the loop needs of the globals, none of which it writes but the streams.
  record Fits (s : Fwd) : Type 0 where
    ports : s.cfg_nb_fwd_ports ≤ max
    byte : s.cfg_nb_fwd_ports < 2 ^ 8
    word : nb_q < 2 ^ 16
    streams : total ≡ nb_q * s.cfg_nb_fwd_ports
    room : total ≤ s.nb_fwd_streams

  -- One round: the stream is written, and the port and queue of the next one are taken.
  round :
      (k : ℕ) (s : Fwd)
      → Fits s
      → k < total
      → (n : ℕ)
      → rss_streams (suc n) max nb_q k (k / nb_q) (k % nb_q) s
        ≡ rss_streams n max nb_q
            (k + 1)
            ((k + 1) / nb_q)
            ((k + 1) % nb_q)
            (record s { fwd_streams = update s.fwd_streams k (rss_slot s nb_q k) })
  unfolding rss_streams
  round k s f below n =
      let nb = s.cfg_nb_fwd_ports in
      let p = k / nb_q in
      let q = peer s.port_topology nb p in
      let here : p < nb = port-lt k nb_q nb some (let t = f.streams in omega (arith, t)) in
      let there = peer-lt s.port_topology nb p here in
      let lt = mod-lt k some in
      let exact : (k % nb_q + 1) % 2 ^ 16 ≡ k % nb_q + 1 =
        let w = f.word in mod-eq_of_lt (omega (arith, lt, w)) in
      let exact' : (p + 1) % 2 ^ 8 ≡ p + 1 =
        let b = f.byte in mod-eq_of_lt (omega (arith, here, b)) in
      let topology = topology-peer s.port_topology nb p here in
      let stream =
        stream_of-slot max s p q (k % nb_q) (let m = f.ports in omega (arith, here, m))
          (let m = f.ports in omega (arith, there, m)) in
      let stored =
        store-ok s.nb_fwd_streams s.fwd_streams k (rss_slot s nb_q k)
          (let m = f.room in omega (arith, m)) in
      elim (Bool-cases (ltb (k % nb_q + 1) nb_q)) [
        | inl more ↦
            let (same, up) = next_queue k nb_q (ground (arith, more)) in
            rw (topology, stream, stored, exact, more, same, up) refl
        | inr last ↦
            let (up, first) =
              next_port k nb_q
                (let ge : nb_q ≤ k % nb_q + 1 = ground (arith, last) in omega (arith, lt, ge)) in
            rw (topology, stream, stored, exact, last, exact', up, first) refl
      ]

  loop-slots :
      (n k : ℕ) (s : Fwd)
      → Fits s
      → k + n ≡ total
      → (streams : ℕ → Stream) × (rss_streams n max nb_q k (k / nb_q) (k % nb_q) s
          ≡ ok (record s { fwd_streams = streams }))
        × ((j : ℕ) → k ≤ j → j < total → streams j ≡ rss_slot s nb_q j)
        × ((j : ℕ) → j < k → streams j ≡ s.fwd_streams j)
  unfolding rss_streams
  loop-slots zero k s f e =
      (s.fwd_streams, refl, (λ j lo hi. absurd (omega (arith, e))), (λ j h. refl))
  loop-slots (suc n) k s f e =
      let s' = record s { fwd_streams = update s.fwd_streams k (rss_slot s nb_q k) } in
      let (streams, r, new, old) =
        loop-slots n (k + 1) s'
          (record {
            ports = f.ports;
            byte = f.byte;
            word = f.word;
            streams = f.streams;
            room = f.room;
          })
          (omega (arith, e)) in
      let run = round k s f (omega (arith, e)) n in
      (
        streams,
        run ∙ r,
        (λ j lo hi. elim (eq-cases k j) [
          | inl x ↦ rw (sym x) (old k (omega arith) ∙ rw (eq→== k k refl) refl)
          | inr ne ↦ new j (omega (arith, ne)) hi
        ]),
        (λ j h. old j (omega arith) ∙ rw (ne→== j k (λ x. absurd (omega (arith, x)))) refl),
      )

-- The number of cores, the smaller one of those that are wanted and the streams.
pub cores-min :
    (total wanted : ℕ)
    → 0 < total
    → 0 < wanted
    → wanted < 2 ^ 8
    → (l : ℕ) × ((if ltb total wanted then total % 2 ^ 8 else wanted) ≡ l)
      × (0 < l)
      × (l ≤ total)
      × (l < 2 ^ 8)
      × (l ≤ wanted)
cores-min total wanted some some' byte = elim (Bool-cases (ltb total wanted)) [
  | inl e ↦
      let lt : total < wanted = ground (arith, e) in
      (
        total,
        rw e (mod-eq_of_lt (omega (arith, lt))),
        some,
        omega arith,
        omega (arith, lt),
        omega (arith, lt),
      )
  | inr e ↦
      let ge : wanted ≤ total = ground (arith, e) in
      (wanted, rw e refl, some', ge, byte, omega arith)
]

-- Whether the ports have the queues does not hang on the configuration.
pub queues_fit_cfg :
    (n pid : ℕ) (ports : ℕ → PortLimits) (s : Fwd) (a b c : ℕ)
    → queues_fit n pid ports
        (record s { cfg_nb_fwd_lcores = a; cfg_nb_fwd_ports = b; cfg_nb_fwd_streams = c })
      ≡ queues_fit n pid ports s
unfolding queues_fit
queues_fit_cfg zero pid ports s a b c = refl
queues_fit_cfg (suc n) pid ports s a b c = rw (queues_fit_cfg n (pid + 1) ports s a b c) refl

-- The steps of the set-up one behind the other.
setup-steps :
    (max : ℕ) (ports : ℕ → PortLimits) (s s1 s2 c : Fwd) (lcores total : ℕ)
    → ltb s.nb_txq s.nb_rxq ≡ false
    → (s.nb_rxq * s.nb_fwd_ports) % 2 ^ 16 ≡ total
    → (if ltb total s.nb_fwd_lcores then total % 2 ^ 8 else s.nb_fwd_lcores) ≡ lcores
    → init_fwd_streams max ports (record s {
      cfg_nb_fwd_lcores = lcores;
      cfg_nb_fwd_ports = s.nb_fwd_ports;
      cfg_nb_fwd_streams = total;
    })
      ≡ s1
    → setup_fwd_config_of_each_lcore s1 ≡ ok s2
    → rss_streams total max s.nb_rxq 0 0 0 s2 ≡ ok c
    → rss_fwd_config_setup max ports s ≡ ok c
unfolding rss_fwd_config_setup
setup-steps max ports s s1 s2 c lcores total least exact cut init setup loop =
    rw (least, exact, cut, init, setup, loop) refl

-- Let the ports have the queues, as many in both directions and at least one; let there be a
-- forwarding port, at most as many as ports, and these fewer than 256 and within the list; let
-- there be a forwarding core, fewer than 256 and each allocated; and let the queues of all ports
-- be fewer than 65535. Then rss_fwd_config_setup returns; there is a stream for each queue of
-- each forwarding port, stream k for queue k % nb_rxq of the port at place k / nb_rxq, to the
-- same queue of the port that its topology gives; and the cores have these streams between them,
-- each the ones behind those of the core before it.
pub every_queue_has_stream :
    (max : ℕ) (ports : ℕ → PortLimits) (s : Fwd)
    → queues_fit max 0 ports s ≡ true
    → s.nb_fwd_ports ≤ s.nb_ports
    → 0 < s.nb_rxq
    → s.nb_txq ≡ s.nb_rxq
    → s.nb_ports * s.nb_rxq + 1 < 2 ^ 16
    → s.nb_fwd_ports ≤ max
    → 0 < s.nb_fwd_ports
    → s.nb_fwd_ports < 2 ^ 8
    → 0 < s.nb_fwd_lcores
    → s.nb_fwd_lcores < 2 ^ 8
    → s.nb_fwd_lcores ≤ s.nb_lcores
    → (c : Fwd) × (rss_fwd_config_setup max ports s ≡ ok c)
      × (c.cfg_nb_fwd_streams ≡ s.nb_rxq * s.nb_fwd_ports)
      × Tiles c.cfg_nb_fwd_lcores 0 0 c.cfg_nb_fwd_streams c.fwd_lcores
      × ((k : ℕ) → k < c.cfg_nb_fwd_streams → c.fwd_streams k ≡ rss_slot c s.nb_rxq k)
every_queue_has_stream max ports s fit few some_queues as_many small listed some_ports byte
      some_lcores byte' room =
    let n = s.nb_rxq in
    let total = n * s.nb_fwd_ports in
    let most : total ≤ s.nb_ports * n = rw (mul_comm s.nb_ports n) (mul-le-mul_left n few) in
    let (lcores, ecut, l1, l2, l3, l4) =
      cores-min total s.nb_fwd_lcores (mul-pos some_queues some_ports) some_lcores byte' in
    let s0 = record s {
      cfg_nb_fwd_lcores = lcores;
      cfg_nb_fwd_ports = s.nb_fwd_ports;
      cfg_nb_fwd_streams = total;
    } in
    let least : ltb s.nb_txq n ≡ false = ge→ltb s.nb_txq n (omega (arith, as_many)) in
    let least' : ltb n s.nb_txq ≡ false = ge→ltb n s.nb_txq (omega (arith, as_many)) in
    let exact : total % 2 ^ 16 ≡ total = mod-eq_of_lt (omega (arith, small, most)) in
    let (old, einit) =
      init_fwd_streams-eq max ports s0 n
        (queues_fit_cfg max 0 ports s lcores s.nb_fwd_ports total ∙ fit) (rw least' refl)
        some_queues (omega arith) in
    let s1 = record s0 { nb_fwd_streams = s.nb_ports * n; fwd_streams = old } in
    let (cores, esetup, tiles, each) =
      lcores_tiled s1 l1 l2 (omega (arith, most, small)) l3 (omega (arith, l4, room)) in
    let s2 = record s1 { fwd_lcores = cores } in
    let word : n < 2 ^ 16 =
      let x = le-mul_of_pos_right n some_ports in omega (arith, x, most, small) in
    let (streams, eloop, new, o) =
      loop-slots max n total some_queues total 0 s2
        (record { ports = listed; byte = byte; word = word; streams = refl; room = most })
        (omega arith) in
    let eloop' : rss_streams total max n 0 0 0 s2 ≡ ok (record s2 { fwd_streams = streams }) =
      rw (zero-div n, zero-mod n) at eloop in
    (
      record s2 { fwd_streams = streams },
      setup-steps max ports s s1 s2 (record s2 { fwd_streams = streams }) lcores total least exact
          ecut einit esetup eloop',
      refl,
      tiles,
      (λ k h. new k (omega arith) h),
    )
