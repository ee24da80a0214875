-- ===== src/Streams/Slots.antt =====
-- The streams in their order: which port and queue has which, and how a loop goes on from one to the
-- next.
use platform.Common.{ℕ, ◌+◌, ◌-◌, ◌*◌, ◌/◌, ◌%◌, ◌^◌, ◌<◌, ◌≡◌, refl, sym, ap, inl, inr, arith}
use platform.Common.{ok, load-ok, ltb, ◌==◌, true, if◌then◌else◌, Bool-cases, ne→==}
use native.Mathlib.Nat.{
  div-add-mod', mod-lt, mod-eq_of_lt, div-eq_of_lt-le, div-lt_iff_lt-mul, mul_comm,
}
use platform.Streams.{Topology, Stream, PortLimits, Fwd, queues_fit, init_fwd_streams, zeroed}
use platform.Streams.{fwd_topology_tx_port_get, stream_of}

times_succ : (q n : ℕ) → (q + 1) * n ≡ q * n + n
times_succ q n = grind arith

-- The quotient and the remainder of the number that they make.
quotient : (q r n k : ℕ) → q * n + r ≡ k → r < n → (k / n ≡ q) × (k % n ≡ r)
quotient q r n k e h =
    let d : k / n ≡ q = div-eq_of_lt-le n (omega (arith, e)) (omega (arith, e, times_succ q n)) in
    let m : q * n + k % n ≡ k = rw d at (div-add-mod' k n) in (d, omega (arith, e, m))

-- The queue is not the last of its port: the next one is of the same port.
pub next_queue : (k n : ℕ) → k % n + 1 < n → ((k + 1) / n ≡ k / n) × ((k + 1) % n ≡ k % n + 1)
next_queue k n h =
    quotient (k / n) (k % n + 1) n (k + 1) (let e = div-add-mod' k n in omega (arith, e)) h

-- The queue is the last of its port: the next one is the first of the next port.
pub next_port : (k n : ℕ) → k % n + 1 ≡ n → ((k + 1) / n ≡ k / n + 1) × ((k + 1) % n ≡ 0)
next_port k n h =
    quotient (k / n + 1) 0 n (k + 1)
      (let e = div-add-mod' k n in omega (arith, e, times_succ (k / n) n)) (omega arith)

pub port-lt : (k n ports : ℕ) → 0 < n → k < n * ports → k / n < ports
port-lt k n ports some h = (div-lt_iff_lt-mul some).1 (rw (mul_comm ports n) h)

-- The port that a port's packets are sent to, of `nb`.
abbrev pub peer : Topology → ℕ → ℕ → ℕ
peer Topology.paired nb p = if p % 2 == 0 then (if ltb (p + 1) nb then p + 1 else p) else p - 1
peer Topology.chained nb p = (p + 1) % nb
peer Topology.loop nb p = p

pub topology-peer :
    (t : Topology) (nb p : ℕ) → p < nb → fwd_topology_tx_port_get t nb p ≡ ok (peer t nb p)
unfolding fwd_topology_tx_port_get
topology-peer Topology.paired nb p h = ground arith
topology-peer Topology.chained nb p h = ground arith
topology-peer Topology.loop nb p h = refl

pub peer-lt : (t : Topology) (nb p : ℕ) → p < nb → peer t nb p < nb
peer-lt Topology.paired nb p h = ground arith
peer-lt Topology.chained nb p h = mod-lt (p + 1) (omega arith)
peer-lt Topology.loop nb p h = h

-- The stream from a queue of port `p` to the same queue of port `q`, ports at places of the list.
abbrev pub slot : Fwd → ℕ → ℕ → ℕ → Stream
slot s p q queue = record {
  rx_port = s.fwd_ports_ids p;
  rx_queue = queue;
  tx_port = s.fwd_ports_ids q;
  tx_queue = queue;
  peer_addr = s.fwd_ports_ids q;
  retry_enabled = s.retry_enabled;
}

pub stream_of-slot :
    (max : ℕ) (s : Fwd) (p q queue : ℕ)
    → p < max
    → q < max
    → stream_of max s p queue q queue ≡ ok (slot s p q queue)
unfolding stream_of
stream_of-slot max s p q queue h h' =
    rw (load-ok max s.fwd_ports_ids p h, load-ok max s.fwd_ports_ids q h') refl

-- If the ports have the queues, as many streams are there as ports times queues.
pub init_fwd_streams-eq :
    (max : ℕ) (ports : ℕ → PortLimits) (s : Fwd) (q : ℕ)
    → queues_fit max 0 ports s ≡ true
    → (if ltb s.nb_rxq s.nb_txq then s.nb_txq else s.nb_rxq) ≡ q
    → 0 < q
    → s.nb_ports * q < 2 ^ 16
    → (streams : ℕ → Stream) × (init_fwd_streams max ports s
        ≡ record s { nb_fwd_streams = s.nb_ports * q; fwd_streams = streams })
unfolding init_fwd_streams
init_fwd_streams-eq max ports s q fit e some small =
    let exact : (s.nb_ports * q) % 2 ^ 16 ≡ s.nb_ports * q = mod-eq_of_lt small in
    let some' = ne→== q 0 (λ x. absurd (omega (arith, x))) in
    elim (Bool-cases (s.nb_ports * q == s.nb_fwd_streams)) [
      | inl x ↦
          let same : s.nb_ports * q ≡ s.nb_fwd_streams = ground (arith, x) in
          (
            s.fwd_streams,
            rw (fit, e, some', exact, x) (ap (λ n. record s { nb_fwd_streams = n }) (sym same)),
          )
      | inr x ↦ (λ k. zeroed, rw (fit, e, some', exact, x) refl)
    ]
