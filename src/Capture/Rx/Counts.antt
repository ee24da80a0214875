-- ===== src/Capture/Rx/Counts.antt =====
-- What the counters of the receiving path say of the packets.
use platform.Common.{ℕ, ◌+◌, ◌%◌, ◌^◌, ◌≤◌, ◌<◌, ◌≡◌, refl, arith}
use platform.Common.{ok, fault, length}
use platform.Common.{lt→ltb, ge→ltb, ap}
use platform.Capture.Ring.{RteRing}
use platform.Capture.Classify.{Packet, ring_of}
use platform.Capture.Rx.{Counters, bump, count, put_ring, rx_packet}

pub count-ok :
    (rows columns : ℕ) (a : ℕ → ℕ → ℕ) (i j n : ℕ)
    → i < rows
    → j < columns
    → count rows columns a i j n ≡ ok (bump a i j n)
unfolding count
count-ok rows columns a i j n p q = rw (lt→ltb i rows p, lt→ltb j columns q) refl

count-fault :
    (rows columns : ℕ) (a : ℕ → ℕ → ℕ) (i j n : ℕ)
    → i < rows
    → columns ≤ j
    → count rows columns a i j n ≡ fault
unfolding count
count-fault rows columns a i j n p q = rw (lt→ltb i rows p, ge→ltb j columns q) refl

module _ (rte : RteRing Packet) where
  open rte use {Ring, contents, size, enqueue, dequeue_burst}

  abbrev pub received : ℕ → ℕ → Packet → Counters rte → Counters rte
  received port r pkt c = record c {
    before_enqueue = bump c.before_enqueue port r 1;
    before_ring = bump c.before_ring port r 1;
    rxring = put_ring rte c.rxring port r (enqueue (c.rxring port r) pkt);
    after_enqueue = bump c.after_enqueue port r 1;
    count_ring = bump c.count_ring port r 1;
  }

  pub rx_packet-eq :
      (port ring_num r : ℕ) (pkt : Packet) (c : Counters rte)
      → port < 16
      → r < 16
      → ring_of ring_num pkt ≡ ok r
      → rx_packet rte port ring_num pkt c ≡ ok (received port r pkt c)
  unfolding rx_packet
  rx_packet-eq port ring_num r pkt c p q e =
      rw
        (
          e,
          count-ok 16 16 c.before_enqueue port r 1 p q,
          count-ok 16 80 c.before_ring port r 1 p (omega arith),
          count-ok 16 16 c.after_enqueue port r 1 p q,
          count-ok 16 80 c.count_ring port r 1 p (omega arith),
        )
        refl

  -- For a port below 16 and a packet whose ring is below 16 and full, the body of the loop over a
  -- burst returns: every ring holds what it held, and the counters before and after the ring have
  -- grown by one all the same, modulo 2 to the 64.
  full_ring_counted :
      (port ring_num r : ℕ) (pkt : Packet) (c : Counters rte)
      → port < 16
      → r < 16
      → ring_of ring_num pkt ≡ ok r
      → size (c.rxring port r) ≤ length (contents (c.rxring port r))
      → (c' : Counters rte) × (rx_packet rte port ring_num pkt c ≡ ok c')
        × ((i j : ℕ) → contents (c'.rxring i j) ≡ contents (c.rxring i j))
        × (c'.before_enqueue port r ≡ (c.before_enqueue port r + 1) % 2 ^ 64)
        × (c'.after_enqueue port r ≡ (c.after_enqueue port r + 1) % 2 ^ 64)
  full_ring_counted port ring_num r pkt c p q e full = (
    received port r pkt c,
    rx_packet-eq port ring_num r pkt c p q e,
    (λ i j. ground (
      arith,
      rte.enqueue-full (c.rxring port r) pkt full,
      ap (λ x. contents (c.rxring x j)) {x = i} {y = port},
      ap (λ x. contents (c.rxring port x)) {x = j} {y = r},
    )),
    ground arith,
    ground arith,
  )

  -- For a port below 16, a packet for a ring with a number from 16 on is counted outside
  -- the row of the port in before_enqueue.
  ring_beyond_sixteen :
      (port ring_num r : ℕ) (pkt : Packet) (c : Counters rte)
      → port < 16
      → 16 ≤ r
      → ring_of ring_num pkt ≡ ok r
      → rx_packet rte port ring_num pkt c ≡ fault
  unfolding rx_packet
  ring_beyond_sixteen port ring_num r pkt c p q e =
      rw (e, count-fault 16 16 c.before_enqueue port r 1 p q) refl
