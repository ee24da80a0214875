-- ===== src/Capture/Rx/Deliver.antt =====
-- What a burst leaves in the rings, and what a thread takes from its ring.
use Prim.Native.Nat.{min}
use platform.Common.{
  ℕ, suc, ◌+◌, ◌%◌, ◌^◌, ◌≤◌, ◌<◌, ◌≡◌, refl, ◌∙◌, sym, ap, List, [], ◌∷◌, ◌++◌, arith,
}
use platform.Common.{Outcome, ok, exited, fault, length, ◌==◌, if◌then◌else◌, ◌≢◌, inl, inr}
use platform.Common.{
  eq-cases, eq→==, ne→==, load-ok, false, Bool, Bool-cases, length-append, append_nil, append_assoc,
}
use platform.Device.{Context}
use platform.Capture.Ring.{RteRing}
use platform.Capture.Classify.{Packet, ring_of, ring_of-lt}
use platform.Capture.Rx.{Counters, bump, put_ring, rx_packets, master_rx}
use platform.Capture.Rx.Counts.{received, rx_packet-eq, count-ok}

abbrev chosen : Outcome ℕ → ℕ → Bool
chosen (ok x) r = x == r
chosen exited r = false
chosen fault r = false

-- The packets of a burst whose ring is `r`, in their order.
abbrev pub for_ring : ℕ → ℕ → List Packet → List Packet
for_ring ring_num r [] = []
for_ring ring_num r (p ∷ ps) =
    let rest = for_ring ring_num r ps in if chosen (ring_of ring_num p) r then p ∷ rest else rest

for_ring-cons :
    (n r : ℕ) (p : Packet) (ps : List Packet)
    → for_ring n r (p ∷ ps) ≡ for_ring n r (p ∷ []) ++ for_ring n r ps
for_ring-cons n r p ps = elim (Bool-cases (chosen (ring_of n p) r)) [
  | inl e ↦ rw e refl
  | inr e ↦ rw e refl
]

for_ring_self : (n r : ℕ) (p : Packet) → ring_of n p ≡ ok r → for_ring n r (p ∷ []) ≡ p ∷ []
for_ring_self n r p e = rw (e, eq→== r r refl) refl

for_ring_other : (n r s : ℕ) (p : Packet) → ring_of n p ≡ ok r → r ≢ s → for_ring n s (p ∷ []) ≡ []
for_ring_other n r s p e ne = rw (e, ne→== r s ne) refl

bump_self : (a : ℕ → ℕ → ℕ) (i j n : ℕ) → bump a i j n i j ≡ (a i j + n) % 2 ^ 64
bump_self a i j n = rw (eq→== i i refl, eq→== j j refl) refl

bump_other : (a : ℕ → ℕ → ℕ) (i j n k : ℕ) → j ≢ k → bump a i j n i k ≡ a i k
bump_other a i j n k ne = rw (eq→== i i refl, ne→== k j (λ e. ne (sym e))) refl

module _ (rte : RteRing Packet) where
  open rte use {Ring, contents, size, enqueue, dequeue_burst}

  -- What lies between the counters and rings before and after the packets `ps` of one port.
  pub record Delivered (port ring_num : ℕ) (ps : List Packet) (c c' : Counters rte) : Type 0 where
    pub in_rings :
        (r : ℕ) → contents (c'.rxring port r) ≡ contents (c.rxring port r) ++ for_ring ring_num r ps
    pub counted_before :
        (r : ℕ)
        → c'.before_enqueue port r % 2 ^ 64
          ≡ (c.before_enqueue port r + length (for_ring ring_num r ps)) % 2 ^ 64
    pub counted_after :
        (r : ℕ)
        → c'.after_enqueue port r % 2 ^ 64
          ≡ (c.after_enqueue port r + length (for_ring ring_num r ps)) % 2 ^ 64
    pub elsewhere : (i r : ℕ) → i ≢ port → contents (c'.rxring i r) ≡ contents (c.rxring i r)

  abbrev pub HasRoom : ℕ → ℕ → ℕ → Counters rte → Type 0
  HasRoom port ring_num n c =
      (r : ℕ) → r < ring_num → length (contents (c.rxring port r)) + n ≤ size (c.rxring port r)

  one :
      (port ring_num r : ℕ) (p : Packet) (c : Counters rte)
      → ring_of ring_num p ≡ ok r
      → length (contents (c.rxring port r)) < size (c.rxring port r)
      → Delivered port ring_num (p ∷ []) c (received rte port r p c)
  one port ring_num r p c e room = record {
    in_rings = λ s. elim (eq-cases r s) [
      | inl x ↦
          let k = eq→== s r (sym x) in
          rw (eq→== port port refl, k, x, for_ring_self ring_num s p (e ∙ ap ok x))
            (rte.enqueue-room (c.rxring port s) p (rw (sym x) room))
      | inr ne ↦
          rw (eq→== port port refl, ne→== s r (λ x. ne (sym x)), for_ring_other ring_num r s p e ne)
            (sym (append_nil (contents (c.rxring port s))))
    ];
    counted_before = λ s. elim (eq-cases r s) [
      | inl x ↦
          rw (sym x, for_ring_self ring_num r p e, bump_self c.before_enqueue port r 1)
            (omega arith)
      | inr ne ↦
          rw (for_ring_other ring_num r s p e ne, bump_other c.before_enqueue port r 1 s ne)
            (omega arith)
    ];
    counted_after = λ s. elim (eq-cases r s) [
      | inl x ↦
          rw (sym x, for_ring_self ring_num r p e, bump_self c.after_enqueue port r 1) (omega arith)
      | inr ne ↦
          rw (for_ring_other ring_num r s p e ne, bump_other c.after_enqueue port r 1 s ne)
            (omega arith)
    ];
    elsewhere = λ i s ne. rw (ne→== i port ne) refl;
  }

  both :
      (port ring_num : ℕ) (p : Packet) (ps : List Packet) (c c' c'' : Counters rte)
      → Delivered port ring_num (p ∷ []) c c'
      → Delivered port ring_num ps c' c''
      → Delivered port ring_num (p ∷ ps) c c''
  both port ring_num p ps c c' c'' x y = record {
    in_rings = λ r.
        y.in_rings r
        ∙ ap (λ l. l ++ for_ring ring_num r ps) (x.in_rings r)
        ∙ append_assoc (contents (c.rxring port r)) (for_ring ring_num r (p ∷ []))
            (for_ring ring_num r ps)
        ∙ ap (λ l. contents (c.rxring port r) ++ l) (sym (for_ring-cons ring_num r p ps));
    counted_before = λ r.
        rw
          (
            for_ring-cons ring_num r p ps,
            length-append (for_ring ring_num r (p ∷ [])) (for_ring ring_num r ps),
          )
          (let h = x.counted_before r in let k = y.counted_before r in omega (arith, h, k));
    counted_after = λ r.
        rw
          (
            for_ring-cons ring_num r p ps,
            length-append (for_ring ring_num r (p ∷ [])) (for_ring ring_num r ps),
          )
          (let h = x.counted_after r in let k = y.counted_after r in omega (arith, h, k));
    elsewhere = λ i r ne. y.elsewhere i r ne ∙ x.elsewhere i r ne;
  }

  room_left :
      (port ring_num r n : ℕ) (p : Packet) (c : Counters rte)
      → ring_of ring_num p ≡ ok r
      → r < ring_num
      → HasRoom port ring_num (suc n) c
      → HasRoom port ring_num n (received rte port r p c)
  room_left port ring_num r n p c e lt room = λ s bound. elim (eq-cases r s) [
    | inl x ↦
        let k = eq→== s r (sym x) in
        let h = room s bound in
        rw
          (
            eq→== port port refl,
            k,
            x,
            rte.enqueue-room (c.rxring port s) p (omega (arith, h)),
            rte.size-enqueue (c.rxring port s) p,
            length-append (contents (c.rxring port s)) (p ∷ []),
          )
          (omega (arith, h))
    | inr ne ↦
        rw (eq→== port port refl, ne→== s r (λ x. ne (sym x)))
          (let h = room s bound in omega (arith, h))
  ]

  -- With 1 to 16 rings, each with room for the whole burst, the burst of a port is handled
  -- without fault: each ring then holds what it held and behind it, in their order, the packets
  -- chosen for it, the counters before and after the ring have grown by their number modulo 2 to
  -- the 64, and the rings of other ports are as before.
  pub burst_delivered :
      (port ring_num : ℕ) (bufs : List Packet) (c : Counters rte)
      → port < 16
      → 0 < ring_num
      → ring_num ≤ 16
      → HasRoom port ring_num (length bufs) c
      → (c' : Counters rte) × (rx_packets rte port ring_num bufs c ≡ ok c')
        × Delivered port ring_num bufs c c'
  unfolding rx_packets
  burst_delivered port ring_num [] c p some_ring few room = (
    c,
    refl,
    record {
      in_rings = λ r. sym (append_nil (contents (c.rxring port r)));
      counted_before = λ r. omega arith;
      counted_after = λ r. omega arith;
      elsewhere = λ i r ne. refl;
    },
  )
  burst_delivered port ring_num (pkt ∷ bufs) c p some_ring few room =
      let (r, lt, e) = ring_of-lt ring_num pkt some_ring in
      let c' = received rte port r pkt c in
      let (c'', e'', d) =
        burst_delivered port ring_num bufs c' p some_ring few
          (room_left port ring_num r (length bufs) pkt c e lt room) in
      (
        c'',
        (rw (rx_packet-eq rte port ring_num r pkt c p (omega arith) e) e''),
        both port ring_num pkt bufs c c' c''
            (one port ring_num r pkt c e (let h = room r lt in omega (arith, h))) d,
      )

  -- A thread below 80 whose port and ring are below 16 takes the oldest packets of that ring, as
  -- many as it asks for or all, leaves the rest in order, and counts them.
  thread_takes_oldest :
      (ctx : Context) (num thread_num port ring_id : ℕ) (c : Counters rte)
      → thread_num < 80
      → ctx.thread_portnum thread_num ≡ port
      → ctx.thread_ringnum thread_num ≡ ring_id
      → port < 16
      → ring_id < 16
      → (c' : Counters rte) × (bufs : List Packet) × (master_rx rte ctx num thread_num c
          ≡ ok (c', bufs))
        × (contents (c.rxring port ring_id) ≡ bufs ++ contents (c'.rxring port ring_id))
        × (length bufs ≡ min num (length (contents (c.rxring port ring_id))))
        × (c'.after_dequeue port ring_id ≡ (c.after_dequeue port ring_id + length bufs) % 2 ^ 64)
  unfolding master_rx
  thread_takes_oldest ctx num thread_num port ring_id c t e1 e2 p q =
      let r = c.rxring port ring_id in
      let n = length (dequeue_burst r num).1 in
      (
        record c {
          rxring = put_ring rte c.rxring port ring_id (dequeue_burst r num).0;
          after_dequeue = bump c.after_dequeue port ring_id n;
          after_ring = bump c.after_ring port ring_id n;
        },
        (dequeue_burst r num).1,
        rw
            (
              load-ok 80 ctx.thread_portnum thread_num t,
              load-ok 80 ctx.thread_ringnum thread_num t,
              e1,
              e2,
              count-ok 16 16 c.after_dequeue port ring_id n p q,
              count-ok 16 80 c.after_ring port ring_id n p (omega arith),
            )
            refl,
        rw (eq→== port port refl, eq→== ring_id ring_id refl) (rte.dequeue_burst-contents r num),
        rte.dequeue_burst-length r num,
        bump_self c.after_dequeue port ring_id n,
      )
