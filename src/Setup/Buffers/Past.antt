-- ===== src/Setup/Buffers/Past.antt =====
-- A port with more than 16 rings: the tables of counters have 16 columns, those of rings 80.
use platform.Common.{ℕ, zero, suc, ◌+◌, ◌%◌, ◌^◌, ◌≤◌, ◌<◌, ◌≡◌, ◌≢◌, refl, ◌∙◌, arith, inl, inr}
use platform.Common.{◌∷◌, ok, fault, ltb, Bool-cases, lt→ltb}
use platform.Common.{load-ok, eq-cases}
use platform.Device.{Context}
use platform.Setup.Buffers.{RingName, RingLibrary, Buffers, init_ring, init_rings}
use platform.Setup.Buffers.{init_port_rings, init_buffers, zero_packets}
use platform.Setup.Buffers.Steps.{store_in-ok, next_ring, ring-step, sized, port-step}
use platform.Choice.Cores.Queues.{InOrder}

module _ {Ring : Type 0} (lib : RingLibrary Ring) where
  ring-past : (n t : ℕ) (b : Buffers lib) → t < 16 → init_rings lib (suc n) t 16 b ≡ fault
  unfolding init_rings
  ring-past n t b h =
      let tx = RingName.temp_tx_ring t 16 in
      let rx = RingName.temp_rx_ring t 16 in
      rw
        (
          store_in-ok 16 80 b.txring t 16 (init_ring lib b.made tx).0 h (omega arith),
          store_in-ok 16 80 b.rxring t 16 (init_ring lib (tx ∷ b.made) rx).0 h (omega arith),
          lt→ltb t 16 h,
        )
        refl

  rings-past :
      (n t q : ℕ) (b : Buffers lib) → t < 16 → q ≤ 16 → 16 < q + n → init_rings lib n t q b ≡ fault
  rings-past zero t q b h le past = absurd (omega arith)
  rings-past (suc n) t q b h le past = elim (eq-cases q 16) [
    | inl e ↦ rw e (ring-past n t b h)
    | inr ne ↦
        ring-step lib n t q b h (omega (arith, ne))
        ∙ rings-past n t (q + 1) (next_ring lib t q b) h (omega (arith, ne)) (omega arith)
  ]

  rings-return :
      (n t q : ℕ) (b : Buffers lib)
      → t < 16
      → q + n ≤ 16
      → (b' : Buffers lib) × (init_rings lib n t q b ≡ ok b')
  unfolding init_rings
  rings-return zero t q b h le = (b, refl)
  rings-return (suc n) t q b h le =
      let (b', e) = rings-return n t (q + 1) (next_ring lib t q b) h (omega arith) in
      (b', ring-step lib n t q b h (omega arith) ∙ e)

  module _ (ctx : Context) (o : InOrder ctx) where
    port-past :
        (n p : ℕ) (b : Buffers lib)
        → p < ctx.port_num
        → 16 < ctx.port_ringnum p
        → init_port_rings lib (suc n) p ctx b ≡ fault
    unfolding init_port_rings
    port-past n p b h many =
        let below : p < 16 = omega (arith, o.few) in
        let entry : ctx.port_list p % 2 ^ 8 ≡ p = let l = o.in_order p h in omega (arith, l) in
        rw
          (
            load-ok 16 ctx.port_list p below,
            entry,
            load-ok 16 ctx.port_ringnum p below,
            rings-past (ctx.port_ringnum p) p 0 b below (omega arith) (omega arith),
          )
          refl

    ports-past :
        (n k p : ℕ) (b : Buffers lib)
        → k + n ≡ ctx.port_num
        → k ≤ p
        → p < ctx.port_num
        → 16 < ctx.port_ringnum p
        → init_port_rings lib n k ctx b ≡ fault
    ports-past zero k p b e le lt many = absurd (omega (arith, e))
    ports-past (suc n) k p b e le lt many = elim (Bool-cases (ltb 16 (ctx.port_ringnum k))) [
      | inl more ↦ port-past n k b (omega (arith, e)) (ground (arith, more))
      | inr few ↦
          let fits : 0 + ctx.port_ringnum k ≤ 16 = ground (arith, few) in
          let other : k ≢ p =
            λ x. let y : 16 < ctx.port_ringnum k = rw x many in omega (arith, y, fits) in
          let (b', run) = rings-return (ctx.port_ringnum k) k 0 b (omega (arith, o.few)) fits in
          port-step lib ctx o n k b b' (omega (arith, e)) run
          ∙ ports-past n (k + 1) p (sized lib k b') (omega (arith, e)) (omega (arith, other)) lt
              many
    ]

    -- If the ports are listed in order, at most 16, and one of them has more than 16 rings, the
    -- loops of dpdk_init over the rings write a counter outside the row of its port in a table.
    pub many_rings_fault :
        (p : ℕ) (b : Buffers lib)
        → p < ctx.port_num
        → 16 < ctx.port_ringnum p
        → init_buffers lib ctx b ≡ fault
    unfolding init_buffers
    many_rings_fault p b lt many =
        let awake = record b { sleep_num = 0; no_sleep_num = 0 } in
        rw
          (ports-past ctx.port_num 0 p (zero_packets lib 64 0 awake) (omega arith) (omega arith) lt
            many)
          refl
