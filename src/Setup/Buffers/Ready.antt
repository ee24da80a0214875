-- ===== src/Setup/Buffers/Ready.antt =====
-- The rings and the counters of the context after `init_buffers`.
use platform.Common.{ℕ, zero, suc, ◌+◌, ◌%◌, ◌^◌, ◌≤◌, ◌<◌, ◌≡◌, refl, ◌∙◌, ap, arith}
use platform.Common.{List, [], some, ok, inl, inr, eq-cases, update, load-ok}
use mathlib.Core.Path.{subst}
use platform.Device.{Context}
use platform.Setup.Buffers.{RingName, RingLibrary, Buffers, zero_queues, zero_port_queues}
use platform.Setup.Buffers.{zero_packets, init_buffers}
use platform.Setup.Buffers.Steps.{put_at, put_at-keeps, put_at_self, store_in-ok}
use platform.Setup.Buffers.Made.{Unused, IsMade, init_port_rings-Ports}
use platform.Choice.Cores.Queues.{InOrder}

module _ {Ring : Type 0} (lib : RingLibrary Ring) where
  abbrev with_queues : (ℕ → ℕ → ℕ) → Buffers lib → Buffers lib
  with_queues queues b = record b { rx_queue = queues }

  zero_queues-eq :
      (n t i : ℕ) (b : Buffers lib)
      → t < 16
      → i + n ≤ 16
      → (queues : ℕ → ℕ → ℕ) × (zero_queues lib n t i b ≡ ok (with_queues queues b))
        × ((p q : ℕ) → b.rx_queue p q ≡ 0 → queues p q ≡ 0)
        × ((q : ℕ) → i ≤ q → q < i + n → queues t q ≡ 0)
  unfolding zero_queues
  zero_queues-eq zero t i b h few =
      (b.rx_queue, refl, (λ p q e. e), (λ q lo hi. absurd (omega arith)))
  zero_queues-eq (suc n) t i b h few =
      let (queues, e, keeps, clears) =
        zero_queues-eq n t (i + 1) (with_queues (put_at b.rx_queue t i 0) b) h (omega arith) in
      (
        queues,
        rw (store_in-ok 16 16 b.rx_queue t i 0 h (omega arith)) e,
        (λ p q x. keeps p q (put_at-keeps (λ v. v ≡ 0) b.rx_queue p q t i 0 refl x)),
        (λ q lo hi. elim (eq-cases q i) [
          | inl x ↦ rw x (keeps t i (put_at_self (λ v. v ≡ 0) b.rx_queue t i 0 refl))
          | inr ne ↦ clears q (omega (arith, ne)) (omega arith)
        ]),
      )

  abbrev with_packets : (ℕ → ℕ) → Buffers lib → Buffers lib
  with_packets packets b = record b { packet_num = packets }

  zero_packets-eq :
      (n i : ℕ) (b : Buffers lib)
      → (packets : ℕ → ℕ) × (zero_packets lib n i b ≡ with_packets packets b)
        × ((k : ℕ) → b.packet_num k ≡ 0 → packets k ≡ 0)
        × ((k : ℕ) → i ≤ k → k < i + n → packets k ≡ 0)
  unfolding zero_packets
  zero_packets-eq zero i b = (b.packet_num, refl, (λ k e. e), (λ k lo hi. absurd (omega arith)))
  zero_packets-eq (suc n) i b =
      let (packets, e, keeps, clears) =
        zero_packets-eq n (i + 1) (with_packets (update b.packet_num i 0) b) in
      (
        packets,
        e,
        (λ k x. keeps k (ground arith)),
        (λ k lo hi. elim (eq-cases k i) [
          | inl x ↦ keeps k (ground (arith, x))
          | inr ne ↦ clears k (omega (arith, ne)) (omega arith)
        ]),
      )

  module _ (ctx : Context) (o : InOrder ctx)
      (few_queues : (p : ℕ) → p < ctx.port_num → ctx.port_queuenum p ≤ 16) where
    queues-step :
        (n p : ℕ) (b : Buffers lib) (queues : ℕ → ℕ → ℕ)
        → p < ctx.port_num
        → zero_queues lib (ctx.port_queuenum p) p 0 b ≡ ok (with_queues queues b)
        → zero_port_queues lib (suc n) p ctx b
          ≡ zero_port_queues lib n (p + 1) ctx (with_queues queues b)
    unfolding zero_port_queues
    queues-step n p b queues h e =
        let below : p < 16 = omega (arith, o.few) in
        let entry : ctx.port_list p % 2 ^ 8 ≡ p = let l = o.in_order p h in omega (arith, l) in
        rw (load-ok 16 ctx.port_list p below, entry, load-ok 16 ctx.port_queuenum p below, e) refl

    zero_port_queues-eq :
        (n p : ℕ) (b : Buffers lib)
        → p + n ≡ ctx.port_num
        → ((i q : ℕ) → i < p → q < ctx.port_queuenum i → b.rx_queue i q ≡ 0)
        → (queues : ℕ → ℕ → ℕ) × (zero_port_queues lib n p ctx b ≡ ok (with_queues queues b))
          × ((i q : ℕ) → i < ctx.port_num → q < ctx.port_queuenum i → queues i q ≡ 0)
    unfolding zero_port_queues
    zero_port_queues-eq zero p b e done =
        (b.rx_queue, refl, (λ i q h h'. done i q (omega (arith, e)) h'))
    zero_port_queues-eq (suc n) p b e done =
        let lt : p < ctx.port_num = omega (arith, e) in
        let fits : 0 + ctx.port_queuenum p ≤ 16 = let f = few_queues p lt in omega (arith, f) in
        let (queues, run, keeps, clears) =
          zero_queues-eq (ctx.port_queuenum p) p 0 b (omega (arith, o.few)) fits in
        let (queues', run', all) =
          zero_port_queues-eq n (p + 1) (with_queues queues b) (omega (arith, e)) (λ i q h h'.
            elim (eq-cases i p) [
              | inl x ↦
                  let below : q < ctx.port_queuenum p = subst (λ z. q < ctx.port_queuenum z) x h' in
                  rw x (clears q (omega arith) (omega arith))
              | inr ne ↦ keeps i q (done i q (omega (arith, ne)) h')
            ]) in
        (queues', queues-step n p b queues lt run ∙ run', all)

  module _
      (creates : (made : List RingName) (name : RingName)
        → Unused made name
        → (r : Ring) × (lib.create made name ≡ some r))
      (ctx : Context) where
    -- What stands of the rings and counters of the ports.
    pub record HasBuffers (b : Buffers lib) : Type 0 where
      pub rings : (p r : ℕ) → p < ctx.port_num → r < ctx.port_ringnum p → IsMade lib creates b p r
      pub queues : (p q : ℕ) → p < ctx.port_num → q < ctx.port_queuenum p → b.rx_queue p q ≡ 0
      pub sizes : (p : ℕ) → p < ctx.port_num → b.rxsize p ≡ 0
      pub packets : (k : ℕ) → k < 64 → b.packet_num k ≡ 0
      pub sleeps : (b.sleep_num ≡ 0) × (b.no_sleep_num ≡ 0)

    with_queues-IsMade :
        (queues : ℕ → ℕ → ℕ) (b : Buffers lib) (i j : ℕ)
        → IsMade lib creates b i j
        → IsMade lib creates (with_queues queues b) i j
    with_queues-IsMade queues b i j m = record {
      to_send = m.to_send;
      received = m.received;
      before = m.before;
      after = m.after;
      dequeued = m.dequeued;
    }

    -- Where the ports are listed in order, each has at most 16 rings and 16 queues, no ring has been
    -- made, and the library makes one for each name that is not used, the loops of dpdk_init return,
    -- each ring of each port then stands in both tables with its counters 0, and so are the counters
    -- of the queues, of the ports, of the bursts and of the sleeps.
    pub init_buffers-HasBuffers :
        InOrder ctx
        → ((p : ℕ) → p < ctx.port_num → ctx.port_ringnum p ≤ 16)
        → ((p : ℕ) → p < ctx.port_num → ctx.port_queuenum p ≤ 16)
        → (b : Buffers lib) → b.made ≡ []
        → (b' : Buffers lib) × (init_buffers lib ctx b ≡ ok b') × HasBuffers b'
    unfolding init_buffers
    init_buffers-HasBuffers o few_rings few_queues b none =
        let awake = record b { sleep_num = 0; no_sleep_num = 0 } in
        let (packets, e, _, zeros) = zero_packets-eq 64 0 awake in
        let (b1, run, made) =
          init_port_rings-Ports lib creates ctx o few_rings (with_packets packets awake) none in
        let (queues, run', cleared) =
          zero_port_queues-eq ctx o few_queues ctx.port_num 0 b1 (omega arith)
            (λ i q h. absurd (omega arith)) in
        (
          with_queues queues b1,
          rw (e, run) run',
          record {
            rings = λ p r h h'. with_queues-IsMade queues b1 p r (made.rings p r h h');
            queues = cleared;
            sizes = made.sizes;
            packets = λ k h. ap (λ a. a k) made.same.packets ∙ zeros k (omega arith) (omega arith);
            sleeps = made.same.sleeps;
          },
        )
