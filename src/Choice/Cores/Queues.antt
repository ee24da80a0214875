-- ===== src/Choice/Cores/Queues.antt =====
-- What `get_port_queuenum` stores.
use platform.Common.{ℕ, zero, suc, ◌+◌, ◌%◌, ◌^◌, ◌≤◌, ◌<◌, ◌≡◌, refl, ap, ◌∙◌, ok}
use platform.Common.{arith, load-ok, store-ok, update, if◌then◌else◌, false, ltb, leb, ◌&&◌}
use platform.Common.Int.{pos, negsuc, unsigned, eqb_ℤ}
use platform.Double.{Double}
use platform.PortTable.{Uthash, find_queue}
use platform.Device.{Context}
use platform.Choice.Rings.{get_port_speed}
use platform.Choice.Cores.{table_queues, ring_queues, get_port_queuenum}

-- The ports are listed in order, as `dpdk_init` lists them, and fit the arrays.
pub record InOrder (ctx : Context) : Type 0 where
  pub few : ctx.port_num ≤ 16
  pub in_order : (j : ℕ) → j < ctx.port_num → ctx.port_list j ≡ j

module _ (d : Double) (u : Uthash d) (table : u.Table) (link_speed : ℕ → ℕ) (ctx : Context)
    (o : InOrder ctx) where
  -- What the table says of a port's speed cut to 16 bits, as a `uint16_t`.
  abbrev pub queues_for : ℕ → ℕ
  queues_for t = unsigned 16 (find_queue d u table (pos (get_port_speed link_speed t % 2 ^ 16)))

  -- A value of an unsigned type is never -1 as an `int`.
  never_minus_one : (v : ℕ) → eqb_ℤ (pos v) (negsuc 0) ≡ false
  never_minus_one v = ground arith

  table_queues-eq :
      (n i : ℕ) (queues : ℕ → ℕ)
      → i + n ≤ ctx.port_num
      → (b : ℕ → ℕ) × (table_queues d u table link_speed n ctx i queues ≡ ok b)
        × ((p : ℕ) → b p ≡ (if leb i p && ltb p (i + n) then queues_for p else queues p))
  unfolding table_queues
  table_queues-eq zero i queues h = (queues, refl, λ p. ground arith)
  table_queues-eq (suc n) i queues h =
      let (b, e, f) = table_queues-eq n (i + 1) (update queues i (queues_for i)) (omega arith) in
      let listed : ctx.port_list i ≡ i = o.in_order i (omega arith) in
      let same : i % 2 ^ 8 ≡ i = omega (arith, o.few) in
      (
        b,
        rw
            (
              load-ok 16 ctx.port_list i (omega (arith, o.few)),
              listed,
              same,
              store-ok 16 queues i (queues_for i) (omega (arith, o.few)),
              never_minus_one (queues_for i),
            )
            e,
        (λ p. ground (arith, f p)),
      )

  ring_queues-eq :
      (n i : ℕ) (queues : ℕ → ℕ)
      → i + n ≤ ctx.port_num
      → (b : ℕ → ℕ) × (ring_queues d u table link_speed n ctx i queues ≡ ok b)
        × ((p : ℕ) → b p ≡ (if leb i p && ltb p (i + n) then ctx.port_ringnum p else queues p))
  unfolding ring_queues
  ring_queues-eq zero i queues h = (queues, refl, λ p. ground arith)
  ring_queues-eq (suc n) i queues h =
      let (b, e, f) =
        ring_queues-eq n (i + 1) (update queues i (ctx.port_ringnum i)) (omega arith) in
      let listed : ctx.port_list i ≡ i = o.in_order i (omega arith) in
      let same : i % 2 ^ 8 ≡ i = omega (arith, o.few) in
      (
        b,
        rw
            (
              load-ok 16 ctx.port_list i (omega (arith, o.few)),
              listed,
              same,
              load-ok 16 ctx.port_ringnum i (omega (arith, o.few)),
              store-ok 16 queues i (ctx.port_ringnum i) (omega (arith, o.few)),
            )
            e,
        (λ p. ground (arith, f p)),
      )

  -- In queue mode 1, with the ports listed in order and at most 16, get_port_queuenum returns:
  -- each port has the queues that the table gives for its speed cut to 16 bits, and 65535 queues
  -- where the table has no such speed.
  pub unknown_speed_queues :
      ctx.queue_mode ≡ 1
      → (queues : ℕ → ℕ) × (get_port_queuenum d u table link_speed ctx
          ≡ ok (record ctx { port_queuenum = queues }))
        × ((p : ℕ) → p < ctx.port_num → queues p ≡ queues_for p)
        × ((p : ℕ)
            → p < ctx.port_num
            → find_queue d u table (pos (get_port_speed link_speed p % 2 ^ 16)) ≡ negsuc 0
            → queues p ≡ 65535)
  unfolding get_port_queuenum
  unknown_speed_queues mode =
      let (b, e, f) = table_queues-eq ctx.port_num 0 ctx.port_queuenum (omega arith) in
      let known : (p : ℕ) → p < ctx.port_num → b p ≡ queues_for p = λ p h. ground (arith, f p) in
      (b, simp (mode, e), known, (λ p h unknown. known p h ∙ ap (λ z. unsigned 16 z) unknown))

  -- In queue mode 2 each port has as many queues as rings.
  pub ring_mode_queues :
      ctx.queue_mode ≡ 2
      → (queues : ℕ → ℕ) × (get_port_queuenum d u table link_speed ctx
          ≡ ok (record ctx { port_queuenum = queues }))
        × ((p : ℕ) → p < ctx.port_num → queues p ≡ ctx.port_ringnum p)
  unfolding get_port_queuenum
  ring_mode_queues mode =
      let (b, e, f) = ring_queues-eq ctx.port_num 0 ctx.port_queuenum (omega arith) in
      (b, simp (mode, e), (λ p h. ground (arith, f p)))
