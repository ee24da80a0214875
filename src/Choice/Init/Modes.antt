-- ===== src/Choice/Init/Modes.antt =====
-- What `choice_init` leaves in the context in the two thread modes, with queue mode 2 and the rings
-- dealt out one by one.
use platform.Common.{ℕ, ◌+◌, ◌-◌, ◌*◌, ◌≤◌, ◌<◌, ◌≡◌, refl, ◌∙◌, Option, List}
use platform.Common.{arith, ok, sum_to, sum_to-le, sum_to_ext, inr}
use platform.Double.{Double}
use platform.PortTable.{Uthash, Item}
use platform.Device.{Context}
use platform.Choice.Rings.Total.{IsReady, IsHeavy, heavy_total}
use platform.Choice.Cores.Layout.{sum_from, sum_from-zero}
use platform.Choice.Cores.Bound.{mode_one_cores, mode_two_cores, queue_cores, bind_core_length-one}
use platform.Choice.Cores.Bound.{bind_core_length-two}
use platform.Choice.Cores.Assigned.{thread_rings}
use platform.Choice.Cores.Queues.{InOrder, ring_mode_queues}
use platform.Choice.Init.{dofile, choice_init}
use platform.Choice.Init.Works.{set_range-eq, choice_init-eq}

-- What the ports of a context hold when as many queues as rings are given.
sum_queues :
    (n : ℕ) (queues rings : ℕ → ℕ)
    → n ≤ 16
    → ((p : ℕ) → p < n → queues p ≡ rings p)
    → sum_from n 0 queues ≤ sum_to 16 rings
sum_queues n queues rings few same =
    omega (arith, sum_from-zero n queues, sum_to_ext n queues rings same, sum_to-le n 16 rings few)

sum_rings : (n : ℕ) (rings : ℕ → ℕ) → n ≤ 16 → sum_from n 0 rings ≤ sum_to 16 rings
sum_rings n rings few = omega (arith, sum_from-zero n rings, sum_to-le n 16 rings few)

module _ (d : Double) (u : Uthash d) (link_speed : ℕ → ℕ) (file : Option (Option (List (Item d))))
    (t table : u.Table) (ctx : Context) (opened : dofile d u file t ≡ ok table)
    (r : IsReady d u table link_speed ctx) (heavy : IsHeavy d u table link_speed ctx)
    (o : InOrder ctx) (mode : ctx.queue_mode ≡ 2) (all : ctx.nb_ports ≡ ctx.port_num)
    (few_rings : ctx.ring_num ≤ 80) where
  -- Let the configuration be read, the ports be listed in order, at most 16, each with a weight
  -- in the table and no ring yet, not more of them than rings, and the last weight above the
  -- number of rings; let there be at most 80 rings, queue mode 2 and nb_ports equal to port_num.
  -- In thread mode 1, with start plus two cores for each port and start plus one for each ring
  -- within 1024, choice_init returns: the ports share exactly ring_num rings, the range of cores
  -- ends behind two for each port, each port has as many queues as rings, and port p has the
  -- cores start + p and start + port_num + p.
  pub mode_one_works :
      ctx.thread_mode ≡ 1
      → ctx.start + 2 * ctx.port_num ≤ 1024
      → ctx.start + ctx.ring_num ≤ 1024
      → (c : Context) × (choice_init d u link_speed ctx.port_num file t ctx ≡ ok (c, table))
        × (sum_to 16 c.port_ringnum ≡ ctx.ring_num)
        × (c.end + 1 ≡ ctx.start + 2 * ctx.port_num)
        × ((p : ℕ)
            → p < ctx.port_num
            → (c.port_queuenum p ≡ c.port_ringnum p)
              × (c.core_portnum (ctx.start + p) ≡ p)
              × (c.core_portnum (ctx.start + ctx.port_num + p) ≡ p))
  mode_one_works one room room' =
      let n = ctx.port_num in
      let (rings, e1, total) = heavy_total d u table link_speed ctx r heavy in
      let c1 = record ctx { port_ringnum = rings } in
      let (queues, e2, same) =
        ring_mode_queues d u table link_speed c1 (record { few = o.few; in_order = o.in_order })
          mode in
      let c2 = record c1 { port_queuenum = queues } in
      let (ports, ring_ids, e3, _, _) =
        thread_rings c2 o.few (omega (arith, sum_rings n rings o.few, total)) in
      let c3 = record c2 { thread_portnum = ports; thread_ringnum = ring_ids } in
      let (old_ports, old_queues, e4, _) =
        set_range-eq n (2 * n) c3 (bind_core_length-one n c3 one o.few) (omega (arith, r.some_port))
          room in
      let c4 = record c3 {
        end = ctx.start + 2 * n - 1;
        core_portnum = old_ports;
        core_queuenum = old_queues;
      } in
      let (cores, e5, bound, _) =
        mode_one_cores c4 n one r.some_port (omega (arith, r.some_port))
          (omega (arith, r.some_port)) in
      let c5 = record c4 { core_portnum = cores } in
      let (core_queues, e6, _, _) =
        queue_cores c5 o.few (omega (arith, sum_queues n queues rings o.few same, total)) in
      (
        record c5 { core_queuenum = core_queues },
        choice_init-eq d u link_speed n file t table ctx c1 c2 c3 c4 c5
            (record c5 { core_queuenum = core_queues }) opened e1 e2 e3 e4 e5 e6,
        total,
        omega (arith, r.some_port),
        (λ p h. (same p h, (bound p h).0, (bound p h).1)),
      )

  -- What `choice_init` returns in thread mode 2.
  pub record ModeTwo (c : Context) : Type 0 where
    pub returns : choice_init d u link_speed ctx.port_num file t ctx ≡ ok (c, table)
    pub same_start : c.start ≡ ctx.start
    pub same_ports : c.port_num ≡ ctx.port_num
    pub same_list : c.port_list ≡ ctx.port_list
    pub same_mask : c.enabled_port_mask ≡ ctx.enabled_port_mask
    pub queues : (p : ℕ) → p < ctx.port_num → c.port_queuenum p ≡ c.port_ringnum p
    pub total : sum_to 16 c.port_ringnum ≡ ctx.ring_num
    pub last : c.end + 1 ≡ ctx.start + ctx.ring_num + ctx.port_num
    pub sending : (p : ℕ) → p < ctx.port_num → c.core_portnum (ctx.start + p) ≡ p
    pub receiving :
        (p i : ℕ)
        → p < ctx.port_num
        → i < c.port_ringnum p
        → c.core_portnum (ctx.start + ctx.port_num + sum_from p 0 c.port_ringnum + i) ≡ p
    pub idle :
        (k : ℕ)
        → ctx.start + ctx.ring_num ≤ k
        → k < ctx.start + ctx.ring_num + ctx.port_num
        → c.core_queuenum k ≡ 0

  pub mode_two :
      ctx.thread_mode ≡ 2
      → ctx.ring_num + ctx.port_num ≤ 80
      → ctx.start + (ctx.ring_num + ctx.port_num) ≤ 1024
      → (c : Context) × ModeTwo c
  mode_two two room room' =
      let n = ctx.port_num in
      let (rings, e1, total) = heavy_total d u table link_speed ctx r heavy in
      let c1 = record ctx { port_ringnum = rings } in
      let (queues, e2, same) =
        ring_mode_queues d u table link_speed c1 (record { few = o.few; in_order = o.in_order })
          mode in
      let c2 = record c1 { port_queuenum = queues } in
      let (ports, ring_ids, e3, _, _) =
        thread_rings c2 o.few (omega (arith, sum_rings n rings o.few, total)) in
      let c3 = record c2 { thread_portnum = ports; thread_ringnum = ring_ids } in
      let (old_ports, old_queues, e4, cleared) =
        set_range-eq n (ctx.ring_num + n) c3 (bind_core_length-two n c3 two room)
          (omega (arith, r.some_port)) room' in
      let c4 = record c3 {
        end = ctx.start + (ctx.ring_num + n) - 1;
        core_portnum = old_ports;
        core_queuenum = old_queues;
      } in
      let (cores, e5, sending, receiving, _) =
        mode_two_cores c4 n two all o.few (omega (arith, sum_rings n rings o.few, total)) in
      let c5 = record c4 { core_portnum = cores } in
      let (core_queues, e6, _, rest) =
        queue_cores c5 o.few (omega (arith, sum_queues n queues rings o.few same, total)) in
      (
        record c5 { core_queuenum = core_queues },
        record {
          returns =
              choice_init-eq d u link_speed n file t table ctx c1 c2 c3 c4 c5
                (record c5 { core_queuenum = core_queues }) opened e1 e2 e3 e4 e5 e6;
          same_start = refl;
          same_ports = refl;
          same_list = refl;
          same_mask = refl;
          queues = same;
          total = total;
          last = omega (arith, r.some_port);
          sending = sending;
          receiving = receiving;
          idle = λ k lo hi.
              rest k (inr (omega (arith, sum_queues n queues rings o.few same, total)))
              ∙ cleared k (omega arith) (omega arith);
        },
      )

  -- Let the configuration be read, the ports be listed in order, at most 16, each with a weight
  -- in the table and no ring yet, not more of them than rings, and the last weight above the
  -- number of rings; let there be at most 80 rings, queue mode 2 and nb_ports equal to port_num.
  -- In thread mode 2, with at most 80 rings and ports together and start and these within 1024,
  -- choice_init returns: the ports share exactly ring_num rings, the range has a core for each
  -- ring and port, port p has the core start + p, and behind these there is one core for each
  -- ring, port by port.
  pub mode_two_works :
      ctx.thread_mode ≡ 2
      → ctx.ring_num + ctx.port_num ≤ 80
      → ctx.start + (ctx.ring_num + ctx.port_num) ≤ 1024
      → (c : Context) × (choice_init d u link_speed ctx.port_num file t ctx ≡ ok (c, table))
        × (sum_to 16 c.port_ringnum ≡ ctx.ring_num)
        × (c.end + 1 ≡ ctx.start + ctx.ring_num + ctx.port_num)
        × ((p : ℕ) → p < ctx.port_num → c.core_portnum (ctx.start + p) ≡ p)
        × ((p i : ℕ)
            → p < ctx.port_num
            → i < c.port_ringnum p
            → c.core_portnum (ctx.start + ctx.port_num + sum_from p 0 c.port_ringnum + i) ≡ p)
  mode_two_works two room room' =
      let (c, m) = mode_two two room room' in
      (c, m.returns, m.total, m.last, m.sending, m.receiving)

  -- Let the configuration be read, the ports be listed in order, at most 16, each with a weight
  -- in the table and no ring yet, not more of them than rings, and the last weight above the
  -- number of rings; let there be at most 80 rings, queue mode 2 and nb_ports equal to port_num.
  -- In thread mode 2, with at most 80 rings and ports together and start and these within 1024,
  -- choice_init returns and leaves the last cores of the range, as many as there are ports, with
  -- queue 0.
  pub mode_two_queue_zero :
      ctx.thread_mode ≡ 2
      → ctx.ring_num + ctx.port_num ≤ 80
      → ctx.start + (ctx.ring_num + ctx.port_num) ≤ 1024
      → (c : Context) × (choice_init d u link_speed ctx.port_num file t ctx ≡ ok (c, table))
        × ((k : ℕ) → k ≤ c.end → c.end < k + ctx.port_num → c.core_queuenum k ≡ 0)
  mode_two_queue_zero two room room' =
      let (c, m) = mode_two two room room' in
      (c, m.returns, (λ k le lt. m.idle k (omega (arith, m.last)) (omega (arith, m.last))))
