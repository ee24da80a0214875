-- ===== src/Setup/Init/Ready.antt =====
-- What stands when `dpdk_init` has returned, in thread mode 2 and queue mode 2.
use platform.Common.{ℕ, suc, ◌+◌, ◌-◌, ◌%◌, ◌^◌, ◌≤◌, ◌<◌, ◌≡◌, refl, ◌∙◌, sym, ap, ◌⊎◌, inl, inr}
use platform.Common.{arith, List, [], some, ok, true, false, ltb, sum_to, sum_to-le}
use platform.Common.Int.{pos, negsuc, ltb_ℤ, eqb_ℤ, unsigned}
use platform.Double.{Double}
use platform.PortTable.{Uthash}
use platform.Device.{Context}
use platform.Arguments.{Opt, parse_args}
use platform.Arguments.Accept.{Accepted, args-Accepted}
use platform.Choice.Rings.{int_weight}
use platform.Choice.Rings.Total.{IsReady, IsHeavy}
use platform.Choice.Cores.Layout.{sum_from}
use platform.Choice.Cores.Queues.{InOrder}
use platform.Choice.Init.{dofile, choice_init}
use platform.Choice.Init.Modes.{ModeTwo, mode_two}
use platform.Capture.Role.{Role, main_loop, ModeTwo-roles}
use platform.Setup.{list_ports, Shared, shard_init}
use platform.Setup.Listed.{ports_listed}
use platform.Setup.Fresh.{IsFresh, shard_init-IsFresh}
use platform.Setup.Drive.{Call, init_ports}
use platform.Setup.Drive.Trace.{ports_trace, init_ports-trace}
use platform.Setup.Buffers.{RingName, Buffers, init_buffers}
use platform.Setup.Buffers.Made.{Unused}
use platform.Setup.Buffers.Ready.{HasBuffers, init_buffers-HasBuffers}
use platform.Setup.Init.{Machine, Daq, Returned, prepared, zeroed_buffers, start_daq, accepted}
use platform.Setup.Init.{dpdk_init}

-- No port has more than the ports have together.
cell-le-sum : (n p : ℕ) (a : ℕ → ℕ) → p < n → a p ≤ sum_to n a
unfolding sum_to
cell-le-sum n p a h = omega (arith, sum_to-le (suc p) n a (omega arith))

module _ {d : Double} {u : Uthash d} {Ring : Type 0} (m : Machine d u Ring) (weights : u.Table)
    (opts : List Opt) (threads : ℕ) (ctx : Context) where
  -- The start of the process succeeds, the options are accepted, the configuration is read.
  pub record Starts : Type 0 where
    pub eal : ltb_ℤ m.eal_init (pos 0) ≡ false
    pub primary : m.is_primary ≡ true
    pub pool : m.has_pool ≡ true
    pub options : parse_args m.strto opts (prepared threads) ≡ ok (some ctx)
    pub opened : dofile d u m.file m.table ≡ ok weights
    pub thread_mode : ctx.thread_mode ≡ 2
    pub queue_mode : ctx.queue_mode ≡ 2

  -- There are ports, each with a weight in the table, and a ring for each; the last weight is above
  -- the number of rings.
  pub record HasPorts : Type 0 where
    pub some_port : 0 < m.dev_count
    pub enough : m.dev_count ≤ threads
    pub few : threads ≤ 16
    pub known :
        (p : ℕ) → p < m.dev_count → eqb_ℤ (int_weight d u weights m.link_speed p) (negsuc 0) ≡ false
    pub heavy :
        ltb threads (unsigned 32 (int_weight d u weights m.link_speed (m.dev_count - 1))) ≡ true

  abbrev Accepts : Type 0
  Accepts = (calls : List Call) (c : Call) → m.answer calls c ≡ pos 0

  abbrev Creates : Type 0
  Creates =
      (made : List RingName) (name : RingName)
      → Unused made name
      → (r : Ring) × (m.rings.create made name ≡ some r)

  module _ (s : Starts) (h : HasPorts) (accepts : Accepts) (creates : Creates) where
    -- The rings are shared out, the ports of the mask are started with as many queues as rings, the
    -- shared memory, the rings and the counters are ready, and each core has its loop.
    pub record Started (q : Daq m) : Type 0 where
      pub total : sum_to 16 q.context.port_ringnum ≡ threads
      pub queues : (p : ℕ) → p < m.dev_count → q.context.port_queuenum p ≡ q.context.port_ringnum p
      pub calls : q.calls ≡ ports_trace ctx.enabled_port_mask q.context.port_queuenum m.dev_count
      pub fresh : (p : ℕ) → p < m.dev_count → IsFresh q.context p q.st
      pub ready : HasBuffers m.rings creates q.context q.buffers
      pub range : (q.first_core ≡ ctx.start) × (q.last_core + 1 ≡ ctx.start + threads + m.dev_count)
      pub sending : (p : ℕ) → p < m.dev_count → q.role (ctx.start + p) ≡ Role.sends
      pub receiving :
          (p i : ℕ)
          → p < m.dev_count
          → i < q.context.port_ringnum p
          → q.role (ctx.start + m.dev_count + sum_from p 0 q.context.port_ringnum + i)
            ≡ Role.receives
      pub idle : (k : ℕ) → k < 256 → (k < q.first_core) ⊎ (q.last_core < k) → q.role k ≡ Role.idle

    from_options : Accepted m.strto (prepared threads) ctx
    from_options = args-Accepted m.strto opts (prepared threads) ctx s.options

    rings_same : ctx.ring_num ≡ threads
    rings_same =
        let small : threads % 2 ^ 32 ≡ threads = let f = h.few in omega (arith, f) in
        from_options.ports_same.1 ∙ small

    start_small : ctx.start < 80
    start_small = elim from_options.start_ok [ inl e ↦ omega (arith, e) | inr r ↦ omega (arith, r) ]

    -- The context after `list_ports`.
    abbrev listed : (ℕ → ℕ) → (ℕ → ℕ) → (ℕ → ℕ) → Context
    listed list rings queues = record ctx {
      nb_ports = m.dev_count;
      port_queuenum = queues;
      port_ringnum = rings;
      port_list = list;
      port_num = m.dev_count;
    }

    lists_ports :
        (list rings queues : ℕ → ℕ) × (list_ports m.dev_count 0
            (record ctx { nb_ports = m.dev_count })
          ≡ ok (listed list rings queues))
        × InOrder (listed list rings queues)
        × ((p : ℕ) → p < 16 → rings p ≡ 0)
    lists_ports =
        let (list, rings, queues, (e, o, none)) =
          ports_listed m.dev_count (record ctx { nb_ports = m.dev_count })
            (let f = h.few in let g = h.enough in omega (arith, f, g)) from_options.ports_same.0
            (λ j. (
              ap (λ a. a j) from_options.lists_same.0,
              ap (λ a. a j) from_options.lists_same.1,
              ap (λ a. a j) from_options.lists_same.2,
            )) in
        (list, rings, queues, e, o, (λ p b. (none p b).0))

    module _ (list rings queues : ℕ → ℕ) (o : InOrder (listed list rings queues))
        (none : (p : ℕ) → p < 16 → rings p ≡ 0) where
      listed-IsReady : IsReady d u weights m.link_speed (listed list rings queues)
      listed-IsReady = record {
        some_port = h.some_port;
        enough = let g = h.enough in omega (arith, rings_same, g);
        small = let f = h.few in omega (arith, rings_same, f);
        listed = record {
          fits = omega (arith, o.few);
          in_range = λ j b. let e = o.in_order j (omega arith) in omega (arith, e, o.few);
          known = λ j b. rw (o.in_order j (omega arith)) (h.known j (omega arith));
        };
        none_given = none;
      }

      listed-IsHeavy : IsHeavy d u weights m.link_speed (listed list rings queues)
      listed-IsHeavy =
          let last : list (m.dev_count - 1) ≡ m.dev_count - 1 =
            let g = h.some_port in o.in_order (m.dev_count - 1) (omega (arith, g)) in
          rw (rings_same, last) h.heavy

      start_daq-eq :
          (c : Context) (calls : List Call) (st : Shared) (b : Buffers m.rings)
          → choice_init d u m.link_speed m.dev_count m.file m.table (listed list rings queues)
            ≡ ok (c, weights)
          → init_ports m.answer m.dev_count c m.dev_count 0 [] ≡ ok calls
          → shard_init c m.shared ≡ ok st
          → init_buffers m.rings c (zeroed_buffers m.rings) ≡ ok b
          → start_daq m (listed list rings queues)
            ≡ ok (
                Returned.zero_with (record {
                  context = c;
                  calls = calls;
                  st = st;
                  buffers = b;
                  first_core = c.start;
                  last_core = c.end;
                  role = main_loop c;
                }))
      unfolding start_daq
      start_daq-eq c calls st b e e' e2 e3 = rw (e, e', e2, e3) refl

      few_rings : ctx.ring_num ≤ 80
      few_rings = let f = h.few in omega (arith, rings_same, f)

      abbrev Modes : Context → Type 0
      Modes c =
          ModeTwo d u m.link_speed m.file m.table weights (listed list rings queues) s.opened
            listed-IsReady listed-IsHeavy o s.queue_mode refl few_rings c

      daq-Started :
          (c : Context)
          → Modes c
          → (q : Daq m) × (start_daq m (listed list rings queues) ≡ ok (Returned.zero_with q))
            × Started q
      daq-Started c two =
          let n = m.dev_count in
          let f = h.few in
          let g = h.enough in
          let low = start_small in
          let same = rings_same in
          let total = two.total ∙ same in
          let (to_send, to_receive, no_loop) =
            ModeTwo-roles d u m.link_speed m.file m.table weights (listed list rings queues)
              s.opened listed-IsReady listed-IsHeavy o s.queue_mode refl few_rings c two
              (omega (arith, same, f, g, low)) in
          let ports = two.same_ports in
          let in_order : InOrder c = record {
            few = omega (arith, ports, o.few);
            in_order = λ j b. ap (λ a. a j) two.same_list ∙ o.in_order j (omega (arith, b, ports));
          } in
          let ring_count : (p : ℕ) → p < c.port_num → c.port_ringnum p ≤ 16 = λ p b.
            omega
              (arith, f, total, cell-le-sum 16 p c.port_ringnum (omega (arith, ports, o.few, b))) in
          let queue_count : (p : ℕ) → p < c.port_num → c.port_queuenum p ≤ 16 = λ p b.
            let x = two.queues p (omega (arith, b, ports)) in
            let y = ring_count p b in omega (arith, x, y) in
          let (st, e2, fresh) =
            shard_init-IsFresh c in_order (λ p b. let y = ring_count p b in omega (arith, y))
              (λ p b. let y = queue_count p b in omega (arith, y)) m.shared in
          let (b, e3, ready) =
            init_buffers-HasBuffers m.rings creates c in_order ring_count queue_count
              (zeroed_buffers m.rings) refl in
          let calls = ports_trace c.enabled_port_mask c.port_queuenum n in
          let start_same = two.same_start in
          let last = two.last in
          (
            record {
              context = c;
              calls = calls;
              st = st;
              buffers = b;
              first_core = c.start;
              last_core = c.end;
              role = main_loop c;
            },
            start_daq-eq c calls st b two.returns
                (init_ports-trace m.answer accepts n c (omega (arith, f, g))) e2 e3,
            record {
              total = total;
              queues = two.queues;
              calls = ap (λ k. ports_trace k c.port_queuenum n) two.same_mask;
              fresh = λ p b. fresh p (omega (arith, b, ports));
              ready = ready;
              range = (start_same, omega (arith, last, same));
              sending = to_send;
              receiving = to_receive;
              idle = λ k b out. no_loop k b (rw (sym start_same) out);
            },
          )

      modes : (c : Context) × Modes c
      modes =
          let f = h.few in
          let g = h.enough in
          mode_two d u m.link_speed m.file m.table weights (listed list rings queues) s.opened
            listed-IsReady listed-IsHeavy o s.queue_mode refl few_rings s.thread_mode
            (omega (arith, rings_same, f, g)) (omega (arith, rings_same, f, g, start_small))

    init-step :
        (list rings queues : ℕ → ℕ)
        → list_ports m.dev_count 0 (record ctx { nb_ports = m.dev_count })
          ≡ ok (listed list rings queues)
        → dpdk_init m opts threads ≡ start_daq m (listed list rings queues)
    unfolding dpdk_init accepted
    init-step list rings queues e = rw (s.eal, s.primary, s.options, s.pool, e) refl

    -- Let rte_eal_init succeed in the primary process, the options be accepted with thread mode 2
    -- and queue mode 2, the configuration be read and the pool of packets be made; let there be a
    -- port, not more ports than rings and at most 16 rings, each port with a weight in the table
    -- and the last weight above the number of rings; let the driver accept all calls, and a ring
    -- be made for each name that no ring has. Then dpdk_init returns 0. The ports share exactly
    -- Thread_num rings, each port has as many queues as rings, and just the ports of the mask are
    -- configured, set up and started, in their order; in the shared memory each port has its
    -- numbers of rings and queues, with their counters 0; each ring stands in both tables, and
    -- the counters of the context are 0 for each ring, queue and port; *Start and *End bound as
    -- many cores as there are rings and ports; each port has a core that sends, each ring of a
    -- port a core that receives, and a core outside the bounds does neither.
    pub dpdk_init-Started :
        (q : Daq m) × (dpdk_init m opts threads ≡ ok (Returned.zero_with q)) × Started q
    dpdk_init-Started =
        let (list, rings, queues, e, o, none) = lists_ports in
        let (c, two) = modes list rings queues o none in
        let (q, e', started) = daq-Started list rings queues o none c two in
        (q, init-step list rings queues e ∙ e', started)
