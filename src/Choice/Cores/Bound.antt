-- ===== src/Choice/Cores/Bound.antt =====
-- What `get_core_portnum` and `get_core_queuenum` bind to the cores.
use platform.Common.{ℕ, ◌+◌, ◌-◌, ◌*◌, ◌/◌, ◌%◌, ◌^◌, ◌≤◌, ◌<◌, ◌≡◌, ◌⊎◌}
use platform.Common.{ge→ltb, arith, ok, ltb, false}
use platform.Device.{Context}
use platform.Choice.Cores.{one_core_each, core_per_ring, get_core_portnum, get_core_queuenum}
use platform.Choice.Cores.{bind_core_length}
use platform.Choice.Cores.Layout.{one_core_each-Filled, sum_from, inside_zero}
use platform.Choice.Cores.Layout.{core_per_ring-Blocks, queues_of_ports-Blocks}

-- The two loops of mode 1, with their results.
mode_one-eq :
    (ctx : Context) (n : ℕ) (a b : ℕ → ℕ)
    → ctx.thread_mode ≡ 1
    → 0 < n
    → ctx.end + 1 ≡ ctx.start + 2 * n
    → ctx.end < 1024
    → one_core_each n ctx.start 0 ctx.core_portnum ≡ ok a
    → one_core_each n (ctx.start + n) 0 a ≡ ok b
    → get_core_portnum ctx ≡ ok (record ctx { core_portnum = b })
unfolding get_core_portnum
mode_one-eq ctx n a b mode some_port e h ea eb =
    let middle : ((ctx.start + ctx.end + 1) / 2) % 2 ^ 16 ≡ ctx.start + n = omega arith in
    let left : ctx.start + n - ctx.start ≡ n = omega arith in
    let right : ctx.end + 1 - (ctx.start + n) ≡ n = omega arith in
    simp (mode, middle, left, right, ea, eb)

-- In thread mode 1, with two cores for each of `n` ports from `start` to `end`, the first `n` cores
-- are bound to the ports in order, and so are the next `n`. No other core changes.
pub mode_one_cores :
    (ctx : Context) (n : ℕ)
    → ctx.thread_mode ≡ 1
    → 0 < n
    → ctx.end + 1 ≡ ctx.start + 2 * n
    → ctx.end < 1024
    → (cores : ℕ → ℕ) × (get_core_portnum ctx ≡ ok (record ctx { core_portnum = cores }))
      × ((p : ℕ) → p < n → (cores (ctx.start + p) ≡ p) × (cores (ctx.start + n + p) ≡ p))
      × ((c : ℕ) → (c < ctx.start) ⊎ (ctx.end < c) → cores c ≡ ctx.core_portnum c)
mode_one_cores ctx n mode some_port e h =
    let (a, ea, fa) = one_core_each-Filled n ctx.start 0 ctx.core_portnum (omega arith) in
    let (b, eb, fb) = one_core_each-Filled n (ctx.start + n) 0 a (omega arith) in
    (
      b,
      mode_one-eq ctx n a b mode some_port e h ea eb,
      (λ p q. (
        ground (arith, fb (ctx.start + p), fa (ctx.start + p)),
        ground (arith, fb (ctx.start + n + p)),
      )),
      (λ c out. ground (arith, fb c, fa c)),
    )

mode_two-eq :
    (ctx : Context) (n : ℕ) (a b : ℕ → ℕ)
    → ctx.thread_mode ≡ 2
    → ctx.nb_ports ≡ n
    → n ≤ 16
    → one_core_each n ctx.start 0 ctx.core_portnum ≡ ok a
    → core_per_ring n ctx.port_ringnum (ctx.start + n) 0 a ≡ ok b
    → get_core_portnum ctx ≡ ok (record ctx { core_portnum = b })
unfolding get_core_portnum
mode_two-eq ctx n a b mode same few ea eb =
    let e : n % 2 ^ 16 ≡ n = omega arith in simp (mode, same, e, ea, eb)

-- In thread mode 2 the first cores are bound to the ports in order, and behind them each port has a
-- core for each of its rings, port by port, if all these cores are below 1024 and there are at most
-- 16 ports. No other core changes.
pub mode_two_cores :
    (ctx : Context) (n : ℕ)
    → ctx.thread_mode ≡ 2
    → ctx.nb_ports ≡ n
    → n ≤ 16
    → ctx.start + n + sum_from n 0 ctx.port_ringnum ≤ 1024
    → (cores : ℕ → ℕ) × (get_core_portnum ctx ≡ ok (record ctx { core_portnum = cores }))
      × ((p : ℕ) → p < n → cores (ctx.start + p) ≡ p)
      × ((p r : ℕ)
          → p < n
          → r < ctx.port_ringnum p
          → cores (ctx.start + n + sum_from p 0 ctx.port_ringnum + r) ≡ p)
      × ((c : ℕ)
          → (c < ctx.start) ⊎ (ctx.start + n + sum_from n 0 ctx.port_ringnum ≤ c)
          → cores c ≡ ctx.core_portnum c)
mode_two_cores ctx n mode same few room =
    let (a, ea, fa) = one_core_each-Filled n ctx.start 0 ctx.core_portnum (omega arith) in
    let (b, eb, blocks) =
      core_per_ring-Blocks n ctx.port_ringnum (ctx.start + n) 0 a (omega arith) room in
    (
      b,
      mode_two-eq ctx n a b mode same few ea eb,
      (λ p q. ground (arith, blocks.below (ctx.start + p), fa (ctx.start + p))),
      inside_zero _ _ _ _ _ _ blocks,
      (λ c out. ground (arith, blocks.below c, blocks.above c, fa c)),
    )

-- The queues of the ports are numbered along the cores from `start` on, port by port, and every
-- other core keeps its number.
pub queue_cores :
    (ctx : Context)
    → ctx.port_num ≤ 16
    → ctx.start + sum_from ctx.port_num 0 ctx.port_queuenum ≤ 1024
    → (cores : ℕ → ℕ) × (get_core_queuenum ctx ≡ ok (record ctx { core_queuenum = cores }))
      × ((p q : ℕ)
          → p < ctx.port_num
          → q < ctx.port_queuenum p
          → cores (ctx.start + sum_from p 0 ctx.port_queuenum + q) ≡ q)
      × ((c : ℕ)
          → (c < ctx.start) ⊎ (ctx.start + sum_from ctx.port_num 0 ctx.port_queuenum ≤ c)
          → cores c ≡ ctx.core_queuenum c)
unfolding get_core_queuenum
queue_cores ctx few room =
    let (b, eb, blocks) =
      queues_of_ports-Blocks ctx.port_num ctx.port_queuenum ctx.start 0 ctx.core_queuenum
        (omega arith) room in
    (
      b,
      simp eb,
      inside_zero _ _ _ _ _ _ blocks,
      (λ c out. ground (arith, blocks.below c, blocks.above c)),
    )

-- The number of cores that `choice_init` sets aside.
pub bind_core_length-one :
    (n : ℕ) (ctx : Context) → ctx.thread_mode ≡ 1 → n ≤ 16 → bind_core_length n ctx ≡ ok (2 * n)
unfolding bind_core_length
bind_core_length-one n ctx mode few =
    let room : ltb 80 (2 * n) ≡ false = ge→ltb 80 (2 * n) (omega arith) in simp (mode, room)

pub bind_core_length-two :
    (n : ℕ) (ctx : Context)
    → ctx.thread_mode ≡ 2
    → ctx.ring_num + n ≤ 80
    → bind_core_length n ctx ≡ ok (ctx.ring_num + n)
unfolding bind_core_length
bind_core_length-two n ctx mode few =
    let room : ltb 80 (ctx.ring_num + n) ≡ false = ge→ltb 80 (ctx.ring_num + n) few in
    simp (mode, room)
