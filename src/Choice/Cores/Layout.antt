-- ===== src/Choice/Cores/Layout.antt =====
-- What the loops of `get_core_portnum` and `get_core_queuenum` write, core by core.
use platform.Common.{ℕ, zero, suc, ◌+◌, ◌-◌, ◌%◌, ◌^◌, ◌≤◌, ◌<◌, ◌≡◌, refl}
use platform.Common.{arith, ok, load-ok, store-ok, update, ltb, leb, ◌&&◌, sum_to}
use platform.Common.{if◌then◌else◌}
use platform.Choice.Cores.{one_core_each, cores_of_port, core_per_ring}
use platform.Choice.Cores.{one_core_per_queue, queues_of_ports}

-- `b` has `f` on the `n` cells from `lo` on, by their distance from `lo`, and is `a` elsewhere.
abbrev pub Filled : ℕ → ℕ → (ℕ → ℕ) → (ℕ → ℕ) → (ℕ → ℕ) → Type 0
Filled lo n f a b = (c : ℕ) → b c ≡ (if leb lo c && ltb c (lo + n) then f (c - lo) else a c)

pub one_core_each-Filled :
    (n core port : ℕ) (a : ℕ → ℕ)
    → core + n ≤ 1024
    → (b : ℕ → ℕ) × (one_core_each n core port a ≡ ok b)
      × Filled core n (λ k. (port + k) % 2 ^ 16) a b
unfolding one_core_each
one_core_each-Filled zero core port a room = (a, refl, λ c. ground arith)
one_core_each-Filled (suc n) core port a room =
    let (b, e, f) =
      one_core_each-Filled n (core + 1) (port + 1) (update a core (port % 2 ^ 16)) (omega arith) in
    (b, rw (store-ok 1024 a core (port % 2 ^ 16) (omega arith)) e, λ c. ground (arith, f c))

cores_of_port-Filled :
    (n core port : ℕ) (a : ℕ → ℕ)
    → core + n ≤ 1024
    → (b : ℕ → ℕ) × (cores_of_port n core port a ≡ ok b) × Filled core n (λ k. port) a b
unfolding cores_of_port
cores_of_port-Filled zero core port a room = (a, refl, λ c. ground arith)
cores_of_port-Filled (suc n) core port a room =
    let (b, e, f) = cores_of_port-Filled n (core + 1) port (update a core port) (omega arith) in
    (b, rw (store-ok 1024 a core port (omega arith)) e, λ c. ground (arith, f c))

one_core_per_queue-Filled :
    (n core queue : ℕ) (a : ℕ → ℕ)
    → core + n ≤ 1024
    → (b : ℕ → ℕ) × (one_core_per_queue n core queue a ≡ ok b) × Filled core n (λ k. queue + k) a b
unfolding one_core_per_queue
one_core_per_queue-Filled zero core queue a room = (a, refl, λ c. ground arith)
one_core_per_queue-Filled (suc n) core queue a room =
    let (b, e, f) =
      one_core_per_queue-Filled n (core + 1) (queue + 1) (update a core queue) (omega arith) in
    (b, rw (store-ok 1024 a core queue (omega arith)) e, λ c. ground (arith, f c))

-- The sum of `n` cells from `i` on.
unfoldable pub sum_from : ℕ → ℕ → (ℕ → ℕ) → ℕ
sum_from zero i a = 0
sum_from (suc n) i a = a i + sum_from n (i + 1) a

sum_from-last : (n i : ℕ) (a : ℕ → ℕ) → sum_from (suc n) i a ≡ sum_from n i a + a (i + n)
unfolding sum_from
sum_from-last zero i a = let e : i + 0 ≡ i = omega arith in rw e (omega arith)
sum_from-last (suc n) i a =
    let e : i + suc n ≡ i + 1 + n = omega arith in rw e (omega (arith, sum_from-last n (i + 1) a))

-- From cell 0 on it is the sum of the first cells.
pub sum_from-zero : (n : ℕ) (a : ℕ → ℕ) → sum_from n 0 a ≡ sum_to n a
unfolding sum_to
sum_from-zero zero a = unfold sum_from in refl
sum_from-zero (suc n) a =
    let e : 0 + n ≡ n = omega arith in
    let last : sum_from (suc n) 0 a ≡ sum_from n 0 a + a n = rw e at (sum_from-last n 0 a) in
    omega (arith, last, sum_from-zero n a)

-- `b` gives `f p k` to the `k`-th core of port `p`, for the `n` ports from `port` on, whose cores
-- follow one another from `lo` on, and is `a` below and above them.
pub record Blocks (n : ℕ) (sizes : ℕ → ℕ) (lo port : ℕ) (f : ℕ → ℕ → ℕ) (a b : ℕ → ℕ) : Type 0 where
  pub inside :
      (m k : ℕ) → m < n → k < sizes (port + m) → b (lo + sum_from m port sizes + k) ≡ f (port + m) k
  pub below : (c : ℕ) → c < lo → b c ≡ a c
  pub above : (c : ℕ) → lo + sum_from n port sizes ≤ c → b c ≡ a c

pub Blocks-cons :
    (n lo port : ℕ) (sizes : ℕ → ℕ) (f : ℕ → ℕ → ℕ) (a mid b : ℕ → ℕ)
    → Filled lo (sizes port) (f port) a mid
    → Blocks n sizes (lo + sizes port) (port + 1) f mid b
    → Blocks (suc n) sizes lo port f a b
unfolding sum_from
Blocks-cons n lo port sizes f a mid b here rest = record {
  inside = λ m k p q. block_inside m k p q;
  below = λ c h. ground (arith, rest.below c, here c);
  above = λ c h. ground (arith, rest.above c, here c);
}
  where
    first : (k : ℕ) → k < sizes port → b (lo + k) ≡ f port k
    first k h = ground (arith, rest.below (lo + k), here (lo + k))

    block_inside :
        (m k : ℕ)
        → m < suc n
        → k < sizes (port + m)
        → b (lo + sum_from m port sizes + k) ≡ f (port + m) k
    block_inside zero k p q =
        let e : port + 0 ≡ port = omega arith in
        let e' : lo + 0 + k ≡ lo + k = omega arith in rw (e, e') (first k (rw e at q))
    block_inside (suc m) k p q =
        let e : port + suc m ≡ port + 1 + m = omega arith in
        let e' : lo + (sizes port + sum_from m (port + 1) sizes) + k
            ≡ lo + sizes port + sum_from m (port + 1) sizes + k =
          omega arith in
        rw (e, e') (rest.inside m k (omega arith) (rw e at q))

-- The blocks counted from port 0.
pub inside_zero :
    (n lo : ℕ) (sizes : ℕ → ℕ) (f : ℕ → ℕ → ℕ) (a b : ℕ → ℕ)
    → Blocks n sizes lo 0 f a b
    → (m k : ℕ) → m < n
    → k < sizes m
    → b (lo + sum_from m 0 sizes + k) ≡ f m k
inside_zero n lo sizes f a b blocks m k p q =
    let e : 0 + m ≡ m = omega arith in
    let here : b (lo + sum_from m 0 sizes + k) ≡ f (0 + m) k = blocks.inside m k p (rw e q) in
    rw e at here

-- The same for blocks that begin at cell 0.
pub inside_origin :
    (n : ℕ) (sizes : ℕ → ℕ) (f : ℕ → ℕ → ℕ) (a b : ℕ → ℕ)
    → Blocks n sizes 0 0 f a b
    → (m k : ℕ) → m < n
    → k < sizes m
    → b (sum_from m 0 sizes + k) ≡ f m k
inside_origin n sizes f a b blocks m k p q =
    let e : 0 + sum_from m 0 sizes + k ≡ sum_from m 0 sizes + k = omega arith in
    rw e at (inside_zero n 0 sizes f a b blocks m k p q)

pub Blocks-nil :
    (lo port : ℕ) (sizes : ℕ → ℕ) (f : ℕ → ℕ → ℕ) (a : ℕ → ℕ) → Blocks 0 sizes lo port f a a
Blocks-nil lo port sizes f a = record {
  inside = λ m k h. absurd (omega arith);
  below = λ c h. refl;
  above = λ c h. refl;
}

pub core_per_ring-Blocks :
    (n : ℕ) (rings : ℕ → ℕ) (core port : ℕ) (a : ℕ → ℕ)
    → port + n ≤ 16
    → core + sum_from n port rings ≤ 1024
    → (b : ℕ → ℕ) × (core_per_ring n rings core port a ≡ ok b)
      × Blocks n rings core port (λ p k. p) a b
unfolding core_per_ring sum_from
core_per_ring-Blocks zero rings core port a fits room =
    (a, refl, Blocks-nil core port rings (λ p k. p) a)
core_per_ring-Blocks (suc n) rings core port a fits room =
    let (mid, e, here) = cores_of_port-Filled (rings port) core port a (omega arith) in
    let (b, e', rest) =
      core_per_ring-Blocks n rings (core + rings port) (port + 1) mid (omega arith) (omega arith) in
    (
      b,
      rw (load-ok 16 rings port (omega arith), e) e',
      Blocks-cons n core port rings (λ p k. p) a mid b here rest,
    )

pub queues_of_ports-Blocks :
    (n : ℕ) (queues : ℕ → ℕ) (core port : ℕ) (a : ℕ → ℕ)
    → port + n ≤ 16
    → core + sum_from n port queues ≤ 1024
    → (b : ℕ → ℕ) × (queues_of_ports n queues core port a ≡ ok b)
      × Blocks n queues core port (λ p k. k) a b
unfolding queues_of_ports sum_from
queues_of_ports-Blocks zero queues core port a fits room =
    (a, refl, Blocks-nil core port queues (λ p k. k) a)
queues_of_ports-Blocks (suc n) queues core port a fits room =
    let (mid, e, here) = one_core_per_queue-Filled (queues port) core 0 a (omega arith) in
    let (b, e', rest) =
      queues_of_ports-Blocks n queues (core + queues port) (port + 1) mid (omega arith)
        (omega arith) in
    (
      b,
      rw (load-ok 16 queues port (omega arith), e) e',
      Blocks-cons n core port queues (λ p k. k) a mid b (λ c. ground (arith, here c)) rest,
    )
