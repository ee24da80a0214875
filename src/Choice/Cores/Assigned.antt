-- ===== src/Choice/Cores/Assigned.antt =====
-- Which ring of which port a thread of the second layer reads, after `get_thread_portinfo`; and what
-- `get_port_queuenum` stores for a port that the table does not know.
use platform.Common.{ℕ, zero, suc, ◌+◌, ◌-◌, ◌≤◌, ◌<◌, ◌≡◌, refl}
use platform.Common.{arith, ok, load-ok, store-ok, update}
use native.Mathlib.Decide.{dec_lt}
use platform.Device.{Context}
use platform.Choice.Cores.{Threads, threads_of_port, threads_of_ports, get_thread_portinfo}
use platform.Choice.Cores.Layout.{Filled, Blocks, Blocks-cons, Blocks-nil, inside_origin, sum_from}

threads_of_port-Filled :
    (n port ring thread : ℕ) (a : Threads)
    → thread + n ≤ 80
    → (b : Threads) × (threads_of_port n port ring thread a ≡ ok b)
      × Filled thread n (λ k. port) a.ports b.ports
      × Filled thread n (λ k. ring + k) a.rings b.rings
unfolding threads_of_port
threads_of_port-Filled zero port ring thread a room =
    (a, refl, (λ c. ground arith), (λ c. ground arith))
threads_of_port-Filled (suc n) port ring thread a room =
    let (b, e, f, g) =
      threads_of_port-Filled n port (ring + 1) (thread + 1)
        (record { ports = update a.ports thread port; rings = update a.rings thread ring })
        (omega arith) in
    (
      b,
      rw
          (
            store-ok 80 a.ports thread port (omega arith),
            store-ok 80 a.rings thread ring (omega arith),
          )
          e,
      (λ c. ground (arith, f c)),
      (λ c. ground (arith, g c)),
    )

threads_of_ports-Blocks :
    (n : ℕ) (counts : ℕ → ℕ) (port thread : ℕ) (a : Threads)
    → port + n ≤ 16
    → thread + sum_from n port counts ≤ 80
    → (b : Threads) × (threads_of_ports n counts port thread a ≡ ok b)
      × Blocks n counts thread port (λ p k. p) a.ports b.ports
      × Blocks n counts thread port (λ p k. k) a.rings b.rings
unfolding threads_of_ports sum_from
threads_of_ports-Blocks zero counts port thread a fits room = (
  a,
  refl,
  Blocks-nil thread port counts (λ p k. p) a.ports,
  Blocks-nil thread port counts (λ p k. k) a.rings,
)
threads_of_ports-Blocks (suc n) counts port thread a fits room =
    let (mid, e, f, g) = threads_of_port-Filled (counts port) port 0 thread a (omega arith) in
    let (b, e', f', g') =
      threads_of_ports-Blocks n counts (port + 1) (thread + counts port) mid (omega arith)
        (omega arith) in
    (
      b,
      rw (load-ok 16 counts port (omega arith), e) e',
      Blocks-cons n thread port counts (λ p k. p) a.ports mid.ports b.ports f f',
      Blocks-cons n thread port counts (λ p k. k) a.rings mid.rings b.rings
          (λ c. ground (arith, g c)) g',
    )

-- A place among the blocks is a place in one of them.
block_of :
    (n : ℕ) (counts : ℕ → ℕ) (port k : ℕ)
    → k < sum_from n port counts
    → (m r : ℕ) × (m < n) × (r < counts (port + m)) × (k ≡ sum_from m port counts + r)
unfolding sum_from
block_of zero counts port k h = absurd (omega arith)
block_of (suc n) counts port k h = elim (dec_lt k (counts port)) [
  | yes p ↦ let e : port + 0 ≡ port = omega arith in (0, k, omega arith, rw e p, omega arith)
  | no p ↦
      let (m, r, hm, hr, e) = block_of n counts (port + 1) (k - counts port) (omega arith) in
      let e' : port + suc m ≡ port + 1 + m = omega arith in
      (suc m, r, omega arith, rw e' hr, omega (arith, e))
]

-- Thread `k` reads the `r`-th ring of port `p`, where `k` is the number of rings before that port,
-- plus `r`.
abbrev pub Reads : (ℕ → ℕ) → (ℕ → ℕ) → (ℕ → ℕ) → ℕ → Type 0
Reads counts ports rings k =
    (rings k < counts (ports k)) × (k ≡ sum_from (ports k) 0 counts + rings k)

reads :
    (ctx : Context) (b : Threads)
    → ((p r : ℕ)
        → p < ctx.port_num
        → r < ctx.port_ringnum p
        → b.ports (sum_from p 0 ctx.port_ringnum + r) ≡ p)
    → ((p r : ℕ)
        → p < ctx.port_num
        → r < ctx.port_ringnum p
        → b.rings (sum_from p 0 ctx.port_ringnum + r) ≡ r)
    → (k : ℕ) → k < sum_from ctx.port_num 0 ctx.port_ringnum
    → (b.ports k < ctx.port_num) × Reads ctx.port_ringnum b.ports b.rings k
reads ctx b f g k h =
    let (m, r, hm, hr, e) = block_of ctx.port_num ctx.port_ringnum 0 k h in
    let z : 0 + m ≡ m = omega arith in
    let hr' : r < ctx.port_ringnum m = rw z at hr in
    let ep : b.ports k ≡ m = rw e (f m r hm hr') in
    let er : b.rings k ≡ r = rw e (g m r hm hr') in (rw ep hm, (rw (ep, er) hr', rw (ep, er) e))

-- With at most 16 ports, which have at most 80 rings together, get_thread_portinfo returns. Every
-- thread below the number of rings is given a port and a ring of that port, from which the thread
-- can be told; and ring r of port p has the thread whose number is that of the rings of the ports
-- before p, plus r.
pub thread_rings :
    (ctx : Context)
    → ctx.port_num ≤ 16
    → sum_from ctx.port_num 0 ctx.port_ringnum ≤ 80
    → (ports rings : ℕ → ℕ) × (get_thread_portinfo ctx
        ≡ ok (record ctx { thread_portnum = ports; thread_ringnum = rings }))
      × ((k : ℕ)
          → k < sum_from ctx.port_num 0 ctx.port_ringnum
          → (ports k < ctx.port_num) × Reads ctx.port_ringnum ports rings k)
      × ((p r : ℕ)
          → p < ctx.port_num
          → r < ctx.port_ringnum p
          → (ports (sum_from p 0 ctx.port_ringnum + r) ≡ p)
            × (rings (sum_from p 0 ctx.port_ringnum + r) ≡ r))
unfolding get_thread_portinfo
thread_rings ctx few room =
    let (b, e, f, g) =
      threads_of_ports-Blocks ctx.port_num ctx.port_ringnum 0 0
        (record { ports = ctx.thread_portnum; rings = ctx.thread_ringnum }) (omega arith)
        (omega arith) in
    (
      b.ports,
      b.rings,
      simp e,
      reads ctx b (inside_origin _ _ _ _ _ f) (inside_origin _ _ _ _ _ g),
      (λ p r h k. (inside_origin _ _ _ _ _ f p r h k, inside_origin _ _ _ _ _ g p r h k)),
    )
