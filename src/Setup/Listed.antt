-- ===== src/Setup/Listed.antt =====
-- The ports that `dpdk_init` lists.
use platform.Common.{ℕ, zero, suc, ◌+◌, ◌%◌, ◌^◌, ◌≤◌, ◌<◌, ◌≡◌, refl, ◌∙◌, sym, arith, ok}
use platform.Common.{load-ok, store-ok, update}
use platform.Device.{Context}
use platform.Setup.{list_ports}
use platform.Choice.Cores.Queues.{InOrder}

-- The list after `k` rounds.
record Rounds (k : ℕ) (ctx : Context) : Type 0 where
  number : ctx.port_num ≡ k
  listed : (j : ℕ) → j < k → ctx.port_list j ≡ j
  unlisted : (j : ℕ) → k ≤ j → j < 16 → ctx.port_list j ≡ 0
  no_rings : (p : ℕ) → p < 16 → ctx.port_ringnum p ≡ 0
  no_queues : (p : ℕ) → p < 16 → ctx.port_queuenum p ≡ 0

abbrev after_round : ℕ → Context → Context
after_round k ctx = record ctx {
  port_queuenum = update ctx.port_queuenum 0 0;
  port_ringnum = update ctx.port_ringnum 0 0;
  port_list = update ctx.port_list k k;
  port_num = k + 1;
}

round-eq :
    (n k : ℕ) (ctx : Context)
    → k < 16
    → Rounds k ctx
    → list_ports (suc n) k ctx ≡ list_ports n (k + 1) (after_round k ctx)
unfolding list_ports
round-eq n k ctx h r =
    let first : ctx.port_list k % 2 ^ 8 ≡ 0 =
      let e = r.unlisted k (omega arith) h in omega (arith, e) in
    let number : (k + 1) % 2 ^ 16 ≡ k + 1 = omega arith in
    rw (load-ok 16 ctx.port_list k h, first, r.number, store-ok 16 ctx.port_list k k h, number) refl

round-Rounds : (k : ℕ) (ctx : Context) → k < 16 → Rounds k ctx → Rounds (k + 1) (after_round k ctx)
round-Rounds k ctx h r = record {
  number = refl;
  listed = λ j b. ground (arith, r.listed j);
  unlisted = λ j b b'. ground (arith, r.unlisted j);
  no_rings = λ p b. ground (arith, r.no_rings p b);
  no_queues = λ p b. ground (arith, r.no_queues p b);
}

all-Rounds :
    (n k m : ℕ) (ctx : Context)
    → k + n ≡ m
    → m ≤ 16
    → Rounds k ctx
    → (list rings queues : ℕ → ℕ) × (let c = record ctx {
      port_queuenum = queues;
      port_ringnum = rings;
      port_list = list;
      port_num = m;
    } in
        (list_ports n k ctx ≡ ok c) × Rounds m c)
unfolding list_ports
all-Rounds zero k m ctx e h r =
    let same : m ≡ k = omega (arith, e) in
    (
      ctx.port_list,
      ctx.port_ringnum,
      ctx.port_queuenum,
      (
        (rw (same, sym r.number) refl),
        record {
          number = refl;
          listed = λ j b. r.listed j (omega (arith, e));
          unlisted = λ j b b'. r.unlisted j (omega (arith, e)) b';
          no_rings = r.no_rings;
          no_queues = r.no_queues;
        },
      ),
    )
all-Rounds (suc n) k m ctx e h r =
    let (list, rings, queues, (e', rs)) =
      all-Rounds n (k + 1) m (after_round k ctx) (omega (arith, e)) h
        (round-Rounds k ctx (omega (arith, e)) r) in
    (list, rings, queues, (round-eq n k ctx (omega (arith, e)) r ∙ e', rs))

-- On a context whose port count, list, ring counts and queue counts are 0, with up to 16 ports,
-- the loop of dpdk_init returns: the ports are listed in order, each of the 16 places has no ring
-- and no queue, and the other fields are as before.
pub ports_listed :
    (n : ℕ) (ctx : Context)
    → n ≤ 16
    → ctx.port_num ≡ 0
    → ((j : ℕ) → (ctx.port_list j ≡ 0) × (ctx.port_ringnum j ≡ 0) × (ctx.port_queuenum j ≡ 0))
    → (list rings queues : ℕ → ℕ) × (let c = record ctx {
      port_queuenum = queues;
      port_ringnum = rings;
      port_list = list;
      port_num = n;
    } in
        (list_ports n 0 ctx ≡ ok c)
        × InOrder c
        × ((p : ℕ) → p < 16 → (c.port_ringnum p ≡ 0) × (c.port_queuenum p ≡ 0)))
ports_listed n ctx few none cleared =
    let start : Rounds 0 ctx = record {
      number = none;
      listed = λ j b. absurd (omega arith);
      unlisted = λ j b b'. (cleared j).0;
      no_rings = λ p b. (cleared p).1;
      no_queues = λ p b. (cleared p).2;
    } in
    let (list, rings, queues, (e, r)) = all-Rounds n 0 n ctx (omega arith) few start in
    (
      list,
      rings,
      queues,
      (e, record { few = few; in_order = r.listed }, (λ p b. (r.no_rings p b, r.no_queues p b))),
    )
