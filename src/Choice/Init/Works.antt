-- ===== src/Choice/Init/Works.antt =====
-- `choice_init` from its start to its end.
use platform.Common.{ℕ, zero, suc, ◌+◌, ◌-◌, ◌%◌, ◌^◌, ◌≤◌, ◌<◌, ◌≡◌, refl, Option, List}
use platform.Common.{arith, ok, store-ok, update}
use platform.Double.{Double}
use platform.PortTable.{Uthash, Item}
use platform.Device.{Context}
use platform.Choice.Rings.{get_port_ringnum}
use platform.Choice.Cores.{bind_core_length, get_core_portnum, get_core_queuenum, get_port_queuenum}
use platform.Choice.Cores.{get_thread_portinfo}
use platform.Choice.Init.{clear_cores, set_range, dofile, choice_init}

clear_cores-eq :
    (n id : ℕ) (ctx : Context)
    → id + n ≤ 1024
    → (ports queues : ℕ → ℕ) × (clear_cores n id ctx
        ≡ ok (record ctx { core_portnum = ports; core_queuenum = queues }))
      × ((c : ℕ) → id ≤ c → c < id + n → queues c ≡ 0)
      × ((c : ℕ) → c < id → queues c ≡ ctx.core_queuenum c)
unfolding clear_cores
clear_cores-eq zero id ctx h =
    (ctx.core_portnum, ctx.core_queuenum, refl, (λ c p q. absurd (omega arith)), (λ c p. refl))
clear_cores-eq (suc n) id ctx h =
    let (ports, queues, e, z, old) =
      clear_cores-eq n (id + 1)
        (record ctx {
          core_portnum = update ctx.core_portnum id 0;
          core_queuenum = update ctx.core_queuenum id 0;
        })
        (omega arith) in
    (
      ports,
      queues,
      rw
          (
            store-ok 1024 ctx.core_portnum id 0 (omega arith),
            store-ok 1024 ctx.core_queuenum id 0 (omega arith),
          )
          e,
      (λ c p q. ground (arith, z c, old c)),
      (λ c p. ground (arith, old c)),
    )

-- The range of `len` cores from `start` on, cleared.
pub set_range-eq :
    (n len : ℕ) (ctx : Context)
    → bind_core_length n ctx ≡ ok len
    → 0 < len
    → ctx.start + len ≤ 1024
    → (ports queues : ℕ → ℕ) × (set_range n ctx
        ≡ ok (record ctx {
          end = ctx.start + len - 1;
          core_portnum = ports;
          core_queuenum = queues;
        }))
      × ((c : ℕ) → ctx.start ≤ c → c < ctx.start + len → queues c ≡ 0)
unfolding set_range
set_range-eq n len ctx bound pos room =
    let (ports, queues, e, z, old) =
      clear_cores-eq len ctx.start (record ctx { end = ctx.start + len - 1 }) room in
    let last : (ctx.start + len + 2 ^ 16 - 1) % 2 ^ 16 ≡ ctx.start + len - 1 = omega arith in
    let rounds : ctx.start + len - 1 + 1 - ctx.start ≡ len = omega arith in
    (ports, queues, simp (bound, last, rounds, e), z)

module _ (d : Double) (u : Uthash d) (link_speed : ℕ → ℕ) (dev_count : ℕ) where
  pub choice_init-eq :
      (file : Option (Option (List (Item d)))) (t table : u.Table) (ctx c1 c2 c3 c4 c5 c6 : Context)
      → dofile d u file t ≡ ok table
      → get_port_ringnum d u table link_speed ctx ≡ ok c1
      → get_port_queuenum d u table link_speed c1 ≡ ok c2
      → get_thread_portinfo c2 ≡ ok c3
      → set_range dev_count c3 ≡ ok c4
      → get_core_portnum c4 ≡ ok c5
      → get_core_queuenum c5 ≡ ok c6
      → choice_init d u link_speed dev_count file t ctx ≡ ok (c6, table)
  unfolding choice_init
  choice_init-eq file t table ctx c1 c2 c3 c4 c5 c6 e0 e1 e2 e3 e4 e5 e6 =
      rw (e0, e1, e2, e3, e4, e5, e6) refl
