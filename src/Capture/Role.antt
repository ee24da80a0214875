-- ===== src/Capture/Role.antt =====
-- `mainLoop`: whether a core sends, receives or does neither.
use platform.Common.{
  ℕ, ◌+◌, ◌%◌, ◌^◌, ◌≤◌, ◌<◌, ◌≡◌, ◌⊎◌, inl, inr, sum_to, sum_to-le, suc, ok, arith, Option,
}
use platform.Common.{ltb, leb, ◌&&◌, if◌then◌else◌, List}
use platform.Device.{Context}
use platform.Double.{Double}
use platform.PortTable.{Uthash, Item}
use platform.Choice.Rings.Total.{IsReady, IsHeavy}
use platform.Choice.Cores.Queues.{InOrder}
use platform.Choice.Cores.Layout.{sum_from, sum_from-zero}
use platform.Choice.Init.{dofile, choice_init}
use platform.Choice.Init.Modes.{ModeTwo, mode_two}

-- The loop that a core enters: `slaveCoreTx`, `slaveCoreRx` or none.
pub data Role : Type 0 where
  sends : Role
  receives : Role
  idle : Role

-- `core_id` is a `uint8_t`.
pub main_loop : Context → ℕ → Role
main_loop ctx lcore_id =
    let core_id = lcore_id % 2 ^ 8 in
    if leb ctx.start core_id && ltb core_id (ctx.start + ctx.port_num)
    then Role.sends
    else if leb (ctx.start + ctx.port_num) core_id && leb core_id ctx.end
    then Role.receives
    else Role.idle

main_loop-sends :
    (ctx : Context) (k : ℕ)
    → ctx.start ≤ k
    → k < ctx.start + ctx.port_num
    → k < 256
    → main_loop ctx k ≡ Role.sends
unfolding main_loop
main_loop-sends ctx k lo hi byte = let e : k % 2 ^ 8 ≡ k = omega arith in rw e (ground arith)

main_loop-receives :
    (ctx : Context) (k : ℕ)
    → ctx.start + ctx.port_num ≤ k
    → k ≤ ctx.end
    → k < 256
    → main_loop ctx k ≡ Role.receives
unfolding main_loop
main_loop-receives ctx k lo hi byte = let e : k % 2 ^ 8 ≡ k = omega arith in rw e (ground arith)

main_loop-idle :
    (ctx : Context) (k : ℕ)
    → (k < ctx.start) ⊎ (ctx.end < k)
    → ctx.start + ctx.port_num ≤ ctx.end + 1
    → k < 256
    → main_loop ctx k ≡ Role.idle
unfolding main_loop
main_loop-idle ctx k (inl out) h byte = let e : k % 2 ^ 8 ≡ k = omega arith in rw e (ground arith)
main_loop-idle ctx k (inr out) h byte = let e : k % 2 ^ 8 ≡ k = omega arith in rw e (ground arith)

-- The core of ring `i` of port `p` lies before the end of the range.
ring_core-le :
    (n p i : ℕ) (rings : ℕ → ℕ)
    → p < n
    → n ≤ 16
    → i < rings p
    → sum_from p 0 rings + i < sum_to 16 rings
unfolding sum_to
ring_core-le n p i rings lt few le =
    omega (arith, sum_from-zero p rings, sum_to-le (suc p) 16 rings (omega arith))

module _ (d : Double) (u : Uthash d) (link_speed : ℕ → ℕ) (file : Option (Option (List (Item d))))
    (t table : u.Table) (ctx : Context) (opened : dofile d u file t ≡ ok table)
    (r : IsReady d u table link_speed ctx) (heavy : IsHeavy d u table link_speed ctx)
    (o : InOrder ctx) (mode : ctx.queue_mode ≡ 2) (all : ctx.nb_ports ≡ ctx.port_num)
    (few_rings : ctx.ring_num ≤ 80) where
  -- The roles of the cores of a context that `choice_init` has made in thread mode 2.
  pub ModeTwo-roles :
      (c : Context)
      → ModeTwo d u link_speed file t table ctx opened r heavy o mode all few_rings c
      → ctx.start + (ctx.ring_num + ctx.port_num) ≤ 256
      → ((p : ℕ) → p < ctx.port_num → main_loop c (ctx.start + p) ≡ Role.sends)
        × ((p i : ℕ)
            → p < ctx.port_num
            → i < c.port_ringnum p
            → main_loop c (ctx.start + ctx.port_num + sum_from p 0 c.port_ringnum + i)
              ≡ Role.receives)
        × ((k : ℕ) → k < 256 → (k < ctx.start) ⊎ (c.end < k) → main_loop c k ≡ Role.idle)
  ModeTwo-roles c m room =
      let s = m.same_start in
      let n = m.same_ports in
      let l = m.last in
      let total = m.total in
      (
        (λ p h.
            main_loop-sends c (ctx.start + p) (omega (arith, s)) (omega (arith, s, n))
              (omega arith)),
        (λ p i h h'.
            let below = ring_core-le ctx.port_num p i c.port_ringnum h o.few h' in
            main_loop-receives c (ctx.start + ctx.port_num + sum_from p 0 c.port_ringnum + i)
              (omega (arith, s, n)) (omega (arith, l, total, below)) (omega (arith, total, below))),
        (λ k byte out. main_loop-idle c k (rw s out) (omega (arith, s, n, l)) byte),
      )

  -- Let the configuration be read, the ports be listed in order, at most 16, each with a weight
  -- in the table and no ring yet, not more of them than rings, and the last weight above the
  -- number of rings; let there be at most 80 rings, queue mode 2 and nb_ports equal to port_num.
  -- In thread mode 2, with at most 80 rings and ports together and start and these within 256,
  -- choice_init returns; each port has a core that sends, each of its rings a core that receives
  -- for the port, and a core outside the range does neither.
  pub mode_two_roles :
      ctx.thread_mode ≡ 2
      → ctx.ring_num + ctx.port_num ≤ 80
      → ctx.start + (ctx.ring_num + ctx.port_num) ≤ 256
      → (c : Context) × (choice_init d u link_speed ctx.port_num file t ctx ≡ ok (c, table))
        × ((p : ℕ)
            → p < ctx.port_num
            → (main_loop c (ctx.start + p) ≡ Role.sends) × (c.core_portnum (ctx.start + p) ≡ p))
        × ((p i : ℕ)
            → p < ctx.port_num
            → i < c.port_ringnum p
            → let k = ctx.start + ctx.port_num + sum_from p 0 c.port_ringnum + i in
              (main_loop c k ≡ Role.receives) × (c.core_portnum k ≡ p))
        × ((k : ℕ) → k < 256 → (k < ctx.start) ⊎ (c.end < k) → main_loop c k ≡ Role.idle)
  mode_two_roles two room room' =
      let (c, m) =
        mode_two d u link_speed file t table ctx opened r heavy o mode all few_rings two room
          (omega arith) in
      let (to_send, to_receive, none) = ModeTwo-roles c m room' in
      (
        c,
        m.returns,
        (λ p h. (to_send p h, m.sending p h)),
        (λ p i h h'. (to_receive p i h h', m.receiving p i h h')),
        none,
      )
