-- ===== src/Setup/Drive.antt =====
-- `port_init` of src/CaptureDpdk/dpdk.c and the loop of `dpdk_init` over the ports that the mask
-- enables. What the driver answers depends on the calls made so far, the last call first.
pub mod Trace
use platform.Common.{ℕ, zero, suc, ◌+◌, ◌/◌, ◌%◌, ◌^◌, List, [], ◌∷◌, Option, none, some}
use platform.Common.{Outcome, ok, exited, fault, ◌>>=◌, load, leb, ◌==◌, if◌then◌else◌, Bool}
use platform.Common.Int.{ℤ, pos, negsuc, ltb_ℤ, eqb_ℤ}
use platform.Device.{Context, port_size}

-- The calls of the driver: with the port and, where there are any, the numbers of queues or a queue.
pub data Call : Type 0 where
  configure : ℕ → ℕ → ℕ → Call
  rx_queue_setup tx_queue_setup : ℕ → ℕ → Call
  start promiscuous_enable : ℕ → Call

module _ (answer : List Call → Call → ℤ) where
  -- A loop over `n` queues from `q` on, whose body makes a call: `some` is an early return.
  pub queue_setups : (ℕ → Call) → ℕ → ℕ → List Call → List Call × Option ℤ
  queue_setups setup zero q calls = (calls, none)
  queue_setups setup (suc n) q calls =
      let rest = queue_setups setup n (q + 1) (setup q ∷ calls) in
      let retval = answer calls (setup q) in
      if ltb_ℤ retval (pos 0) then (setup q ∷ calls, some retval) else rest

  -- What follows a loop, unless it has returned.
  unfoldable unless_returned : List Call × Option ℤ → (List Call → List Call × ℤ) → List Call × ℤ
  unless_returned (calls, some retval) k = (calls, retval)
  unless_returned (calls, none) k = k calls

  unfoldable enable_port : ℕ → List Call → List Call × ℤ
  enable_port port calls =
      let retval = answer calls (Call.start port) in
      if ltb_ℤ retval (pos 0)
      then (Call.start port ∷ calls, retval)
      else (Call.promiscuous_enable port ∷ Call.start port ∷ calls, pos 0)

  -- From the call of `rte_eth_dev_configure` on.
  unfoldable set_up_port : ℕ → ℕ → List Call → List Call × ℤ
  unfolding unless_returned enable_port
  set_up_port port rings calls =
      let retval = answer calls (Call.configure port rings rings) in
      let configured = Call.configure port rings rings ∷ calls in
      if eqb_ℤ retval (pos 0)
      then unless_returned (queue_setups (Call.rx_queue_setup port) rings 0 configured) (λ calls1.
        unless_returned (queue_setups (Call.tx_queue_setup port) rings 0 calls1)
          (λ calls2. enable_port port calls2))
      else (configured, retval)

  pub port_init : ℕ → Context → ℕ → List Call → Outcome (List Call × ℤ)
  port_init dev_count ctx port calls =
      if leb dev_count port
      then ok (calls, negsuc 0)
      else (do rings ← load port_size ctx.port_queuenum port; ok (set_up_port port rings calls))

  unfoldable or_exit : List Call × ℤ → Outcome (List Call)
  or_exit (calls, retval) = if eqb_ℤ retval (pos 0) then ok calls else exited

  -- `(mask & (1 << portid)) == 0`, where a shift of an `int` past its value bits is undefined.
  unfoldable init_enabled : ℕ → Context → ℕ → List Call → Outcome (List Call)
  init_enabled dev_count ctx portid calls =
      if leb 31 portid
      then fault
      else if (ctx.enabled_port_mask / 2 ^ portid) % 2 == 0
      then ok calls
      else (do done ← port_init dev_count ctx portid calls; or_exit done)

  -- The loop over `n` ports from `portid` on.
  pub init_ports : ℕ → Context → ℕ → ℕ → List Call → Outcome (List Call)
  init_ports dev_count ctx zero portid calls = ok calls
  init_ports dev_count ctx (suc n) portid calls = do
    calls' ← init_enabled dev_count ctx portid calls
    init_ports dev_count ctx n (portid + 1) calls'
