-- ===== src/Setup/Drive/Trace.antt =====
-- The calls of the driver when it accepts all of them.
use platform.Common.{ℕ, zero, suc, ◌+◌, ◌/◌, ◌%◌, ◌^◌, ◌≤◌, ◌<◌, ◌≡◌, refl, ◌∙◌, ap, arith}
use platform.Common.{List, [], ◌∷◌, ◌++◌, append_assoc, none, ok, load-ok, Bool-cases, inl, inr}
use platform.Common.{leb, ◌==◌, if◌then◌else◌, false}
use platform.Common.Int.{ℤ, pos}
use platform.Device.{Context}
use platform.Setup.Drive.{Call, queue_setups, unless_returned, enable_port, set_up_port, port_init}
use platform.Setup.Drive.{or_exit, init_enabled, init_ports}

-- The calls for the queues below `n`, the last one first.
unfoldable pub queue_trace : (ℕ → Call) → ℕ → List Call
queue_trace setup zero = []
queue_trace setup (suc n) = setup n ∷ queue_trace setup n

-- The calls for a port: it is configured, its queues are set up, and it is started.
unfoldable pub port_trace : ℕ → ℕ → List Call
port_trace port rings =
    Call.promiscuous_enable port
    ∷ Call.start port
    ∷ (queue_trace (Call.tx_queue_setup port) rings
        ++ (queue_trace (Call.rx_queue_setup port) rings ++ (Call.configure port rings rings ∷ [])))

-- The calls for the ports below `n` in the mask, port after port.
unfoldable pub ports_trace : ℕ → (ℕ → ℕ) → ℕ → List Call
ports_trace mask queues zero = []
ports_trace mask queues (suc n) =
    if (mask / 2 ^ n) % 2 == 0
    then ports_trace mask queues n
    else port_trace n (queues n) ++ ports_trace mask queues n

module _ (answer : List Call → Call → ℤ)
    (accepts : (calls : List Call) (c : Call) → answer calls c ≡ pos 0) where
  setups-step :
      (setup : ℕ → Call) (n q : ℕ) (calls : List Call)
      → queue_setups answer setup (suc n) q calls
        ≡ queue_setups answer setup n (q + 1) (setup q ∷ calls)
  unfolding queue_setups
  setups-step setup n q calls = rw (accepts calls (setup q)) refl

  setups-trace :
      (setup : ℕ → Call) (n q : ℕ) (calls : List Call)
      → queue_setups answer setup n q (queue_trace setup q ++ calls)
        ≡ (queue_trace setup (q + n) ++ calls, none)
  unfolding queue_setups queue_trace
  setups-trace setup zero q calls = let e : q + 0 ≡ q = omega arith in rw e refl
  setups-trace setup (suc n) q calls =
      let e : q + suc n ≡ suc q + n = omega arith in
      let e' : q + 1 ≡ suc q = omega arith in
      setups-step setup n q (queue_trace setup q ++ calls)
      ∙ rw (e, e') (setups-trace setup n (suc q) calls)

  all_setups-trace :
      (setup : ℕ → Call) (n : ℕ) (calls : List Call)
      → queue_setups answer setup n 0 calls ≡ (queue_trace setup n ++ calls, none)
  unfolding queue_trace
  all_setups-trace setup n calls =
      let e : 0 + n ≡ n = omega arith in
      setups-trace setup n 0 calls ∙ ap (λ k. (queue_trace setup k ++ calls, none)) e

  set_up_port-trace :
      (port rings : ℕ) (calls : List Call)
      → set_up_port answer port rings calls ≡ (port_trace port rings ++ calls, pos 0)
  unfolding set_up_port unless_returned enable_port port_trace queue_trace
  set_up_port-trace port rings calls =
      let configured = Call.configure port rings rings ∷ calls in
      let rx = queue_trace (Call.rx_queue_setup port) rings in
      let tx = queue_trace (Call.tx_queue_setup port) rings in
      rw
        (
          accepts calls (Call.configure port rings rings),
          all_setups-trace (Call.rx_queue_setup port) rings configured,
          all_setups-trace (Call.tx_queue_setup port) rings (rx ++ configured),
          accepts (tx ++ (rx ++ configured)) (Call.start port),
          append_assoc tx (rx ++ (Call.configure port rings rings ∷ [])) calls,
          append_assoc rx (Call.configure port rings rings ∷ []) calls,
        )
        refl

  init_enabled-trace :
      (dev_count : ℕ) (ctx : Context) (p : ℕ)
      → p < dev_count
      → p < 16
      → init_enabled answer dev_count ctx p (ports_trace ctx.enabled_port_mask ctx.port_queuenum p)
        ≡ ok (ports_trace ctx.enabled_port_mask ctx.port_queuenum (suc p))
  unfolding init_enabled port_init or_exit ports_trace
  init_enabled-trace dev_count ctx p lt few =
      let low : leb 31 p ≡ false = ground arith in
      let known : leb dev_count p ≡ false = ground arith in
      elim (Bool-cases ((ctx.enabled_port_mask / 2 ^ p) % 2 == 0)) [
        | inl e ↦ rw (low, e) refl
        | inr e ↦
            rw
              (
                low,
                e,
                known,
                load-ok 16 ctx.port_queuenum p few,
                set_up_port-trace p (ctx.port_queuenum p)
                    (ports_trace ctx.enabled_port_mask ctx.port_queuenum p),
              )
              refl
      ]

  ports-trace :
      (dev_count : ℕ) (ctx : Context) (n p : ℕ)
      → p + n ≤ dev_count
      → dev_count ≤ 16
      → init_ports answer dev_count ctx n p (ports_trace ctx.enabled_port_mask ctx.port_queuenum p)
        ≡ ok (ports_trace ctx.enabled_port_mask ctx.port_queuenum (p + n))
  unfolding init_ports
  ports-trace dev_count ctx zero p h few = let e : p + 0 ≡ p = omega arith in rw e refl
  ports-trace dev_count ctx (suc n) p h few =
      let e : p + suc n ≡ suc p + n = omega arith in
      let e' : p + 1 ≡ suc p = omega arith in
      rw (init_enabled-trace dev_count ctx p (omega arith) (omega arith), e, e')
        (ports-trace dev_count ctx n (suc p) (omega arith) few)

  -- Where the driver accepts all calls and there are at most 16 ports, the loop over the ports
  -- returns, and the calls are those for each port in the mask, in the order of the ports: it is
  -- configured for as many queues as it is given in each direction, each of these queues is set up,
  -- to receive before to send, and then it is started; no call is made for any other port.
  pub init_ports-trace :
      (dev_count : ℕ) (ctx : Context)
      → dev_count ≤ 16
      → init_ports answer dev_count ctx dev_count 0 []
        ≡ ok (ports_trace ctx.enabled_port_mask ctx.port_queuenum dev_count)
  unfolding ports_trace
  init_ports-trace dev_count ctx few =
      let e : 0 + dev_count ≡ dev_count = omega arith in
      ports-trace dev_count ctx dev_count 0 (omega arith) few
      ∙ ap (λ n. ok (ports_trace ctx.enabled_port_mask ctx.port_queuenum n)) e
