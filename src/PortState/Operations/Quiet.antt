-- ===== src/PortState/Operations/Quiet.antt =====
-- The set-up of the queues of a port, which only calls the driver.
use platform.Common.{ℕ, zero, suc, ◌+◌, ◌≡◌, ◌≢◌, refl, if◌then◌else◌}
use platform.Common.{Bool-cases, inl, inr}
use platform.PortState.{Call, Driver, Ports, call}
use platform.PortState.Keeps.{running, Pools}
use platform.PortState.Operations.{QueueSetup, setup_tx_queues, setup_rx_queues}
use platform.PortState.Wrote.{}

-- The calls that set up queues change nothing else and start or stop no device.
pub record Quiet (d : Driver) (s t : Ports) : Type 0 where
  pub ports : t.ports ≡ s.ports
  pub runs : (p : ℕ) → running d t.calls p ≡ running d s.calls p

pub setup_tx_queues-Quiet :
    (d : Driver) (pi n qi : ℕ) (s : Ports) → Quiet d s (setup_tx_queues d pi n qi s).0
unfolding setup_tx_queues running
setup_tx_queues-Quiet d pi zero qi s = record { ports = refl; runs = λ p. refl }
setup_tx_queues-Quiet d pi (suc n) qi s =
    elim (Bool-cases (d.succeeds s.calls (Call.tx_queue_setup pi qi))) [
      | inl e ↦
          let q = setup_tx_queues-Quiet d pi n (qi + 1) (call s (Call.tx_queue_setup pi qi)) in
          rw e (record { ports = q.ports; runs = q.runs })
      | inr e ↦ rw e (record { ports = refl; runs = λ p. refl })
    ]

pub setup_rx_queues-Quiet :
    (d : Driver) (pi n qi : ℕ) (s : Ports) → Quiet d s (setup_rx_queues d pi n qi s).0
unfolding setup_rx_queues running
setup_rx_queues-Quiet d pi zero qi s = record { ports = refl; runs = λ p. refl }
setup_rx_queues-Quiet d pi (suc n) qi s =
    let socket = if s.rx_numa pi then s.rxring_numa pi else (s.ports pi).socket_id in
    elim (Bool-cases (d.mbuf_pool_find socket)) [
      | inr x ↦ rw x (record { ports = refl; runs = λ p. refl })
      | inl x ↦ elim (Bool-cases (d.succeeds s.calls (Call.rx_queue_setup pi qi))) [
        | inl e ↦
            let q = setup_rx_queues-Quiet d pi n (qi + 1) (call s (Call.rx_queue_setup pi qi)) in
            rw (x, e) (record { ports = q.ports; runs = q.runs })
        | inr e ↦ rw (x, e) (record { ports = refl; runs = λ p. refl })
      ]
    ]

-- With pools on all sockets none is missed.
pub setup_rx_queues-pool :
    (d : Driver) (pi n qi : ℕ) (s : Ports)
    → Pools d
    → (setup_rx_queues d pi n qi s).1 ≢ QueueSetup.no_pool
unfolding setup_rx_queues
setup_rx_queues-pool d pi zero qi s pools e = cc
setup_rx_queues-pool d pi (suc n) qi s pools e =
    let socket = if s.rx_numa pi then s.rxring_numa pi else (s.ports pi).socket_id in
    elim (Bool-cases (d.succeeds s.calls (Call.rx_queue_setup pi qi))) [
      | inl x ↦
          setup_rx_queues-pool d pi n (qi + 1) (call s (Call.rx_queue_setup pi qi)) pools
            (rw (pools socket, x) at e)
      | inr x ↦ let e' = rw (pools socket, x) at e in cc
    ]
