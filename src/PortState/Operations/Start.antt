-- ===== src/PortState/Operations/Start.antt =====
-- What `start_port` does to one port.
use platform.Common.{ℕ, ◌≡◌, ◌≢◌, refl, ◌∙◌, sym, ap, Bool, true, false, ◌==◌}
use platform.Common.{Bool-cases, eq-cases, eq→==, ne→==, inl, inr, ◌⊎◌}
use platform.PortState.{Status, Port, Call, Driver, Ports, status_of, set_port, call, cmpset}
use platform.PortState.Keeps.{
  running, Pools, Keeps, same-Keeps, set_port_self, cmpset-hit, cmpset-miss, refl-Keeps,
  status-cases,
}
use platform.PortState.Keeps.{is_ne}
use platform.PortState.Operations.{
  QueueSetup, setup_tx_queues, setup_rx_queues, configure_port, setup_queues, start_device,
  start_one,
}
use platform.PortState.Wrote.{
  Wrote, trans-Wrote, set_port-Wrote, cmpset-Wrote, status-cmpset, finish-Keeps, not_handling,
}
use platform.PortState.Operations.Quiet.{
  Quiet, setup_tx_queues-Quiet, setup_rx_queues-Quiet, setup_rx_queues-pool,
}

Quiet-Wrote : (d : Driver) (pi : ℕ) (s t : Ports) → Quiet d s t → Wrote d pi s t
Quiet-Wrote d pi s t q = record {
  others = λ p ne. ap (λ f. f p) q.ports;
  enabled = ap (λ f. (f pi).enabled) q.ports;
  slave = ap (λ f. (f pi).slave_flag) q.ports;
  runs = q.runs;
}

-- What a step of `start_port` leaves of the port that it works on, which it goes on with or not.
pub record Prepared (d : Driver) (pi : ℕ) (s : Ports) (r : Ports × Bool) : Type 0 where
  wrote : Wrote d pi s r.0
  pub on : r.1 ≡ true → status_of r.0 pi ≡ Status.handling
  not_started : status_of r.0 pi ≢ Status.started
  off : Pools d → r.1 ≡ false → status_of r.0 pi ≡ Status.stopped

-- It goes on.
on-Prepared :
    (d : Driver) (pi : ℕ) (s t : Ports)
    → Wrote d pi s t
    → status_of t pi ≡ Status.handling
    → Prepared d pi s (t, true)
on-Prepared d pi s t w h = record {
  wrote = w;
  on = λ e. h;
  not_started = λ e. let x = sym h ∙ e in absurd (cc);
  off = λ pools e. absurd (cc);
}

-- It stops, with the port set back to stopped.
off-Prepared :
    (d : Driver) (pi : ℕ) (s t : Ports)
    → Wrote d pi s t
    → status_of t pi ≡ Status.stopped
    → Prepared d pi s (t, false)
off-Prepared d pi s t w h = record {
  wrote = w;
  on = λ e. absurd (cc);
  not_started = λ e. let x = sym h ∙ e in absurd (cc);
  off = λ pools e. h;
}

-- A port that is worked on is set back to stopped and a field is written.
set_back :
    (d : Driver) (pi : ℕ) (s t : Ports) (f : Port → Port)
    → Wrote d pi s t
    → status_of t pi ≡ Status.handling
    → ((x : Port) → (f x).enabled ≡ x.enabled)
    → ((x : Port) → (f x).slave_flag ≡ x.slave_flag)
    → ((x : Port) → (f x).port_status ≡ x.port_status)
    → let t' = (cmpset t pi Status.handling Status.stopped).0 in
      Prepared d pi s (set_port t' pi (f (t'.ports pi)), false)
unfolding status_of
set_back d pi s t f w h e sl st =
    let t' = (cmpset t pi Status.handling Status.stopped).0 in
    off-Prepared d pi s (set_port t' pi (f (t'.ports pi)))
      (trans-Wrote d pi s t' (set_port t' pi (f (t'.ports pi)))
        (trans-Wrote d pi s t t' w (cmpset-Wrote d pi t Status.handling Status.stopped h))
        (set_port-Wrote d pi t' (f (t'.ports pi)) (e (t'.ports pi)) (sl (t'.ports pi))))
      (ap (λ x. x.port_status) (set_port_self t' pi (f (t'.ports pi)))
        ∙ st (t'.ports pi)
        ∙ status-cmpset t pi Status.handling Status.stopped h)

pub configure_port-Prepared :
    (d : Driver) (pi : ℕ) (s : Ports)
    → status_of s pi ≡ Status.handling
    → Prepared d pi s (configure_port d pi s)
unfolding configure_port running status_of
configure_port-Prepared d pi s h =
    let c = Call.configure pi in
    let port = record (s.ports pi) { need_reconfig = 0 } in
    let s1 = set_port s pi port in
    let w : Wrote d pi s (call s1 c) =
      let x = set_port-Wrote d pi s port refl refl in
      record { others = x.others; enabled = x.enabled; slave = x.slave; runs = λ p. refl } in
    let h' : status_of s1 pi ≡ Status.handling =
      ap (λ x. x.port_status) (set_port_self s pi port) ∙ h in
    elim (Bool-cases ((s.ports pi).need_reconfig == 0)) [
      | inl x ↦ rw x (
          on-Prepared d pi s s
            (record { others = λ p ne. refl; enabled = refl; slave = refl; runs = λ p. refl }) h)
      | inr x ↦ elim (Bool-cases (d.succeeds s.calls c)) [
        | inl y ↦ rw (x, y) (on-Prepared d pi s (call s1 c) w h')
        | inr y ↦
            rw (x, y)
              (set_back d pi s (call s1 c) (λ q. record q { need_reconfig = 1 }) w h' (λ q. refl)
                (λ q. refl) (λ q. refl))
      ]
    ]

QueueSetup-cases :
    (x : QueueSetup) → (x ≡ QueueSetup.done) ⊎ (x ≡ QueueSetup.no_pool) ⊎ (x ≡ QueueSetup.failed)
QueueSetup-cases QueueSetup.done = inl refl
QueueSetup-cases QueueSetup.no_pool = inr (inl refl)
QueueSetup-cases QueueSetup.failed = inr (inr refl)

setup_queues-Prepared :
    (d : Driver) (pi : ℕ) (s : Ports)
    → status_of s pi ≡ Status.handling
    → Prepared d pi s (setup_queues d pi s)
unfolding setup_queues status_of
setup_queues-Prepared d pi s h =
    let port = record (s.ports pi) { need_reconfig_queues = 0 } in
    let s1 = set_port s pi port in
    let tx = setup_tx_queues d pi s.nb_txq 0 s1 in
    let rx = setup_rx_queues d pi s.nb_rxq 0 tx.0 in
    let qt = setup_tx_queues-Quiet d pi s.nb_txq 0 s1 in
    let qr = setup_rx_queues-Quiet d pi s.nb_rxq 0 tx.0 in
    let h1 : status_of s1 pi ≡ Status.handling =
      ap (λ x. x.port_status) (set_port_self s pi port) ∙ h in
    let wt =
      trans-Wrote d pi s s1 tx.0 (set_port-Wrote d pi s port refl refl)
        (Quiet-Wrote d pi s1 tx.0 qt) in
    let wr = trans-Wrote d pi s tx.0 rx.0 wt (Quiet-Wrote d pi tx.0 rx.0 qr) in
    let ht : status_of tx.0 pi ≡ Status.handling = ap (λ f. (f pi).port_status) qt.ports ∙ h1 in
    let hr : status_of rx.0 pi ≡ Status.handling = ap (λ f. (f pi).port_status) qr.ports ∙ ht in
    elim (Bool-cases ((s.ports pi).need_reconfig_queues == 0)) [
      | inl x ↦ rw x (
          on-Prepared d pi s s
            (record { others = λ p ne. refl; enabled = refl; slave = refl; runs = λ p. refl }) h)
      | inr x ↦ elim (Bool-cases tx.1) [
        | inr y ↦
            rw (x, y)
              (set_back d pi s tx.0 (λ q. record q { need_reconfig_queues = 1 }) wt ht (λ q. refl)
                (λ q. refl) (λ q. refl))
        | inl y ↦ elim (QueueSetup-cases rx.1) [
          | inl z ↦ rw (x, y, z) (on-Prepared d pi s rx.0 wr hr)
          | inr (inr z) ↦
              rw (x, y, z)
                (set_back d pi s rx.0 (λ q. record q { need_reconfig_queues = 1 }) wr hr (λ q. refl)
                  (λ q. refl) (λ q. refl))
          | inr (inl z) ↦
              rw (x, y, z)
                (record {
                  wrote = wr;
                  on = λ e. absurd (cc);
                  not_started = λ e. let x = sym hr ∙ e in absurd (cc);
                  off = λ pools e. absurd (setup_rx_queues-pool d pi s.nb_rxq 0 tx.0 pools z);
                })
        ]
      ]
    ]

-- What a written port keeps, if it was stopped before and its status is now `x`.
Wrote-Keeps :
    (d : Driver) (pi p : ℕ) (s t : Ports)
    → Wrote d pi s t
    → status_of s pi ≡ Status.stopped
    → status_of t pi ≢ Status.started
    → (Pools d → status_of t pi ≢ Status.handling)
    → Keeps d p s t
Wrote-Keeps d pi p s t w h ne settled = elim (eq-cases p pi) [
  | inr other ↦ same-Keeps d p s t (w.others p other) (w.runs p)
  | inl e ↦ rw e (record {
    enabled = w.enabled;
    slave = w.slave;
    consistent = λ c. w.runs pi ∙ c ∙ rw (h, is_ne (status_of t pi) Status.started ne) refl;
    stuck = λ x. let y = sym h ∙ x in absurd (cc);
    settled = λ pools x. settled pools;
  })
]

-- The device is started, or not.
start_device-Keeps :
    (d : Driver) (pi p : ℕ) (s t : Ports)
    → Wrote d pi s t
    → status_of s pi ≡ Status.stopped
    → status_of t pi ≡ Status.handling
    → Keeps d p s (start_device d pi t)
unfolding start_device running
start_device-Keeps d pi p s t w h on =
    let c = Call.start pi in
    let free = not_handling (status_of s pi) Status.stopped h (λ e. absurd (cc)) in
    let quiet = λ (q : ℕ) (ne : q ≢ pi). ne→== pi q (λ e. ne (sym e)) in
    elim (Bool-cases (d.succeeds t.calls c)) [
      | inl y ↦ rw y (
          finish-Keeps d pi p s t c Status.started w free on (λ e. absurd (cc))
            (λ q ne. rw (quiet q ne) refl) (λ x. rw (eq→== pi pi refl, y) refl))
      | inr y ↦ rw y (
          finish-Keeps d pi p s t c Status.stopped w free on (λ e. absurd (cc))
            (λ q ne. rw (quiet q ne) refl)
            (λ x. rw (eq→== pi pi refl, y) (w.runs pi ∙ x ∙ rw h refl)))
    ]

pub start_one-Keeps : (d : Driver) (pi p : ℕ) (s : Ports) → Keeps d p s (start_one d pi s).0
unfolding start_one
start_one-Keeps d pi p s = elim (status-cases (status_of s pi) Status.stopped) [
  | inr ne ↦ rw (cmpset-miss s pi Status.stopped Status.handling ne) (refl-Keeps d p s)
  | inl h ↦
      let s1 = (cmpset s pi Status.stopped Status.handling).0 in
      let hit : (cmpset s pi Status.stopped Status.handling).1 ≡ true =
        ap (λ r. r.1) (cmpset-hit s pi Status.stopped Status.handling h) in
      let w1 = cmpset-Wrote d pi s Status.stopped Status.handling h in
      let c = configure_port d pi s1 in
      let fc =
        configure_port-Prepared d pi s1 (status-cmpset s pi Status.stopped Status.handling h) in
      let wc = trans-Wrote d pi s s1 c.0 w1 fc.wrote in
      elim (Bool-cases c.1) [
        | inr y ↦
            rw (hit, y)
              (Wrote-Keeps d pi p s c.0 wc h fc.not_started (λ pools.
                not_handling (status_of c.0 pi) Status.stopped (fc.off pools y) (λ e. absurd (cc))))
        | inl y ↦
            let q = setup_queues d pi c.0 in
            let fq = setup_queues-Prepared d pi c.0 (fc.on y) in
            let wq = trans-Wrote d pi s c.0 q.0 wc fq.wrote in
            elim (Bool-cases q.1) [
              | inr z ↦
                  rw (hit, y, z)
                    (Wrote-Keeps d pi p s q.0 wq h fq.not_started (λ pools.
                      not_handling (status_of q.0 pi) Status.stopped (fq.off pools z)
                        (λ e. absurd (cc))))
              | inl z ↦ rw (hit, y, z) (start_device-Keeps d pi p s q.0 wq h (fq.on z))
            ]
      ]
]
