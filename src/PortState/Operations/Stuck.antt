-- ===== src/PortState/Operations/Stuck.antt =====
-- A port for whose queues no pool of packets is found.
use platform.Common.{
  ℕ, zero, suc, ◌+◌, ◌<◌, ◌≡◌, ◌≢◌, refl, ◌∙◌, sym, ap, Bool, true, false, ◌==◌, if◌then◌else◌,
  List, arith,
}
use platform.Common.{Bool-cases, eq→==, ne→==, lt→ltb, inl, inr}
use mathlib.Core.Path.{subst}
use platform.Forwarding.{port_all, port_id_is_invalid}
use platform.PortState.{
  Status, Call, Driver, Ports, status_of, call, set_port, cmpset, foreach_port, invalid,
}
use platform.PortState.Keeps.{cmpset-hit, set_port_self}
use platform.PortState.Wrote.{status-cmpset}
use platform.PortState.Operations.{
  QueueSetup, setup_tx_queues, setup_rx_queues, configure_port, setup_queues, start_one, start_port,
  applies,
}
use platform.PortState.Operations.Quiet.{setup_tx_queues-Quiet, setup_rx_queues-Quiet}
use platform.PortState.Operations.Start.{configure_port-Prepared}
use platform.PortState.Operations.Sequence.{Operation, perform_all, perform_all-Keeps}

-- A loop that does nothing at the other ports comes to the port, and leaves there.
pub foreach_port-reaches :
    (n i k pid : ℕ) (body : ℕ → Ports → Ports × Bool) (s : Ports)
    → i + k ≡ pid
    → k < n
    → (s.ports pid).enabled ≡ true
    → ((j : ℕ) → j ≢ pid → body j s ≡ (s, true))
    → (body pid s).1 ≡ false
    → foreach_port n i body s ≡ body pid s
unfolding foreach_port
foreach_port-reaches zero i k pid body s e lt on past off = absurd (omega arith)
foreach_port-reaches (suc n) i zero pid body s e lt on past off =
    let here : i ≡ pid = omega (arith, e) in rw (here, on, off) refl
foreach_port-reaches (suc n) i (suc k) pid body s e lt on past off =
    let rest =
      foreach_port-reaches n (i + 1) k pid body s (omega (arith, e)) (omega arith) on past off in
    elim (Bool-cases (s.ports i).enabled) [
      | inr x ↦ rw x rest
      | inl x ↦ rw (x, past i (λ y. absurd (omega (arith, e, y)))) rest
    ]

module _ (d : Driver) (all_succeed : (calls : List Call) (c : Call) → d.succeeds calls c ≡ true)
    (no_pools : (socket : ℕ) → d.mbuf_pool_find socket ≡ false) where
  setup_tx_queues-true : (pi n qi : ℕ) (s : Ports) → (setup_tx_queues d pi n qi s).1 ≡ true
  unfolding setup_tx_queues
  setup_tx_queues-true pi zero qi s = refl
  setup_tx_queues-true pi (suc n) qi s =
      rw (all_succeed s.calls (Call.tx_queue_setup pi qi))
        (setup_tx_queues-true pi n (qi + 1) (call s (Call.tx_queue_setup pi qi)))

  setup_rx_queues-no_pool :
      (pi n qi : ℕ) (s : Ports) → 0 < n → (setup_rx_queues d pi n qi s).1 ≡ QueueSetup.no_pool
  unfolding setup_rx_queues
  setup_rx_queues-no_pool pi zero qi s h = absurd (omega arith)
  setup_rx_queues-no_pool pi (suc n) qi s h =
      rw (no_pools (if s.rx_numa pi then s.rxring_numa pi else (s.ports pi).socket_id)) refl

  setup_queues-no_pool :
      (pi : ℕ) (s : Ports)
      → status_of s pi ≡ Status.handling
      → (s.ports pi).need_reconfig_queues ≢ 0
      → 0 < s.nb_rxq
      → ((setup_queues d pi s).1 ≡ false) × (status_of (setup_queues d pi s).0 pi ≡ Status.handling)
  unfolding setup_queues status_of
  setup_queues-no_pool pi s h need some =
      let port = record (s.ports pi) { need_reconfig_queues = 0 } in
      let s1 = set_port s pi port in
      let tx = setup_tx_queues d pi s.nb_txq 0 s1 in
      let rx = setup_rx_queues d pi s.nb_rxq 0 tx.0 in
      let et = setup_tx_queues-true pi s.nb_txq 0 s1 in
      let er = setup_rx_queues-no_pool pi s.nb_rxq 0 tx.0 some in
      let qt = setup_tx_queues-Quiet d pi s.nb_txq 0 s1 in
      let qr = setup_rx_queues-Quiet d pi s.nb_rxq 0 tx.0 in
      let h' : status_of rx.0 pi ≡ Status.handling =
        ap (λ f. (f pi).port_status) (qr.ports ∙ qt.ports)
        ∙ ap (λ x. x.port_status) (set_port_self s pi port)
        ∙ h in
      rw (ne→== (s.ports pi).need_reconfig_queues 0 need, et, er) (refl, h')

  -- What is known of the port.
  record Ready (pi : ℕ) (s : Ports) : Type 0 where
    enabled : (s.ports pi).enabled ≡ true
    stopped : status_of s pi ≡ Status.stopped
    need : (s.ports pi).need_reconfig_queues ≢ 0
    some : 0 < s.nb_rxq

  configure_port-need :
      (pi : ℕ) (s : Ports)
      → (s.ports pi).need_reconfig_queues ≢ 0
      → 0 < s.nb_rxq
      → let r = configure_port d pi s in
        (r.1 ≡ true) × ((r.0.ports pi).need_reconfig_queues ≢ 0) × (0 < r.0.nb_rxq)
  unfolding configure_port
  configure_port-need pi s need some = elim (Bool-cases ((s.ports pi).need_reconfig == 0)) [
    | inl x ↦ rw x (refl, need, some)
    | inr x ↦
        rw (x, all_succeed s.calls (Call.configure pi))
          (
            refl,
            (λ e. need (
                ap (λ q. q.need_reconfig_queues)
                  (sym (set_port_self s pi (record (s.ports pi) { need_reconfig = 0 })))
                ∙ e)),
            some,
          )
  ]

  start_one-no_pool :
      (pi : ℕ) (s : Ports)
      → Ready pi s
      → ((start_one d pi s).1 ≡ false) × (status_of (start_one d pi s).0 pi ≡ Status.handling)
  unfolding start_one
  start_one-no_pool pi s f =
      let s1 = (cmpset s pi Status.stopped Status.handling).0 in
      let hit = cmpset-hit s pi Status.stopped Status.handling f.stopped in
      let one = ap (λ r. r.1) hit in
      let h1 = status-cmpset s pi Status.stopped Status.handling f.stopped in
      let need : (s1.ports pi).need_reconfig_queues ≢ 0 = λ e. f.need (
        ap (λ q. q.need_reconfig_queues)
          (sym (
            ap (λ r. r.0.ports pi) hit
            ∙ set_port_self s pi (record (s.ports pi) { port_status = Status.handling })))
        ∙ e) in
      let some : 0 < s1.nb_rxq = subst (λ r. 0 < r.0.nb_rxq) (sym hit) f.some in
      let c = configure_port d pi s1 in
      let (go, need', some') = configure_port-need pi s1 need some in
      let on = (configure_port-Prepared d pi s1 h1).on go in
      let (q, stuck) = setup_queues-no_pool pi c.0 on need' some' in rw (one, go, q) (refl, stuck)

-- An enabled port is valid.
pub enabled_valid :
    (max pid : ℕ) (s : Ports)
    → pid < max
    → pid ≢ port_all
    → (s.ports pid).enabled ≡ true
    → invalid max s pid ≡ false
unfolding port_id_is_invalid
enabled_valid max pid s lt other on = rw (ne→== pid port_all other, lt→ltb pid max lt, on) refl

-- A fact about what a test chooses from.
pub either : (P : Ports → Type 0) (b : Bool) (s t : Ports) → P s → P t → P (if b then t else s)
either P true s t x y = y
either P false s t x y = x

-- If no socket has a pool of packets and all calls of the driver succeed, start_port for an
-- enabled stopped port below the greatest number and not 255, whose queues are to be set up and
-- which has one to receive, fails, and no sequence of calls of start_port, stop_port and
-- close_port takes the port out of its status of being handled.
pub no_pool_sticks :
    (max : ℕ) (d : Driver) (pid : ℕ) (s : Ports) (os : List Operation)
    → ((calls : List Call) (c : Call) → d.succeeds calls c ≡ true)
    → ((socket : ℕ) → d.mbuf_pool_find socket ≡ false)
    → pid < max
    → pid ≢ port_all
    → (s.ports pid).enabled ≡ true
    → status_of s pid ≡ Status.stopped
    → (s.ports pid).need_reconfig_queues ≢ 0
    → 0 < s.nb_rxq
    → ((start_port max d pid s).1 ≡ false)
      × (status_of (perform_all max d os (start_port max d pid s).0) pid ≡ Status.handling)
unfolding start_port status_of
no_pool_sticks max d pid s os succeed no_pools lt other on stopped need some =
    let t = record s { dcb_test = true } in
    let s' = if s.dcb_config then t else s in
    let ready : Ready d succeed no_pools pid s' =
      either (Ready d succeed no_pools pid) s.dcb_config s t
        (record { enabled = on; stopped = stopped; need = need; some = some })
        (record { enabled = on; stopped = stopped; need = need; some = some }) in
    let body = λ (i : ℕ) (u : Ports). if applies pid i then start_one d i u else (u, true) in
    let applies_self : (applies pid pid) ≡ true = rw (eq→== pid pid refl) refl in
    let past : (j : ℕ) → j ≢ pid → body j s' ≡ (s', true) =
      λ j ne. rw (ne→== pid j (λ x. ne (sym x)), ne→== pid port_all other) refl in
    let (off, stuck) = start_one-no_pool d succeed no_pools pid s' ready in
    let run : foreach_port max 0 body s' ≡ start_one d pid s' =
      foreach_port-reaches max 0 pid pid body s' (omega arith) lt ready.enabled past
        (rw applies_self off)
      ∙ rw applies_self refl in
    let all : start_port max d pid s ≡ start_one d pid s' =
      rw (enabled_valid max pid s lt other on) run in
    (
      ap (λ r. r.1) all ∙ off,
      (perform_all-Keeps max d os pid (start_port max d pid s).0).stuck
          (ap (λ r. status_of r.0 pid) all ∙ stuck),
    )
