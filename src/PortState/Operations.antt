-- ===== src/PortState/Operations.antt =====
-- The operations on the ports: `start_port`, `stop_port`, `close_port`, `attach_port`, `detach_port`
-- and `pmd_test_exit` of src/CaptureDpdk/dpdk.c. The checks of the link status and the addresses that
-- are printed are left out.
pub mod Quiet
pub mod Start
pub mod Sequence
pub mod Stuck
pub mod Alone
pub mod Exit
use platform.Common.{
  ℕ, zero, suc, ◌+◌, ◌%◌, ◌^◌, Bool, true, false, not, ◌&&◌, ◌||◌, ltb, ◌==◌, if◌then◌else◌,
}
use platform.Common.{Outcome, ok, ◌>>=◌}
use platform.Forwarding.{port_all, update_fwd_ports}
use platform.PortState.{
  Status, Port, Call, Driver, Ports, set_port, cmpset, call, foreach_port, invalid,
}
use platform.PortState.{port_is_closed, port_is_forwarding, port_is_bonding_slave}

-- The loop over the queues that send, `n` of them from `qi` on.
pub setup_tx_queues : Driver → ℕ → ℕ → ℕ → Ports → Ports × Bool
setup_tx_queues d pi zero qi s = (s, true)
setup_tx_queues d pi (suc n) qi s =
    let c = Call.tx_queue_setup pi qi in
    let rest = setup_tx_queues d pi n (qi + 1) (call s c) in
    if d.succeeds s.calls c then rest else (call s c, false)

-- How the set-up of the queues that receive ends.
pub data QueueSetup : Type 0 where
  done no_pool failed : QueueSetup

-- The loop over the queues that receive, which need a pool on their socket.
pub setup_rx_queues : Driver → ℕ → ℕ → ℕ → Ports → Ports × QueueSetup
setup_rx_queues d pi zero qi s = (s, QueueSetup.done)
setup_rx_queues d pi (suc n) qi s =
    let c = Call.rx_queue_setup pi qi in
    let rest = setup_rx_queues d pi n (qi + 1) (call s c) in
    let socket = if s.rx_numa pi then s.rxring_numa pi else (s.ports pi).socket_id in
    if not (d.mbuf_pool_find socket)
    then (s, QueueSetup.no_pool)
    else if d.succeeds s.calls c
    then rest
    else (call s c, QueueSetup.failed)

-- The port is set back to stopped, and its queues are to be set up next time.
abbrev pub queues_failed : Ports → ℕ → Ports
queues_failed s pi =
    let s' = (cmpset s pi Status.handling Status.stopped).0 in
    set_port s' pi (record (s'.ports pi) { need_reconfig_queues = 1 })

-- The configuration of a port: the state, and whether `start_port` goes on.
pub configure_port : Driver → ℕ → Ports → Ports × Bool
configure_port d pi s =
    let c = Call.configure pi in
    let s1 = set_port s pi (record (s.ports pi) { need_reconfig = 0 }) in
    if (s.ports pi).need_reconfig == 0
    then (s, true)
    else if d.succeeds s.calls c
    then (call s1 c, true)
    else let s2 = (cmpset (call s1 c) pi Status.handling Status.stopped).0 in
      (set_port s2 pi (record (s2.ports pi) { need_reconfig = 1 }), false)

-- The set-up of its queues.
pub setup_queues : Driver → ℕ → Ports → Ports × Bool
setup_queues d pi s =
    if (s.ports pi).need_reconfig_queues == 0
    then (s, true)
    else let tx =
        setup_tx_queues d pi s.nb_txq 0
          (set_port s pi (record (s.ports pi) { need_reconfig_queues = 0 })) in
      let rx = setup_rx_queues d pi s.nb_rxq 0 tx.0 in
      if not tx.1 then (queues_failed tx.0 pi, false) else elim rx.1 [
        | QueueSetup.failed ↦ (queues_failed rx.0 pi, false)
        | QueueSetup.no_pool ↦ (rx.0, false)
        | QueueSetup.done ↦ (rx.0, true)
      ]

-- The device is started.
pub start_device : Driver → ℕ → Ports → Ports
start_device d pi s =
    let c = Call.start pi in
    if d.succeeds s.calls c
    then (cmpset (call s c) pi Status.handling Status.started).0
    else (cmpset (call s c) pi Status.handling Status.stopped).0

-- The body of the loop of `start_port` for a port that it is called for.
pub start_one : Driver → ℕ → Ports → Ports × Bool
start_one d pi s =
    let r = cmpset s pi Status.stopped Status.handling in
    if not r.1
    then (s, true)
    else let c = configure_port d pi r.0 in
      if not c.1
      then c
      else let q = setup_queues d pi c.0 in if not q.1 then q else (start_device d pi q.0, true)

-- Whether the operation is called for the port.
abbrev pub applies : ℕ → ℕ → Bool
applies pid pi = pid == pi || pid == port_all

-- The result is whether the function returns 0.
pub start_port : ℕ → Driver → ℕ → Ports → Ports × Bool
start_port max d pid s =
    if invalid max s pid
    then (s, true)
    else foreach_port max 0 (λ pi t. if applies pid pi then start_one d pi t else (t, true))
        (if s.dcb_config then record s { dcb_test = true } else s)

-- A port that takes part in forwarding while it goes on, or is a slave, is left alone.
pub busy : ℕ → Driver → Ports → ℕ → Bool
busy max d s pi = (port_is_forwarding max s pi && not s.test_done) || port_is_bonding_slave d s pi

-- The body of the loop of `stop_port`.
pub stop_one : ℕ → Driver → ℕ → Ports → Ports
stop_one max d pi s =
    if busy max d s pi
    then s
    else let r = cmpset s pi Status.started Status.handling in
      if r.1 then (cmpset (call r.0 (Call.stop pi)) pi Status.handling Status.stopped).0 else s

pub stop_port : ℕ → Driver → ℕ → Ports → Ports
stop_port max d pid s =
    let s' = if s.dcb_test then record s { dcb_test = false; dcb_config = false } else s in
    if invalid max s' pid
    then s'
    else (foreach_port max 0
        (λ pi t. if applies pid pi then (stop_one max d pi t, true) else (t, true)) s').0

-- The body of the loop of `close_port`.
pub close_one : ℕ → Driver → ℕ → Ports → Ports
close_one max d pi s =
    if busy max d s pi
    then s
    else if (cmpset s pi Status.closed Status.closed).1
    then s
    else let r = cmpset s pi Status.stopped Status.handling in
      if r.1 then (cmpset (call r.0 (Call.close pi)) pi Status.handling Status.closed).0 else s

pub close_port : ℕ → Driver → ℕ → Ports → Ports
close_port max d pid s =
    if invalid max s pid
    then s
    else (foreach_port max 0
        (λ pi t. if applies pid pi then (close_one max d pi t, true) else (t, true)) s).0

-- `named` tells whether an identifier is given, and `socket_ok` which sockets there are. Of
-- `reconfig` the flags and the socket are modelled, not the settings that it writes.
pub attach_port : ℕ → Driver → Bool → (ℕ → Bool) → Ports → Outcome Ports
attach_port max d named socket_ok s =
    let pi = d.attached s.calls in
    let s1 = call s Call.attach in
    let socket = if socket_ok (d.socket_of pi) then d.socket_of pi else 0 in
    let s2 = set_port s1 pi (record (s1.ports pi) {
      enabled = true;
      need_reconfig = 1;
      need_reconfig_queues = 1;
      socket_id = socket;
      port_status = Status.stopped;
    }) in
    if not named then ok s else if not (d.succeeds s.calls Call.attach) then ok s1 else do
      fwd ← update_fwd_ports (λ p. (s2.ports p).enabled) max pi s2.forwarding
      ok (record s2 { nb_ports = d.dev_count s1.calls; forwarding = fwd })

pub detach_port : ℕ → Driver → ℕ → Ports → Outcome Ports
detach_port max d port_id s =
    let c = Call.detach port_id in
    let s1 = call s c in
    let s2 = set_port s1 port_id (record (s1.ports port_id) { enabled = false }) in
    if not (port_is_closed max s port_id)
    then ok s
    else if not (d.succeeds s.calls c)
    then ok s1
    else do
      fwd ← update_fwd_ports (λ p. (s2.ports p).enabled) max max s2.forwarding
      ok (record s2 { nb_ports = d.dev_count s1.calls; forwarding = fwd })

-- Of `stop_packet_forwarding`, which is called where forwarding goes on, only that it is done then is
-- modelled.
pub pmd_test_exit : ℕ → Driver → Ports → Ports
pmd_test_exit max d s =
    (foreach_port max 0 (λ pi t. (close_port max d pi (stop_port max d pi t), true))
      (if s.test_done then s else record s { test_done = true })).0
