-- ===== src/PortState.antt =====
-- The states of the ports: starting, stopping, closing, attaching and detaching them in
-- src/CaptureDpdk/dpdk.c. The driver is a parameter: how it answers depends on the calls made so far,
-- of which the model keeps a list, the last call first. `max` is `RTE_MAX_ETHPORTS`.
pub mod Operations
pub mod Keeps
pub mod Wrote
use platform.Common.{
  ℕ, zero, suc, ◌+◌, Bool, true, false, not, ◌&&◌, ◌||◌, ltb, ◌==◌, if◌then◌else◌,
}
use platform.Common.{List, [], ◌∷◌, Outcome, ok, ◌>>=◌, update}
use platform.Forwarding.{port_all, port_id_is_invalid, FwdPorts, update_fwd_ports}

pub data Status : Type 0 where
  stopped started closed handling : Status

pub Status-discrete : Discrete Status
Status-discrete = hlevel

-- `struct rte_port`, what bears on its state.
pub record Port : Type 0 where
  pub enabled : Bool
  pub port_status : Status
  pub need_reconfig : ℕ
  pub need_reconfig_queues : ℕ
  pub slave_flag : ℕ
  pub socket_id : ℕ

-- The calls of the driver for a port, and for one of its queues.
pub data Call : Type 0 where
  configure start stop close detach : ℕ → Call
  tx_queue_setup rx_queue_setup : ℕ → ℕ → Call
  attach : Call

-- What the driver and the pools of packets answer. `bonded` is the flag that the library keeps.
pub record Driver : Type 0 where
  pub succeeds : List Call → Call → Bool
  pub mbuf_pool_find : ℕ → Bool
  pub bonded : ℕ → Bool
  pub attached : List Call → ℕ
  pub socket_of : ℕ → ℕ
  pub dev_count : List Call → ℕ

-- The globals. `rx_socket` is the entry of `rxring_numa` where it counts, else the port's socket.
pub record Ports : Type 0 where
  pub ports : ℕ → Port
  pub nb_ports : ℕ
  pub nb_rxq : ℕ
  pub nb_txq : ℕ
  pub rx_numa : ℕ → Bool
  pub rxring_numa : ℕ → ℕ
  pub dcb_config : Bool
  pub dcb_test : Bool
  pub test_done : Bool
  pub forwarding : FwdPorts
  pub calls : List Call

unfoldable pub status_of : Ports → ℕ → Status
status_of s pi = (s.ports pi).port_status

abbrev pub set_port : Ports → ℕ → Port → Ports
set_port s pi port = record s { ports = update s.ports pi port }

abbrev pub set_status : Ports → ℕ → Status → Ports
set_status s pi status = set_port s pi (record (s.ports pi) { port_status = status })

abbrev pub is : Status → Status → Bool
is Status.stopped Status.stopped = true
is Status.started Status.started = true
is Status.closed Status.closed = true
is Status.handling Status.handling = true
is a b = false

-- `rte_atomic16_cmpset` on the status of a port, by its documentation: the status is set if it is the
-- expected one. The new state, and whether it was set.
pub cmpset : Ports → ℕ → Status → Status → Ports × Bool
cmpset s pi expected new =
    if is (s.ports pi).port_status expected then (set_status s pi new, true) else (s, false)

-- A call of the driver is made.
abbrev pub call : Ports → Call → Ports
call s c = record s { calls = c ∷ s.calls }

-- The loop `FOREACH_PORT` over the enabled ports, `n` places of the table from `pi` on; a body that
-- returns `false` leaves the function.
pub foreach_port : ℕ → ℕ → (ℕ → Ports → Ports × Bool) → Ports → Ports × Bool
foreach_port zero pi body s = (s, true)
foreach_port (suc n) pi body s =
    let r = if (s.ports pi).enabled then body pi s else (s, true) in
    let rest = foreach_port n (pi + 1) body r.0 in if r.1 then rest else r

-- `n` is the number of places from `p` on.
pub find_next_port : ℕ → ℕ → (ℕ → Port) → ℕ
find_next_port zero p ports = p
find_next_port (suc n) p ports =
    let rest = find_next_port n (p + 1) ports in if (ports p).enabled then p else rest

-- Whether all enabled ports that are no slaves have a status: `n` of them from `pi` on.
pub all_ports : Status → ℕ → ℕ → (ℕ → Port) → Bool
all_ports status zero pi ports = true
all_ports status (suc n) pi ports =
    let rest = all_ports status n (pi + 1) ports in
    let port = ports pi in
    if port.enabled && not (is port.port_status status) && (port.slave_flag == 0)
    then false
    else rest

abbrev pub invalid : ℕ → Ports → ℕ → Bool
invalid max s = port_id_is_invalid (λ p. (s.ports p).enabled) max

pub port_is_started : ℕ → Ports → ℕ → Bool
port_is_started max s port_id =
    if invalid max s port_id then false else is (s.ports port_id).port_status Status.started

pub port_is_closed : ℕ → Ports → ℕ → Bool
port_is_closed max s port_id =
    if invalid max s port_id then false else is (s.ports port_id).port_status Status.closed

-- Among `n` entries of the list of forwarding ports, from `i` on.
pub is_listed : ℕ → ℕ → (ℕ → ℕ) → ℕ → Bool
is_listed zero i ids port_id = false
is_listed (suc n) i ids port_id =
    let rest = is_listed n (i + 1) ids port_id in if ids i == port_id then true else rest

-- Whether what the function returns is not 0.
pub port_is_forwarding : ℕ → Ports → ℕ → Bool
port_is_forwarding max s port_id =
    if invalid max s port_id
    then true
    else is_listed s.forwarding.nb_fwd_ports 0 s.forwarding.fwd_ports_ids port_id

pub set_port_slave_flag : Ports → ℕ → Ports
set_port_slave_flag s pi = set_port s pi (record (s.ports pi) { slave_flag = 1 })

pub clear_port_slave_flag : Ports → ℕ → Ports
clear_port_slave_flag s pi = set_port s pi (record (s.ports pi) { slave_flag = 0 })

pub port_is_bonding_slave : Driver → Ports → ℕ → Bool
port_is_bonding_slave d s pi = d.bonded pi || (s.ports pi).slave_flag == 1
