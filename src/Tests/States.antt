-- ===== src/Tests/States.antt =====
-- Two ports that are stopped, with drivers that do all that they are asked for.
use platform.Common.{ℕ, ◌≡◌, ◌≢◌, refl, arith, true, false, Bool, ltb, List, [], ◌∷◌}
use platform.PortState.{Status, Driver, Ports, status_of, is}
use platform.PortState.Keeps.{running}
use platform.PortState.Operations.{start_port, pmd_test_exit}
use platform.PortState.Operations.Sequence.{
  Operation, perform_all, device_follows_status, operations_settle,
}
use platform.PortState.Operations.Stuck.{no_pool_sticks}
use platform.PortState.Operations.Exit.{exit_closes}

-- A driver with pools of packets or without.
abbrev willing : Bool → Driver
willing pools = record {
  succeeds = λ calls c. true;
  mbuf_pool_find = λ socket. pools;
  bonded = λ p. false;
  attached = λ calls. 2;
  socket_of = λ p. 0;
  dev_count = λ calls. 2;
}

abbrev two_stopped : Ports
two_stopped = record {
  ports = λ p. record {
    enabled = ltb p 2;
    port_status = Status.stopped;
    need_reconfig = 1;
    need_reconfig_queues = 1;
    slave_flag = 0;
    socket_id = 0;
  };
  nb_ports = 2;
  nb_rxq = 1;
  nb_txq = 1;
  rx_numa = λ p. false;
  rxring_numa = λ p. 0;
  dcb_config = false;
  dcb_test = false;
  test_done = false;
  forwarding = record { fwd_ports_ids = λ j. j; nb_fwd_ports = 2; nb_cfg_ports = 2 };
  calls = [];
}

-- All ports are started, one is stopped and closed, and all are started again.
abbrev some_operations : List Operation
some_operations =
    Operation.starting 255
    ∷ Operation.stopping 0
    ∷ Operation.closing 0
    ∷ Operation.starting 255
    ∷ []

nothing_runs : (p : ℕ) → running (willing true) [] p ≡ is (status_of two_stopped p) Status.started
unfolding running status_of
nothing_runs p = refl

none_handling : (p : ℕ) → status_of two_stopped p ≢ Status.handling
unfolding status_of
none_handling p e = cc

device_follows_status_example :
    running (willing true) (perform_all 32 (willing true) some_operations two_stopped).calls 0
    ≡ is (status_of (perform_all 32 (willing true) some_operations two_stopped) 0) Status.started
device_follows_status_example =
    device_follows_status 32 (willing true) some_operations two_stopped nothing_runs 0

operations_settle_example :
    status_of (perform_all 32 (willing true) some_operations two_stopped) 0 ≢ Status.handling
operations_settle_example =
    operations_settle 32 (willing true) some_operations two_stopped (λ socket. refl) none_handling 0

stopped_0 : status_of two_stopped 0 ≡ Status.stopped
unfolding status_of
stopped_0 = refl

no_pool_sticks_example :
    ((start_port 32 (willing false) 0 two_stopped).1 ≡ false)
    × (status_of
          (perform_all 32
            (willing false)
            some_operations
            (start_port 32 (willing false) 0 two_stopped).0)
          0
        ≡ Status.handling)
no_pool_sticks_example =
    no_pool_sticks 32 (willing false) 0 two_stopped some_operations (λ calls c. refl)
      (λ socket. refl) (omega arith) (λ e. absurd (omega (arith, e))) refl stopped_0
      (λ e. absurd (omega (arith, e))) (omega arith)

exit_closes_example : status_of (pmd_test_exit 32 (willing true) two_stopped) 1 ≡ Status.closed
exit_closes_example =
    exit_closes 32 (willing true) two_stopped (omega arith) (λ p h. refl) (λ p h. refl)
      (λ p h. none_handling p) 1 (omega arith) refl
