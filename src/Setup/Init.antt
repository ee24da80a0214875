-- ===== src/Setup/Init.antt =====
-- `dpdk_init` of src/CaptureDpdk/dpdk.c: the parts of the start in their order. Parameters: what
-- `rte_eal_init` returns, whether the process is the primary one, how many ports there are, whether
-- the pool of packets is made, and what the options, the configuration, the driver and the rings are.
pub mod Ready
use platform.Common.{ℕ, ◌*◌, ◌%◌, ◌^◌, List, [], Option, none, some, Bool, not}
use platform.Common.{Outcome, ok, exited, fault, ◌>>=◌, if◌then◌else◌}
use platform.Common.Int.{ℤ, pos, negsuc, ltb_ℤ}
use platform.Double.{Double}
use platform.PortTable.{Uthash, Item}
use platform.Device.{Context}
use platform.Arguments.{Strto, Opt, parse_args, timer_millisecond}
use platform.Choice.Init.{choice_init}
use platform.Capture.Role.{Role, main_loop}
use platform.Setup.{list_ports, Shared, shard_init}
use platform.Setup.Drive.{Call, init_ports}
use platform.Setup.Buffers.{RingLibrary, Buffers, init_buffers}

-- What `calloc` returns.
abbrev pub zeroed_context : Context
zeroed_context = record {
  nb_ports = 0;
  enabled_port_mask = 0;
  timer_period = pos 0;
  port_list = λ p. 0;
  port_num = 0;
  start = 0;
  end = 0;
  thread_mode = 0;
  queue_mode = 0;
  ring_num = 0;
  port_ringnum = λ p. 0;
  port_queuenum = λ p. 0;
  core_portnum = λ c. 0;
  core_queuenum = λ c. 0;
  thread_portnum = λ k. 0;
  thread_ringnum = λ k. 0;
}

-- Up to the call of `l2fwd_parse_args`. `Thread_num` is an `int`.
abbrev pub prepared : ℕ → Context
prepared threads = record zeroed_context {
  timer_period = pos (10 * timer_millisecond * 1000);
  ring_num = threads % 2 ^ 32;
}

abbrev pub zeroed_buffers : {Ring : Type 0} (lib : RingLibrary Ring) → Buffers lib
zeroed_buffers lib = record {
  rxsize = λ p. 0;
  before_enqueue = λ p q. 0;
  after_enqueue = λ p q. 0;
  after_dequeue = λ p q. 0;
  rx_queue = λ p q. 0;
  sleep_num = 0;
  no_sleep_num = 0;
  packet_num = λ n. 0;
  txring = λ p q. none;
  rxring = λ p q. none;
  made = [];
}

-- What is outside the program when `dpdk_init` is called.
pub record Machine (d : Double) (u : Uthash d) (Ring : Type 0) : Type 0 where
  pub eal_init : ℤ
  pub is_primary : Bool
  pub strto : Strto
  pub dev_count : ℕ
  pub has_pool : Bool
  pub file : Option (Option (List (Item d)))
  pub table : u.Table
  pub link_speed : ℕ → ℕ
  pub answer : List Call → Call → ℤ
  pub rings : RingLibrary Ring
  pub shared : Shared

module _ {d : Double} {u : Uthash d} {Ring : Type 0} (m : Machine d u Ring) where
  open m use {eal_init, is_primary, strto, dev_count, has_pool, file, table, link_speed}
  open m use {answer, rings, shared}

  -- What stands when `dpdk_init` returns 0: the context, the calls of the driver, the shared memory,
  -- the rings and counters, what `*Start` and `*End` are set to, and the loop of each core that
  -- `rte_eal_mp_remote_launch` starts.
  pub record Daq : Type 0 where
    pub context : Context
    pub calls : List Call
    pub st : Shared
    pub buffers : Buffers rings
    pub first_core : ℕ
    pub last_core : ℕ
    pub role : ℕ → Role

  -- What `dpdk_init` returns: 1 in a process that is not the primary one, else 0.
  pub data Returned : Type 0 where
    one : Returned
    zero_with : Daq → Returned

  -- From `choice_init` on.
  pub start_daq : Context → Outcome Returned
  start_daq listed = do
    (ctx, weights) ← choice_init d u link_speed dev_count file table listed
    calls ← init_ports answer dev_count ctx dev_count 0 []
    st ← shard_init ctx shared
    buffers ← init_buffers rings ctx (zeroed_buffers rings)
    ok (
        Returned.zero_with (record {
          context = ctx;
          calls = calls;
          st = st;
          buffers = buffers;
          first_core = ctx.start;
          last_core = ctx.end;
          role = main_loop ctx;
        }))

  -- After `l2fwd_parse_args`.
  unfoldable accepted : Option Context → Outcome Returned
  accepted none = exited
  accepted (some ctx) = if not has_pool then exited else (do
    listed ← list_ports dev_count 0 (record ctx { nb_ports = dev_count })
    start_daq listed)

  pub dpdk_init : List Opt → ℕ → Outcome Returned
  dpdk_init opts threads =
      if ltb_ℤ eal_init (pos 0)
      then exited
      else if not is_primary
      then ok Returned.one
      else (do parsed ← parse_args strto opts (prepared threads); accepted parsed)
