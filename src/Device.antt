-- ===== src/Device.antt =====
-- The sizes and the context that the capture code works on: `struct dpdk_context_t` and
-- `struct shared_use_st` of include/CaptureDpdk/structure.h and shmdata.h, and the macros there.
-- The mbuf pool, the device configuration and the ring pointers are not fields: what the code does
-- with them stands in the modules that use them.
use platform.Common.{ℕ}
use platform.Common.Int.{ℤ}

abbrev pub port_size : ℕ
port_size = 16

abbrev pub core_size : ℕ
core_size = 1024

abbrev pub max_core_size : ℕ
max_core_size = 80

abbrev pub queue_size : ℕ
queue_size = 80

abbrev pub burst_size : ℕ
burst_size = 64

-- An array is a function of its index; its size is written at each access.
pub record Context : Type 0 where
  pub nb_ports : ℕ
  pub enabled_port_mask : ℕ
  pub timer_period : ℤ
  pub port_list : ℕ → ℕ
  pub port_num : ℕ
  pub start : ℕ
  pub end : ℕ
  pub thread_mode : ℕ
  pub queue_mode : ℕ
  pub ring_num : ℕ
  pub port_ringnum : ℕ → ℕ
  pub port_queuenum : ℕ → ℕ
  pub core_portnum : ℕ → ℕ
  pub core_queuenum : ℕ → ℕ
  pub thread_portnum : ℕ → ℕ
  pub thread_ringnum : ℕ → ℕ
