-- ===== src/Tests/Setting.antt =====
-- Shared memory that has been used.
use platform.Setup.{Shared}

-- Shared memory with old counts.
abbrev pub used : Shared
used = record {
  port_num = 9;
  queue_num = λ p. 9;
  ring_num = λ p. 9;
  before_ring = λ p r. 9;
  count_ring = λ p r. 9;
  after_ring = λ p r. 9;
  eth_queue = λ p q. 9;
}
