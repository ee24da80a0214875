-- ===== src/Settings/Mappings.antt =====
-- The counters that the queues of the ports are mapped to: `set_qmap` of src/CaptureDpdk/config.c,
-- which keeps them in two tables, and `map_port_queue_stats_mapping_registers` of
-- src/CaptureDpdk/dpdk.c, which passes them to the device. Parameters: the number of counters of a
-- device, the value of `-ENOTSUP`, and what the device answers.
pub mod Lookup
pub mod Registers
use platform.Common.{ℕ, zero, suc, ◌+◌, ◌%◌, ◌^◌, List, [], ◌∷◌, Option, none, some}
use platform.Common.{Outcome, ok, exited, fault, ◌>>=◌, Bool, true, false, not, load, store}
use platform.Common.{leb, ltb, ◌==◌, ◌&&◌, if◌then◌else◌}
use platform.Common.Int.{ℤ, pos, eqb_ℤ}
use platform.Forwarding.{port_id_is_invalid}

-- `struct queue_stats_mappings`
pub record Mapping : Type 0 where
  pub port_id : ℕ
  pub queue_id : ℕ
  pub stats_counter_id : ℕ

-- A table with its number of entries, and its size: 1024 to send and 4096 to receive.
pub record Mappings : Type 0 where
  pub entries : ℕ → Mapping
  pub number : ℕ

abbrev pub max_tx_mappings : ℕ
max_tx_mappings = 1024

abbrev pub max_rx_mappings : ℕ
max_rx_mappings = 4096

abbrev pub is_for : ℕ → ℕ → Mapping → Bool
is_for port_id queue_id e = e.port_id == port_id && e.queue_id == queue_id

-- The loop over `n` entries from `i` on, up to the `break`.
pub find_mapping : ℕ → ℕ → ℕ → ℕ → (ℕ → Mapping) → Option ℕ
find_mapping zero i port_id queue_id entries = none
find_mapping (suc n) i port_id queue_id entries =
    let rest = find_mapping n (i + 1) port_id queue_id entries in
    if is_for port_id queue_id (entries i) then some i else rest

-- The entry that is found is changed, or an entry is added. The number is a `uint16_t`.
unfoldable pub set_entry : ℕ → ℕ → ℕ → ℕ → Option ℕ → Mappings → Outcome Mappings
set_entry size port_id queue_id map_value (some i) m = do
  e ← load size m.entries i
  entries ← store size m.entries i (record e { stats_counter_id = map_value })
  ok (record m { entries = entries })
set_entry size port_id queue_id map_value none m = do
  entries ←
      store size m.entries m.number
        (record { port_id = port_id; queue_id = queue_id; stats_counter_id = map_value })
  ok (record { entries = entries; number = (m.number + 1) % 2 ^ 16 })

pub set_mapping : ℕ → ℕ → ℕ → ℕ → Mappings → Outcome Mappings
set_mapping size port_id queue_id map_value m =
    set_entry size port_id queue_id map_value (find_mapping m.number 0 port_id queue_id m.entries) m

-- The globals.
pub record QueueStats : Type 0 where
  pub enabled : ℕ → Bool
  pub nb_rxq : ℕ
  pub nb_txq : ℕ
  pub tx : Mappings
  pub rx : Mappings

-- `rx_queue_id_is_invalid` and `tx_queue_id_is_invalid`, for the number of queues.
unfoldable pub queue_id_is_invalid : ℕ → ℕ → Bool
queue_id_is_invalid nb_queues queue_id = not (ltb queue_id nb_queues)

pub set_qmap : ℕ → ℕ → ℕ → Bool → ℕ → ℕ → QueueStats → Outcome QueueStats
set_qmap max counters port_id is_rx queue_id map_value s =
    if port_id_is_invalid s.enabled max port_id
    then ok s
    else if queue_id_is_invalid (if is_rx then s.nb_rxq else s.nb_txq) queue_id
    then ok s
    else if leb counters map_value
    then ok s
    else if is_rx
    then (do
      m ← set_mapping max_rx_mappings port_id queue_id map_value s.rx
      ok (record s { rx = m }))
    else (do
      m ← set_mapping max_tx_mappings port_id queue_id map_value s.tx
      ok (record s { tx = m }))

-- The calls of the device: to send or to receive, with the port, the queue and the counter.
pub data MapCall : Type 0 where
  set_tx_mapping set_rx_mapping : ℕ → ℕ → ℕ → MapCall

-- How a pass over a table ends: with what the device refused it, or whether it had an entry.
pub data Pass : Type 0 where
  refused : ℤ → Pass
  passed : Bool → Pass

module _ (answer : List MapCall → MapCall → ℤ) where
  -- The loop over `n` entries from `i` on.
  pub set_registers :
      (ℕ → ℕ → ℕ → MapCall)
      → ℕ
      → ℕ
      → ℕ
      → ℕ
      → (ℕ → Mapping)
      → Bool
      → List MapCall
      → List MapCall × Pass
  set_registers call nb_queues port_id zero i entries found calls = (calls, Pass.passed found)
  set_registers call nb_queues port_id (suc n) i entries found calls =
      let e = entries i in
      let c = call port_id e.queue_id e.stats_counter_id in
      let skipped = set_registers call nb_queues port_id n (i + 1) entries found calls in
      let done = set_registers call nb_queues port_id n (i + 1) entries true (c ∷ calls) in
      if e.port_id == port_id && ltb e.queue_id nb_queues
      then (if eqb_ℤ (answer calls c) (pos 0)
          then done
          else (c ∷ calls, Pass.refused (answer calls c)))
      else skipped

  -- What `tx_queue_stats_mapping_enabled` or its like is then, from what it was. A device that does
  -- not support the mapping is no failure.
  unfoldable pub enabled_after : ℤ → Bool → List MapCall × Pass → Outcome (Bool × List MapCall)
  enabled_after not_supported before (calls, Pass.passed found) =
      ok (if found then true else before, calls)
  enabled_after not_supported before (calls, Pass.refused diag) =
      if eqb_ℤ diag not_supported then ok (false, calls) else exited

  -- The two flags of the port, to send and to receive.
  pub map_registers :
      ℤ → ℕ → QueueStats → Bool × Bool → List MapCall → Outcome (Bool × Bool × List MapCall)
  map_registers not_supported pi s (tx_enabled, rx_enabled) calls = do
    (tx_after, calls1) ←
        enabled_after not_supported tx_enabled
          (set_registers MapCall.set_tx_mapping s.nb_txq pi s.tx.number 0 s.tx.entries false calls)
    (rx_after, calls2) ←
        enabled_after not_supported rx_enabled
          (set_registers MapCall.set_rx_mapping s.nb_rxq pi s.rx.number 0 s.rx.entries false calls1)
    ok (tx_after, rx_after, calls2)
