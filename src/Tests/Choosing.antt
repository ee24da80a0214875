-- ===== src/Tests/Choosing.antt =====
-- `choice_init` and its parts on two ten-gigabit ports.
use platform.Common.{ℕ, ◌+◌, ◌≤◌, ◌<◌, ◌≡◌, ◌%◌, ◌^◌, refl, some, [], ◌∷◌, arith}
use platform.Common.{ok, sum_to, ◌==◌, if◌then◌else◌}
use platform.Common.Int.{ℤ, pos, negsuc, unsigned}
use platform.Device.{Context}
use platform.PortTable.{
  find_weight, find_queue, c_json_to_struct_array, load_items, next_values, add,
}
use platform.PortTable.Load.{items}
use platform.Choice.Rings.{get_port_ringnum, get_port_speed, int_speed, int_weight}
use platform.Choice.Rings.Total.{IsReady, IsHeavy, equal_speeds_first}
use platform.Choice.Cores.{get_port_queuenum}
use platform.Choice.Cores.{get_thread_portinfo}
use platform.Choice.Cores.Layout.{sum_from}
use platform.Choice.Cores.Assigned.{thread_rings, Reads}
use platform.Choice.Cores.Queues.{InOrder, unknown_speed_queues}
use platform.Choice.Init.{dofile, choice_init}
use platform.Choice.Init.Modes.{mode_one_works, mode_two_works, mode_two_queue_zero}
use platform.Tests.Values.{whole, pairs, rows, ten_gigabit}

-- Two ports, cores from 1 on, 8 rings.
abbrev pub two_ports : ℕ → ℕ → Context
two_ports thread_mode queue_mode = record {
  nb_ports = 2;
  enabled_port_mask = 3;
  timer_period = pos 0;
  port_list = λ j. j;
  port_num = 2;
  start = 1;
  end = 0;
  thread_mode = thread_mode;
  queue_mode = queue_mode;
  ring_num = 8;
  port_ringnum = λ p. 0;
  port_queuenum = λ p. 0;
  core_portnum = λ c. 0;
  core_queuenum = λ c. 0;
  thread_portnum = λ k. 0;
  thread_ringnum = λ k. 0;
}

abbrev pub table : pairs.Table
table =
    (pos 1000, record { value1_weight = pos 10; value2_queue_num = pos 1 })
    ∷ (pos 10000, record { value1_weight = pos 100; value2_queue_num = pos 4 })
    ∷ []

pub opened : dofile whole pairs (some (some (items whole rows))) [] ≡ ok table
unfolding dofile c_json_to_struct_array load_items next_values add
opened = refl

weight : ◌≡◌ {A = ℤ} (int_weight whole pairs table ten_gigabit 0) (pos 100)
unfolding int_weight int_speed get_port_speed find_weight
weight = refl

pub ready : (m q : ℕ) → IsReady whole pairs table ten_gigabit (two_ports m q)
unfolding int_weight int_speed get_port_speed find_weight
ready m q = record {
  some_port = omega arith;
  enough = omega arith;
  small = omega arith;
  listed = record { fits = omega arith; in_range = λ j h. omega arith; known = λ j h. refl };
  none_given = λ p h. refl;
}

pub heavy : (m q : ℕ) → IsHeavy whole pairs table ten_gigabit (two_ports m q)
unfolding int_weight int_speed get_port_speed find_weight
heavy m q = refl

pub in_order : (m q : ℕ) → InOrder (two_ports m q)
in_order m q = record { few = omega arith; in_order = λ j h. refl }

equal_speeds_first_example :
    (rings : ℕ → ℕ) × (get_port_ringnum whole pairs table ten_gigabit (two_ports 1 2)
      ≡ ok (record (two_ports 1 2) { port_ringnum = rings }))
    × ((p : ℕ) → p < 16 → rings p ≡ (if p == 0 then 8 else 0))
unfolding int_speed get_port_speed
equal_speeds_first_example =
    equal_speeds_first whole pairs table ten_gigabit (two_ports 1 2) (ready 1 2) (heavy 1 2)
      (λ j h. refl)

mode_one_works_example :
    (c : Context) × (choice_init whole pairs ten_gigabit 2
        (some (some (items whole rows)))
        []
        (two_ports 1 2)
      ≡ ok (c, table))
    × (sum_to 16 c.port_ringnum ≡ 8)
    × (c.end + 1 ≡ 5)
    × ((p : ℕ)
        → p < 2
        → (c.port_queuenum p ≡ c.port_ringnum p)
          × (c.core_portnum (1 + p) ≡ p)
          × (c.core_portnum (3 + p) ≡ p))
mode_one_works_example =
    mode_one_works whole pairs ten_gigabit (some (some (items whole rows))) [] table (two_ports 1 2)
      opened (ready 1 2) (heavy 1 2) (in_order 1 2) refl refl (omega arith) refl (omega arith)
      (omega arith)

mode_two_works_example :
    (c : Context) × (choice_init whole pairs ten_gigabit 2
        (some (some (items whole rows)))
        []
        (two_ports 2 2)
      ≡ ok (c, table))
    × (sum_to 16 c.port_ringnum ≡ 8)
    × (c.end + 1 ≡ 11)
    × ((p : ℕ) → p < 2 → c.core_portnum (1 + p) ≡ p)
    × ((p i : ℕ)
        → p < 2
        → i < c.port_ringnum p
        → c.core_portnum (1 + 2 + sum_from p 0 c.port_ringnum + i) ≡ p)
mode_two_works_example =
    mode_two_works whole pairs ten_gigabit (some (some (items whole rows))) [] table (two_ports 2 2)
      opened (ready 2 2) (heavy 2 2) (in_order 2 2) refl refl (omega arith) refl (omega arith)
      (omega arith)

mode_two_queue_zero_example :
    (c : Context) × (choice_init whole pairs ten_gigabit 2
        (some (some (items whole rows)))
        []
        (two_ports 2 2)
      ≡ ok (c, table))
    × ((k : ℕ) → k ≤ c.end → c.end < k + 2 → c.core_queuenum k ≡ 0)
mode_two_queue_zero_example =
    mode_two_queue_zero whole pairs ten_gigabit (some (some (items whole rows))) [] table
      (two_ports 2 2) opened (ready 2 2) (heavy 2 2) (in_order 2 2) refl refl (omega arith) refl
      (omega arith) (omega arith)

-- A card of 100 gigabit, whose speed does not fit 16 bits.
unknown_speed_queues_example :
    (queues : ℕ → ℕ) × (get_port_queuenum whole pairs table (λ p. 100000) (two_ports 1 1)
      ≡ ok (record (two_ports 1 1) { port_queuenum = queues }))
    × ((p : ℕ)
        → p < 2
        → queues p
          ≡ unsigned 16
              (find_queue whole pairs table (pos (get_port_speed (λ p. 100000) p % 2 ^ 16))))
    × ((p : ℕ)
        → p < 2
        → find_queue whole pairs table (pos (get_port_speed (λ p. 100000) p % 2 ^ 16)) ≡ negsuc 0
        → queues p ≡ 65535)
unknown_speed_queues_example =
    unknown_speed_queues whole pairs table (λ p. 100000) (two_ports 1 1) (in_order 1 1) refl

-- The context after the rings 5 and 3 are given.
abbrev pub eight_rings : Context
eight_rings = record (two_ports 2 2) { port_ringnum = λ p. if p == 0 then 5 else 3 }

thread_rings_example :
    (ports rings : ℕ → ℕ) × (get_thread_portinfo eight_rings
      ≡ ok (record eight_rings { thread_portnum = ports; thread_ringnum = rings }))
    × ((k : ℕ)
        → k < sum_from 2 0 eight_rings.port_ringnum
        → (ports k < 2) × Reads eight_rings.port_ringnum ports rings k)
    × ((p r : ℕ)
        → p < 2
        → r < eight_rings.port_ringnum p
        → (ports (sum_from p 0 eight_rings.port_ringnum + r) ≡ p)
          × (rings (sum_from p 0 eight_rings.port_ringnum + r) ≡ r))
unfolding sum_from
thread_rings_example = thread_rings eight_rings (omega arith) (omega arith)
