-- ===== src/Tests/Starting.antt =====
-- The start of the program with two ports and eight rings.
use platform.Common.{◌≡◌, refl, List, [], some, ok, fault, true, arith, inr}
use platform.Common.Int.{pos}
use platform.Device.{Context}
use platform.Arguments.{parse_args}
use platform.Arguments.Complete.{full_options}
use platform.Choice.Rings.{int_weight, int_speed, get_port_speed}
use platform.PortTable.{find_weight}
use platform.Setup.Buffers.{RingName, RingLibrary, init_buffers}
use platform.Setup.Buffers.Made.{Unused}
use platform.Setup.Buffers.Past.{many_rings_fault}
use platform.Setup.Init.{Machine, Daq, Returned, prepared, zeroed_buffers, dpdk_init}
use platform.Setup.Init.Ready.{Starts, HasPorts, Started, dpdk_init-Started}
use platform.Tests.Values.{whole, pairs, rows, ten_gigabit}
use platform.PortTable.Load.{items}
use platform.Tests.Choosing.{two_ports, table, opened}
use platform.Tests.Options.{reader, options, mask_three, one, two, ten}
use platform.Tests.Setting.{used}

-- A ring is its name.
abbrev named : RingLibrary RingName
named = record { create = λ made name. some name; is_found = λ made name r. true }

abbrev machine : Machine whole pairs RingName
machine = record {
  eal_init = pos 9;
  is_primary = true;
  strto = reader;
  dev_count = 2;
  has_pool = true;
  file = some (some (items whole rows));
  table = [];
  link_speed = ten_gigabit;
  answer = λ calls c. pos 0;
  rings = named;
  shared = used;
}

abbrev parsed : Context
parsed = record (prepared 8) {
  enabled_port_mask = 3;
  start = 1;
  thread_mode = 2;
  queue_mode = 2;
  timer_period = pos 20000000000;
}

parsed_from : parse_args reader options (prepared 8) ≡ ok (some parsed)
parsed_from =
    full_options reader mask_three one two two ten 3 1 2 2 10 (prepared 8)
      (record { not_empty = refl; reads = refl }) (record { not_empty = refl; reads = refl })
      (record { not_empty = refl; reads = refl }) (record { not_empty = refl; reads = refl })
      (record { not_empty = refl; reads = refl }) (omega arith) (omega arith) (omega arith)
      (omega arith) (inr refl) (inr refl) (omega arith)

starts : Starts machine table options 8 parsed
starts = record {
  eal = refl;
  primary = refl;
  pool = refl;
  options = parsed_from;
  opened = opened;
  thread_mode = refl;
  queue_mode = refl;
}

has_ports : HasPorts machine table options 8 parsed
unfolding int_weight int_speed get_port_speed find_weight
has_ports = record {
  some_port = omega arith;
  enough = omega arith;
  few = omega arith;
  known = λ p h. refl;
  heavy = refl;
}

creates :
    (made : List RingName) (name : RingName)
    → Unused made name
    → (r : RingName) × (◌≡◌ {A = _} (some name) (some r))
creates made name unused = (name, refl)

dpdk_init-Started_example :
    (q : Daq machine) × (dpdk_init machine options 8 ≡ ok (Returned.zero_with q))
    × Started machine table options 8 parsed starts has_ports (λ calls c. refl) creates q
dpdk_init-Started_example =
    dpdk_init-Started machine table options 8 parsed starts has_ports (λ calls c. refl) creates

-- Port 0 with 17 rings.
abbrev seventeen : Context
seventeen = record (two_ports 2 2) { port_ringnum = λ p. 17 }

many_rings_fault_example : init_buffers named seventeen (zeroed_buffers named) ≡ fault
many_rings_fault_example =
    many_rings_fault named seventeen (record { few = omega arith; in_order = λ j h. refl }) 0
      (zeroed_buffers named) (omega arith) (omega arith)
