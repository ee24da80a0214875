-- ===== src/Tests/Options.antt =====
-- `l2fwd_parse_args` on the options of a configuration, with a reader of digits for `strtoul`.
use platform.Common.{ℕ, ◌+◌, ◌-◌, ◌*◌, ◌≡◌, refl, List, [], ◌∷◌, some, ok, arith, inr}
use platform.Common.{ltb, leb, ◌&&◌, if◌then◌else◌}
use platform.Common.Int.{pos}
use platform.Device.{Context}
use platform.Arguments.{String, Strto, Opt, parse_args}
use platform.Arguments.Complete.{full_options}
use platform.Tests.Choosing.{two_ports}

abbrev digits : ℕ → String → ℕ → ℕ × String
digits acc [] base = (acc, [])
digits acc (c ∷ s) base =
    let rest = digits (acc * base + (c - 48)) s base in
    if leb 48 c && ltb c (48 + base) then rest else (acc, c ∷ s)

abbrev pub reader : Strto
reader = record { strtoul = digits 0; strtol = λ s. let (n, end) = digits 0 s 10 in (pos n, end) }

-- "3", "1", "2", "10" and "x".
abbrev pub mask_three : String
mask_three = 51 ∷ []

abbrev pub one : String
one = 49 ∷ []

abbrev pub two : String
two = 50 ∷ []

abbrev pub ten : String
ten = 49 ∷ 48 ∷ []

abbrev letter : String
letter = 120 ∷ []

abbrev fresh : Context
fresh = record (two_ports 0 0) { enabled_port_mask = 0; start = 0 }

abbrev configured : Context
configured = record fresh {
  enabled_port_mask = 3;
  start = 1;
  thread_mode = 2;
  queue_mode = 2;
  timer_period = pos 20000000000;
}

abbrev pub options : List Opt
options =
    Opt.portmask mask_three
    ∷ Opt.core_start one
    ∷ Opt.thread_mode two
    ∷ Opt.queue_mode two
    ∷ Opt.timer_period ten
    ∷ []

full_options_example : parse_args reader options fresh ≡ ok (some configured)
full_options_example =
    full_options reader mask_three one two two ten 3 1 2 2 10 fresh
      (record { not_empty = refl; reads = refl }) (record { not_empty = refl; reads = refl })
      (record { not_empty = refl; reads = refl }) (record { not_empty = refl; reads = refl })
      (record { not_empty = refl; reads = refl }) (omega arith) (omega arith) (omega arith)
      (omega arith) (inr refl) (inr refl) (omega arith)

options_accepted : parse_args reader options fresh ≡ ok (some configured)
options_accepted =
    full_options reader mask_three one two two ten 3 1 2 2 10 fresh
      (record { not_empty = refl; reads = refl }) (record { not_empty = refl; reads = refl })
      (record { not_empty = refl; reads = refl }) (record { not_empty = refl; reads = refl })
      (record { not_empty = refl; reads = refl }) (omega arith) (omega arith) (omega arith)
      (omega arith) (inr refl) (inr refl) (omega arith)
