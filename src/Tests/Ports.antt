-- ===== src/Tests/Ports.antt =====
-- An update of the forwarding ports 0, 1 and 2 where port 1 is gone and port 5 comes.
use platform.Common.{ℕ, ◌≡◌, [], ◌∷◌, ◌++◌, ok, arith, not, ◌==◌, Bool}
use platform.Forwarding.{FwdPorts, update_fwd_ports}
use platform.Forwarding.Compact.{update_fwd_ports-cells, cells, keep_valid}

abbrev all_but_one : ℕ → Bool
all_but_one p = not (p == 1)

abbrev three_ports : FwdPorts
three_ports = record { fwd_ports_ids = λ j. j; nb_fwd_ports = 3; nb_cfg_ports = 3 }

update_fwd_ports-cells_example :
    (s' : FwdPorts) × (update_fwd_ports all_but_one 32 5 three_ports ≡ ok s')
    × (cells s'.nb_fwd_ports 0 s'.fwd_ports_ids
        ≡ keep_valid all_but_one 32 (0 ∷ 1 ∷ 2 ∷ []) ++ 5 ∷ [])
    × (s'.nb_cfg_ports ≡ s'.nb_fwd_ports)
update_fwd_ports-cells_example =
    update_fwd_ports-cells all_but_one 32 5 three_ports (omega arith) (omega arith)
