-- ===== src/Forwarding.antt =====
-- The list of forwarding ports: `update_fwd_ports` of src/CaptureDpdk/dpdk.c and
-- `port_id_is_invalid` of src/CaptureDpdk/config.c. `max` is `RTE_MAX_ETHPORTS`, a setting of DPDK.
pub mod Compact
use platform.Common.{
  ℕ, zero, suc, ◌+◌, ◌%◌, ◌^◌, Outcome, ok, fault, ◌>>=◌, load, store, ltb, ◌==◌, ◌&&◌, Bool, true,
  false,
}
use platform.Common.{if◌then◌else◌}

-- The identifier of all ports, a `portid_t` of 8 bits.
abbrev pub port_all : ℕ
port_all = 255

-- `enabled` is that field of `ports`.
unfoldable pub port_id_is_invalid : (ℕ → Bool) → ℕ → ℕ → Bool
port_id_is_invalid enabled max port_id =
    if port_id == port_all
    then false
    else if ltb port_id max && enabled port_id
    then false
    else true

pub record FwdPorts : Type 0 where
  pub fwd_ports_ids : ℕ → ℕ
  pub nb_fwd_ports : ℕ
  pub nb_cfg_ports : ℕ

-- The body of the loop, for the entry `id`; `moving` is the variable `move`.
pub compact_entry : (ℕ → Bool) → ℕ → ℕ → ℕ → Bool → (ℕ → ℕ) → Outcome ((ℕ → ℕ) × ℕ × Bool)
compact_entry enabled max id new_nb moving ids =
    if port_id_is_invalid enabled max id
    then ok (ids, new_nb, true)
    else if moving
    then (do ids' ← store max ids new_nb id; ok (ids', new_nb + 1, true))
    else ok (ids, new_nb + 1, false)

-- The loop over `n` entries from `i` on.
pub compact : (ℕ → Bool) → ℕ → ℕ → ℕ → ℕ → Bool → (ℕ → ℕ) → Outcome ((ℕ → ℕ) × ℕ)
compact enabled max zero i new_nb moving ids = ok (ids, new_nb)
compact enabled max (suc n) i new_nb moving ids = do
  id ← load max ids i
  r ← compact_entry enabled max id new_nb moving ids
  compact enabled max n (i + 1) r.1 r.2 r.0

-- The numbers of ports are a `portid_t` of 8 bits; the number that the loop counts is not.
pub update_fwd_ports : (ℕ → Bool) → ℕ → ℕ → FwdPorts → Outcome FwdPorts
update_fwd_ports enabled max new_pid s = do
  r ← compact enabled max s.nb_fwd_ports 0 0 false s.fwd_ports_ids
  let (ids, new_nb) = r
  if ltb new_pid max
      then (do
        ids' ← store max ids new_nb new_pid
        ok (record {
          fwd_ports_ids = ids';
          nb_fwd_ports = (new_nb + 1) % 2 ^ 8;
          nb_cfg_ports = (new_nb + 1) % 2 ^ 8;
        }))
      else ok (record {
        fwd_ports_ids = ids;
        nb_fwd_ports = new_nb % 2 ^ 8;
        nb_cfg_ports = new_nb % 2 ^ 8;
      })
