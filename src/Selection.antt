-- ===== src/Selection.antt =====
-- The choice of the cores and the ports that forward, and of the packets that are sent, in
-- src/CaptureDpdk/config.c. `max_lcores` and `max_ports` are the sizes of the arrays, settings of DPDK.
pub mod Pass
pub mod Masks
pub mod Segments
use platform.Common.{
  ℕ, zero, suc, ◌+◌, ◌/◌, ◌%◌, ◌^◌, Bool, true, false, not, ◌&&◌, ltb, leb, ◌==◌, if◌then◌else◌,
}
use platform.Common.{List, [], ◌∷◌, length, Outcome, ok, ◌>>=◌, store}
use platform.Forwarding.{port_id_is_invalid}

-- The globals.
pub record Config : Type 0 where
  pub nb_cfg_lcores : ℕ
  pub nb_fwd_lcores : ℕ
  pub fwd_lcores_cpuids : ℕ → ℕ
  pub nb_cfg_ports : ℕ
  pub nb_fwd_ports : ℕ
  pub fwd_ports_ids : ℕ → ℕ
  pub nb_pkt_per_burst : ℕ
  pub nb_txd : ℕ
  pub mbuf_data_size : ℕ
  pub tx_pkt_seg_lengths : ℕ → ℕ
  pub tx_pkt_length : ℕ
  pub tx_pkt_nb_segs : ℕ

-- What is known of the cores and ports of the machine.
pub record Machine : Type 0 where
  pub lcore_enabled : ℕ → Bool
  pub master_lcore : ℕ
  pub port_enabled : ℕ → Bool
  pub max_lcores : ℕ
  pub max_ports : ℕ

-- The loop of both functions below from entry `i` on: whether all entries can be used, and the array,
-- which is written where `record_now` is set. `cast` is the conversion to the type of the array.
pub pass : ℕ → (ℕ → Bool) → (ℕ → ℕ) → Bool → ℕ → List ℕ → (ℕ → ℕ) → Outcome (Bool × (ℕ → ℕ))
pass size usable cast record_now i [] ids = ok (true, ids)
pass size usable cast record_now i (x ∷ xs) ids =
    let stored = if record_now then store size ids i (cast x) else ok ids in
    let rest = stored >>= λ ids'. pass size usable cast record_now (i + 1) xs ids' in
    if usable (cast x) then rest else ok (false, ids)

-- Both passes, the second of which records: whether the list is accepted.
pub two_passes : ℕ → (ℕ → Bool) → (ℕ → ℕ) → List ℕ → (ℕ → ℕ) → Outcome (Bool × (ℕ → ℕ))
two_passes size usable cast xs ids = do
  r ← pass size usable cast false 0 xs ids
  let again = pass size usable cast true 0 xs r.1
  if r.0 then again else ok r

-- A core that is enabled and not the master.
abbrev pub usable_lcore : Machine → ℕ → Bool
usable_lcore m c = m.lcore_enabled c && not (c == m.master_lcore)

abbrev pub usable_port : Machine → ℕ → Bool
usable_port m p = not (port_id_is_invalid m.port_enabled m.max_ports p)

-- The result is whether the function returns 0.
pub set_fwd_lcores_list : Machine → List ℕ → Config → Outcome (Bool × Config)
set_fwd_lcores_list m lcorelist s = do
  r ← two_passes m.max_lcores (usable_lcore m) (λ c. c) lcorelist s.fwd_lcores_cpuids
  let nb = length lcorelist % 2 ^ 8
  if r.0
      then ok (true, record s { fwd_lcores_cpuids = r.1; nb_cfg_lcores = nb; nb_fwd_lcores = nb })
      else ok (false, record s { fwd_lcores_cpuids = r.1 })

-- The places of the bits that are set, of `n` from `i` on.
pub bits : ℕ → ℕ → ℕ → List ℕ
bits zero i mask = []
bits (suc n) i mask =
    let rest = bits n (i + 1) mask in if mask / 2 ^ i % 2 == 1 then i ∷ rest else rest

pub set_fwd_lcores_mask : Machine → ℕ → Config → Outcome (Bool × Config)
set_fwd_lcores_mask m lcoremask s =
    if lcoremask == 0 then ok (false, s) else set_fwd_lcores_list m (bits 64 0 lcoremask) s

pub set_fwd_lcores_number : ℕ → Config → Config
set_fwd_lcores_number nb_lc s =
    if ltb s.nb_cfg_lcores nb_lc then s else record s { nb_fwd_lcores = nb_lc % 2 ^ 8 }

pub set_fwd_ports_list : Machine → List ℕ → Config → Outcome Config
set_fwd_ports_list m portlist s = do
  r ← two_passes m.max_ports (usable_port m) (λ p. p % 2 ^ 8) portlist s.fwd_ports_ids
  let nb = length portlist % 2 ^ 8
  if r.0
      then ok (record s { fwd_ports_ids = r.1; nb_cfg_ports = nb; nb_fwd_ports = nb })
      else ok (record s { fwd_ports_ids = r.1 })

pub set_fwd_ports_mask : Machine → ℕ → Config → Outcome Config
set_fwd_ports_mask m portmask s =
    let n = if ltb m.max_ports 64 then m.max_ports else 64 in
    if portmask == 0 then ok s else set_fwd_ports_list m (bits n 0 portmask) s

pub set_fwd_ports_number : ℕ → Config → Config
set_fwd_ports_number nb_pt s =
    if ltb s.nb_cfg_ports nb_pt then s else record s { nb_fwd_ports = nb_pt % 2 ^ 8 }

-- `RTE_MAX_SEGS_PER_PKT`, the size of the array of lengths.
abbrev pub rte_max_segs_per_pkt : ℕ
rte_max_segs_per_pkt = 255

-- `MAX_PKT_BURST`.
abbrev pub max_pkt_burst : ℕ
max_pkt_burst = 512

pub set_nb_pkt_per_burst : ℕ → Config → Config
set_nb_pkt_per_burst nb s = if ltb max_pkt_burst nb then s else record s { nb_pkt_per_burst = nb }

-- The first loop of `set_tx_pkt_segments`: the total length from `len` on, and whether all segments
-- fit a buffer, which the comment in the source turns round.
pub total_length : ℕ → List ℕ → ℕ → ℕ × Bool
total_length size [] len = (len, true)
total_length size (x ∷ xs) len =
    let rest = total_length size xs ((len + x) % 2 ^ 16) in
    if ltb size x then (len, false) else rest

-- The second one, from segment `i` on.
pub write_lengths : ℕ → ℕ → List ℕ → (ℕ → ℕ) → Outcome (ℕ → ℕ)
write_lengths size i [] a = ok a
write_lengths size i (x ∷ xs) a = do
  a' ← store size a i (x % 2 ^ 16)
  write_lengths size (i + 1) xs a'

-- The size of the headers of an empty packet, of Ethernet, IP and UDP.
abbrev pub empty_packet : ℕ
empty_packet = 42

pub set_tx_pkt_segments : List ℕ → Config → Outcome Config
set_tx_pkt_segments seg_lengths s =
    let nb_segs = length seg_lengths in
    let total = total_length s.mbuf_data_size seg_lengths 0 in
    if leb s.nb_txd nb_segs
    then ok s
    else if not total.1
    then ok s
    else if ltb total.0 empty_packet
    then ok s
    else do
      lengths ← write_lengths rte_max_segs_per_pkt 0 seg_lengths s.tx_pkt_seg_lengths
      ok (record s {
        tx_pkt_seg_lengths = lengths;
        tx_pkt_length = total.0;
        tx_pkt_nb_segs = nb_segs % 2 ^ 8;
      })
