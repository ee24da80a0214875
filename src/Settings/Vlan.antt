-- ===== src/Settings/Vlan.antt =====
-- The VLAN tags that a port inserts: `tx_vlan_set`, `tx_qinq_set` and `tx_vlan_reset` of
-- src/CaptureDpdk/config.c. `max` is `RTE_MAX_ETHPORTS`, the size of `ports`. Parameters: which ports
-- are enabled, and whether the VLAN offload that the device reports for a port is the extended one.
pub mod Tagged
use platform.Common.{ℕ, zero, suc, ◌+◌, ◌-◌, ◌/◌, ◌%◌, List, [], ◌∷◌, Outcome, ok, fault, ◌>>=◌}
use platform.Common.{Bool, true, false, not, load, store, ltb, ◌==◌, if◌then◌else◌}
use platform.Forwarding.{port_id_is_invalid}

-- `TESTPMD_TX_OFFLOAD_INSERT_VLAN` and `TESTPMD_TX_OFFLOAD_INSERT_QINQ`
abbrev pub insert_vlan : ℕ
insert_vlan = 64

abbrev pub insert_qinq : ℕ
insert_qinq = 128

-- `struct rte_port`, the fields of the tags.
pub record TxTag : Type 0 where
  pub tx_ol_flags : ℕ
  pub tx_vlan_id : ℕ
  pub tx_vlan_id_outer : ℕ

-- A flag is a power of two: `f & flag`, `f |= flag` and `f &= ~flag`.
abbrev pub has_flag : ℕ → ℕ → Bool
has_flag flag f = (f / flag) % 2 == 1

abbrev pub with_flag : ℕ → ℕ → ℕ
with_flag flag f = if has_flag flag f then f else f + flag

abbrev pub without_flag : ℕ → ℕ → ℕ
without_flag flag f = if has_flag flag f then f - flag else f

unfoldable pub vlan_id_is_invalid : ℕ → Bool
vlan_id_is_invalid vlan_id = not (ltb vlan_id 4096)

abbrev pub cleared : TxTag → TxTag
cleared t = record {
  tx_ol_flags = without_flag insert_qinq (without_flag insert_vlan t.tx_ol_flags);
  tx_vlan_id = 0;
  tx_vlan_id_outer = 0;
}

abbrev pub one_tag : ℕ → TxTag → TxTag
one_tag vlan_id t = record t {
  tx_ol_flags = with_flag insert_vlan t.tx_ol_flags;
  tx_vlan_id = vlan_id;
}

abbrev pub two_tags : ℕ → ℕ → TxTag → TxTag
two_tags vlan_id vlan_id_outer t = record t {
  tx_ol_flags = with_flag insert_qinq t.tx_ol_flags;
  tx_vlan_id = vlan_id;
  tx_vlan_id_outer = vlan_id_outer;
}

-- The calls, for a port.
pub data TagCall : Type 0 where
  vlan : ℕ → ℕ → TagCall
  qinq : ℕ → ℕ → ℕ → TagCall
  reset : ℕ → TagCall

module _ (enabled extended : ℕ → Bool) (max : ℕ) where
  -- An entry of `ports` is changed.
  abbrev pub change : (TxTag → TxTag) → ℕ → (ℕ → TxTag) → Outcome (ℕ → TxTag)
  change f port_id ports = do t ← load max ports port_id; store max ports port_id (f t)

  pub tx_vlan_reset : ℕ → (ℕ → TxTag) → Outcome (ℕ → TxTag)
  tx_vlan_reset port_id ports =
      if port_id_is_invalid enabled max port_id then ok ports else change cleared port_id ports

  pub tx_vlan_set : ℕ → ℕ → (ℕ → TxTag) → Outcome (ℕ → TxTag)
  tx_vlan_set port_id vlan_id ports =
      if port_id_is_invalid enabled max port_id
      then ok ports
      else if vlan_id_is_invalid vlan_id
      then ok ports
      else if extended port_id
      then ok ports
      else (do ports' ← tx_vlan_reset port_id ports; change (one_tag vlan_id) port_id ports')

  pub tx_qinq_set : ℕ → ℕ → ℕ → (ℕ → TxTag) → Outcome (ℕ → TxTag)
  tx_qinq_set port_id vlan_id vlan_id_outer ports =
      if port_id_is_invalid enabled max port_id
      then ok ports
      else if vlan_id_is_invalid vlan_id
      then ok ports
      else if vlan_id_is_invalid vlan_id_outer
      then ok ports
      else if not (extended port_id)
      then ok ports
      else (do
        ports' ← tx_vlan_reset port_id ports
        change (two_tags vlan_id vlan_id_outer) port_id ports')

  pub tag_call : TagCall → (ℕ → TxTag) → Outcome (ℕ → TxTag)
  tag_call (TagCall.vlan port_id vlan_id) ports = tx_vlan_set port_id vlan_id ports
  tag_call (TagCall.qinq port_id vlan_id outer) ports = tx_qinq_set port_id vlan_id outer ports
  tag_call (TagCall.reset port_id) ports = tx_vlan_reset port_id ports

  pub tag_calls : List TagCall → (ℕ → TxTag) → Outcome (ℕ → TxTag)
  tag_calls [] ports = ok ports
  tag_calls (c ∷ cs) ports = do ports' ← tag_call c ports; tag_calls cs ports'
