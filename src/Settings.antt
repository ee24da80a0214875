-- ===== src/Settings.antt =====
-- Settings of a port that are kept for the forwarding engines and for the device, in
-- src/CaptureDpdk/config.c and dpdk.c: the VLAN tags that are inserted and the counters that the
-- queues are mapped to.
pub mod Vlan
pub mod Mappings
