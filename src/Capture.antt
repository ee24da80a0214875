-- ===== src/Capture.antt =====
-- The packet path of src/CaptureDpdk/dpdk.c: `slaveCoreRx`, `dpdk_masterRx`, `dpdk_masterTx_a`,
-- `slaveCoreTx` and `mainLoop`.
pub mod Ring
pub mod Classify
pub mod Rx
pub mod Tx
pub mod Role
