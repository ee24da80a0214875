-- ===== src/Tests.antt =====
-- Concrete values at which the theorems are applied, and runs of the definitions.
mod Values
mod PortList
mod Choosing
mod Queues
mod Capturing
mod Options
mod Setting
mod Ports
mod Streaming
mod States
mod Selecting
mod Echoing
mod Starting
mod Mapping
mod Runs
mod Passing
mod Transmitting
