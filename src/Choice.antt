-- ===== src/Choice.antt =====
-- src/CaptureDpdk/choice.c: how the rings, the queues and the cores are divided among the ports.
-- Each child is a function or two of that file. `Init` puts them together as `choice_init` does.
pub mod Rings
pub mod Cores
pub mod Init
