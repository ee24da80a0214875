-- ===== src/Lib.antt =====
-- The packet capture platform: the C code under platform-tyq2/src/CaptureDpdk, which takes
-- packets from the network cards by DPDK, deals them out to rings, and hands them to threads.
--
-- The parts, in the order in which the program runs them:
-- - Arguments: the options of the program (`l2fwd_parse_args` and its parsers in dpdk.c). They set
--   the port mask, the first core and the two modes in the context.
-- - Setup: `dpdk_init` in dpdk.c. Setup holds the list of ports that it makes before `choice_init` and
--   the shared memory that `shard_init` clears after it (shmdata.c), Setup.Drive the ports that are
--   started (`port_init`), Setup.Buffers the rings (`initRing`) and the counters, and Setup.Init puts
--   these, Arguments, Choice and Capture.Role together.
-- - PortTable: the table from speeds to weights and queues, which `dofile` fills from a
--   configuration file (json.c, hash.c).
-- - PortSort: the list of ports by speed (structure.c), on a heap of nodes, since `addNode` is given
--   the pointer to the head by value.
-- - Choice: `choice_init` and the functions that it calls (choice.c): Choice.Rings deals the rings
--   out to the ports, Choice.Cores assigns cores, queues and threads, Choice.Init puts them together.
-- - Capture: the packet path (dpdk.c). Capture.Classify chooses the ring of a packet; Capture.Rx is
--   the loop of a receiving core (`slaveCoreRx`) and the call by which a thread takes packets
--   (`dpdk_masterRx`); Capture.Tx is the call by which a thread gives packets (`dpdk_masterTx_a`) and
--   the loop of a sending core (`slaveCoreTx`); Capture.Role says which core runs which (`mainLoop`).
-- - Forwarding: the list of forwarding ports that attaching and detaching a port updates
--   (`update_fwd_ports` in dpdk.c, `port_id_is_invalid` in config.c).
-- - Streams: the forwarding streams and how they are given to the cores (`init_fwd_streams` in dpdk.c;
--   `setup_fwd_config_of_each_lcore`, `fwd_topology_tx_port_get` and the set-ups that `fwd_config_setup`
--   chooses from, in config.c). Streams holds the distribution and the set-ups for several queues and
--   for echo requests, Streams.Modes those for one queue and for traffic classes.
-- - Settings: the VLAN tags that a port inserts (`tx_vlan_set` and its like in config.c), and the
--   counters that queues are mapped to (`set_qmap` in config.c, and
--   `map_port_queue_stats_mapping_registers` in dpdk.c).
-- - PortState: the states of the ports (`start_port`, `stop_port`, `close_port`, `attach_port`,
--   `detach_port` and `pmd_test_exit` in dpdk.c), with the list of the calls that the driver gets.
-- - Multicast: the pool of multicast addresses of a port (`mcast_addr_add` and `mcast_addr_remove` in
--   config.c).
-- - Selection: the cores and ports that forward and the packets that are sent, as they are set from
--   the command line (`set_fwd_lcores_mask` and its like in config.c).
-- - Running: a run of forwarding from `start_packet_forwarding` to `stop_packet_forwarding` in dpdk.c,
--   which sets up the streams (Streams) and the mappings (Settings) and adds up what is counted.
-- - Engines: the engines that pass packets on (iofwd.c, macfwd.c, macswap.c), with the tags of Settings.
-- - Transmit: the packets that the engine txonly makes (txonly.c), in segments, with their headers.
-- - Echo: the engine that answers ARP and ICMP echo requests (`reply_to_icmp_echo_rqsts` in icmpecho.c).
-- Device holds the context and the sizes of include/CaptureDpdk/structure.h, Common what all
-- parts share, Tests the concrete values at which the theorems are applied.
--
-- How the code is modelled. The context is a record that each function takes and returns. An
-- array is a function of the index, and each access is tested against the size of the array. A
-- function ends in `ok`, in `exited` (a call of `rte_exit`) or in `fault` (an access outside an
-- array or a row of a table, a division by zero, a read of no node), so a theorem that a function
-- returns `ok` says that it does none of these. Conversions to 8, 16, 32 and 64 bits are written
-- out. The counters of the packet path are 64 bits and wrap. The rings of a port are shared by a
-- thread and a core: Capture.Tx.Runs lets them move in any order, one pass of a loop body at a
-- time.
--
-- Parameters, for code that is not part of the program's own: `double` arithmetic (Double),
-- uthash (PortTable, with the law that a look-up after an insertion finds the new entry and the
-- others as before), what cJSON reads from the file (a list of items), the speed of a link, the
-- number of devices, `strtoul` and `strtol` (Arguments), what `getopt_long` and
-- `rte_eth_rx_burst` return in turn (lists), the rings of DPDK (Capture.Ring, with what their
-- documentation says of the packets they hold), what the driver of a port and the pools of
-- packets answer (PortState, Setup.Drive, Transmit), which rings are made (Setup.Buffers), what a
-- device answers and counts (Settings, Running), and how many packets it takes (Engines).
--
-- Fuel: the loop of `addNode` is given one round more than the heap has nodes, which a list
-- without a cycle cannot use up. The loop of `dpdk_masterTx_a` waits for room, so it ends only if
-- room appears: its fuel is a number of passes. The loop of `simple_fwd_config_setup` is given as
-- many rounds as there are ports. The fuel of the loop of the echo engine is a number of rounds.
--
-- Bounds that are assumed: memory is never exhausted (Multicast has both cases), the number of
-- rings of the program fits an `int`, and in Capture.Tx the rings that a pass visits exist
-- (`choice_init` gives at most 80).
--
-- Not modelled: what DPDK does, the log file and the file of the options of `dpdk_init` and the
-- system calls of the shared memory; the rest of the second half of dpdk.c (link status, bypass,
-- traffic classes of a device) and of config.c (what prints, and settings that are passed on),
-- cmdline.c and the other packet engines, which follow the test program of DPDK; cJSON and
-- uthash, which are copies of other projects; the programs in platform-tyq2/apps, DpdkTest and
-- PcapTest, which start threads around this code.
pub mod Common
pub mod PortSort
pub mod Device
pub mod Double
pub mod PortTable
pub mod Choice
mod Tests
pub mod Capture
pub mod Arguments
pub mod Forwarding
pub mod Settings
pub mod Setup
pub mod Streams
pub mod PortState
pub mod Running
pub mod Engines
pub mod Transmit
pub mod Multicast
pub mod Selection
pub mod Echo
