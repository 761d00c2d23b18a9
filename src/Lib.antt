-- ===== src/Lib.antt =====
-- Verification of the self-contained C parts of linuxab.
--
-- The repository gathers a kernel's parts from several sources. Modelled here are those that decide
-- something on their own: the LACP machines of the bonding server, the clock and the files of the Unix
-- kernel, the socket buffers, devices and IP layer of the network code, the signal, capability and
-- processor code of the kernel, and the conversions and the division that the rest calls. Each works on a
-- state of its own; they meet where a packet is a socket buffer that goes through a device, where
-- the clock calls back what `timeout` was given, where a port sends a buffer that `dev_alloc_skb` makes,
-- and where a printed number is read again.
--
--   Prelude   shared names; tests and laws on numbers, lists and bits (Tests, Lists, Distinct, Bits,
--             HasBit, Int)
--   Types     rust/types.c: Divide (__div64_32, div64_u64), Text (atoi and its like, strtoul, itoa and
--             its like); a C string is the list of its bytes
--   Unix      unix/kernel/ken/clock.c: Callout (timeout, the callouts of clock), Clock (the rest of
--             clock); Agenda and Refine give the callout table's meaning, a list of absolute times;
--             unix/kernel/ken/fio.c: File (descriptors, file structures, permission)
--   Kernel    kernel/signal.c (Signal), kernel/capability.c (Capability), kernel/cpu.c (Cpu)
--   Net       net/skbuff.c and net/skbuff.h: Skb (a buffer as its four pointers, and copies of its bytes),
--             Queue (rings of buffers, in a store of links); net/af_inet.c: Checksum; net/dev.c: Device
--             (the list of devices); net/ip_output.c, net/ip_input.c, net/eth.c: Ip
--   Bond      servers/bond_3ad.c: Port (the state), Record (what a LACPDU leaves), Receive
--             (ad_rx_machine), Timers (ad_periodic_machine, ad_churn_machine, ad_tx_machine), Mux
--             (ad_mux_machine), Speed (__get_link_speed, __get_agg_bandwidth), Select
--             (ad_agg_selection_logic), Group (ad_port_selection_logic), Handler
--             (bond_3ad_state_machine_handler, bond_3ad_rx_indication), Handshake (two ports)
--   Tests     concrete runs, and each result at a concrete input
--
-- A function of the code is a definition of its name, less leading underscores; its static variables are
-- a record that it takes and gives back; `Option` is a failure, an access out of bounds or fuel that has
-- run out, as the definition says. Unsigned numbers wrap at their width, written out. The bit masks of
-- the bonding server are records of Booleans.
--
-- The composition is in Bond.Handler, where a tick runs the machines of each port and the choice of its
-- aggregator one after another, and in Net.Ip, where a packet goes through the buffer, the header and its
-- checksum, and the device, and back.
--
-- Fuel: the callout loop takes one more than the length of the table, skb_queue_purge one more than the
-- length of the queue, the loops of __div64_32 one more than the bits of its operand, those of the
-- printers as many as those bits, the counting loop of the processors one more than the width of a map,
-- the loops along the list of devices one more than its length, and the folding of a checksum three, since
-- a sum of 32 bits is below 2 ^ 16 after two rounds.
--
-- Parameters stand for what the tree does not hold: HZ, PUSER and setpri of the Unix kernel, the constants of
-- its headers, the page allocator, the timer interval of the bonding server, and the flags of a slave.
--
-- Not modelled: in servers/bond_3ad.c the binding and unbinding of slaves, the changes of links and
-- speeds and the carrier; the rest of servers, the sockets and protocols above IP, msg.c, the work queues,
-- printk and process code, the start-up of the Unix kernel, io_uring, the drivers, the boot code and
-- everything that is not C. The stubs of kernel/signal.c and kernel/cpu.c that only say what is to be
-- done have no model either.
pub mod Prelude
pub mod Types
pub mod Unix
pub mod Kernel
pub mod Net
pub mod Bond
pub mod Tests
