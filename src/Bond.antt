-- ===== src/Bond.antt =====
-- servers/bond_3ad.c: the LACP state machines of a bonded port.
pub mod Port
pub mod Record
pub mod Receive
pub mod Timers
pub mod Handshake
pub mod Mux
pub mod Speed
pub mod Select
pub mod Group
pub mod Handler
