-- ===== src/Net.antt =====
-- net: socket buffers and their queues.
pub mod Checksum
pub mod Device
pub mod Ip
pub mod Queue
pub mod Skb
