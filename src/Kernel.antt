-- ===== src/Kernel.antt =====
-- kernel: signals, capabilities, processors, the log and the work queues.
pub mod Capability
pub mod Cpu
pub mod Signal
