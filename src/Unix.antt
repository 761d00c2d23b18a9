-- ===== src/Unix.antt =====
-- unix/kernel/ken: the callouts and the clock of the Unix kernel, and its file descriptors.
pub mod Callout
pub mod Clock
pub mod File
