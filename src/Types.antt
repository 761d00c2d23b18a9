-- ===== src/Types.antt =====
-- rust/types.c: 64-bit division, and conversions between numbers and text.
pub mod Divide
pub mod Text
