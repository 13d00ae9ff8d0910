-- ===== src/Stepping.antt =====
-- The tests of single stepping.
pub mod Flags
pub mod TrapFlag
pub mod PopfClear
pub mod PopfRepeat
