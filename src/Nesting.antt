-- ===== src/Nesting.antt =====
-- The tests of a signal that arrives while, or after, its own handler has run.
pub mod SameSignal
pub mod Nodefer
pub mod LongjmpNoOverflow
pub mod Resethand
