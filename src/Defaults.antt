-- ===== src/Defaults.antt =====
-- The tests of the default actions of signals.
pub mod All
pub mod Segv
pub mod Usr1
pub mod Urg
pub mod Killed
