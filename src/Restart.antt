-- ===== src/Restart.antt =====
-- The tests of calls that a signal of another thread interrupts.
pub mod Handler
pub mod PausePcRax
pub mod SigsuspendPcRax
pub mod RestartableRead
pub mod RestartableWrite
pub mod RestartableSemWait
