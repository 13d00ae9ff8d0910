-- ===== src/Masks.antt =====
-- The tests of signal masks: what can be blocked, what a frame keeps, what waits, and what is set.
pub mod BlockRtmin
pub mod UcMask
pub mod UcOldmask
pub mod SigsuspendMask
pub mod SigsuspendMultiple
pub mod SigwaitSigpending
pub mod RtSigactionOldact
