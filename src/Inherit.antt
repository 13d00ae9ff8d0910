-- ===== src/Inherit.antt =====
-- The tests of what a child, a thread or an executed program inherits.
pub mod Table
pub mod Mask
pub mod Wait
pub mod ForkInherit
pub mod ExecveInherit
pub mod ThreadInherit
pub mod SignalTableFork
pub mod SignalTableThread
pub mod SyscallSigign
pub mod Sigqueueinfo
