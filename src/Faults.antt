-- ===== src/Faults.antt =====
-- The tests of signals that an instruction causes; all but trap-flag and illegal-cs.
pub mod SynchronousDivZero
pub mod SynchronousIdivZero
pub mod SynchronousHighAddress
pub mod SynchronousNull
pub mod SynchronousHlt
pub mod SynchronousUd2
pub mod SynchronousInt3
pub mod SegvCr2
pub mod SegvTrapno
pub mod SynchronousRip
