-- ===== src/AltStack.antt =====
-- The tests of the alternate signal stack.
pub mod TwoSignalsAltStack
pub mod TwoSignalsAltStackDisarm
pub mod SigaltstackQuery
pub mod SigaltstackErrors
pub mod UcStackAlways
pub mod UcStackRestore
