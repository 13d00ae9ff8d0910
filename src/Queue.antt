-- ===== src/Queue.antt =====
-- The tests of what waits while it is blocked, and of the order in which it is then served.
pub mod MultipleRealtime
pub mod MultipleStandard
pub mod MaskAll
pub mod RtOrder
pub mod RtOrderOnlyOne
pub mod TwoSignals
