-- ===== src/Frames.antt =====
-- The tests of what a signal frame holds, and of what the return takes back from it.
pub mod UcFlags
pub mod SigcontextSegments
pub mod Segments
pub mod DfReset
pub mod XstateBvSse
pub mod XstateBvX87
pub mod FpstateX87
pub mod FpstateLegacy
pub mod FrameAlignment
pub mod IllegalCs
