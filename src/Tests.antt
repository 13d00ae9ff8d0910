-- ===== src/Tests.antt =====
-- Examples: the theorems at concrete kernels.
mod Setup
mod Passing
mod Sequences
mod Faults
mod Defaults
mod Machine
mod Frames
mod Stepping
mod Interleaving
mod Events
mod Restart
mod Inherit
mod Interrupted
mod Family
mod Masks
mod Nesting
