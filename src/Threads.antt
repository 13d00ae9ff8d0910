-- ===== src/Threads.antt =====
-- Programs of two threads, and the order in which they go on.
mod Model
mod Log
mod Conditions
mod Standing
mod Soundness
unfoldable pub use Model.*
pub use Log.*
pub use Conditions.*
pub use Soundness.*
