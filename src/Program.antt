-- ===== src/Program.antt =====
-- How a test runs. A test is a `Prog`: its globals, its calls, `exit`, and what it returns. The
-- kernel is a parameter: it answers calls and delivers signals. `run` follows the test and enters
-- the handlers that the kernel asks for.
mod Defs
pub mod Bind
pub mod Serving
pub mod Holds
pub mod HoldsRun
pub mod Steps
pub mod Meets
pub mod Met
pub mod Logged
pub mod Verdict
pub mod Witness
pub mod Script
pub mod Checked
unfoldable pub use Defs.*
