-- ===== src/System.antt =====
-- What the tests take from <signal.h>, <sys/ucontext.h>, <errno.h> and the system-call numbers: the
-- constants of Linux on x86, the structures, the calls, and what a call answers. The kernel behind
-- the calls is not part of the repository: Program.antt takes it as a parameter.
mod Targets
mod Signals
mod Sigset
mod Structures
mod Calls
mod WaitStatus
pub use Targets.*
pub use Signals.*
pub use Sigset.*
pub use Structures.*
pub use Calls.*
pub use WaitStatus.*
