-- ===== src/Manual.antt =====
-- A kernel of one process with one thread that can be run: it answers as signal(7), sigaction(2),
-- sigprocmask(2), sigsuspend(2), sigaltstack(2), sigwaitinfo(2) and sigreturn(2) say, and where the pages
-- leave the choice open (numbers of processes, addresses, the size of a frame, which standard signal comes
-- first) it makes one. It stands for no code of the repository: it is what the examples run on. Where
-- the process would end or wait for ever it gives no answer.
mod State
mod Answers
mod Delivery
pub mod Beside
pub use State.*
pub use Answers.*
pub use Delivery.*
