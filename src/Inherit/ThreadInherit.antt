-- ===== src/Inherit/ThreadInherit.antt =====
-- src/thread-inherit.cpp: a new thread has the mask of the one that creates it.
pub mod Masks
use signal_tests.Base.{ℕ, pos, ◌=ℤ=◌, if◌then◌else◌}
use signal_tests.Program.{Prog, exit, ◌>>=◌, ◌>>◌, pure, assert, succeed, sys}
use signal_tests.System
use signal_tests.Inherit.Mask.{set, check_mask}
use signal_tests.System.{Sigaction, Ucontext, Frame, Call, Arch, same_handler}

pub record Globals : Type 0 where

abbrev pub initial : Globals
initial = record {}

-- The test sets no handler.
unfoldable pub no_handler : Frame → Prog Globals Ucontext
no_handler f = pure f.ctx

unfoldable pub thread_main : Prog Globals ℕ
thread_main = check_mask >> pure 0

-- `std::thread`: where no thread can be created or joined, an exception ends the process by SIGABRT.
abbrev or_abort : Call → Prog Globals (Unit {0})
or_abort c = do r ← sys c; if r.result =ℤ= pos 0 then pure tt else exit 134

unfoldable pub main : Prog Globals ℕ
main = do
  succeed (Call.sigprocmask System.sig_block set)
  or_abort Call.pthread_create
  or_abort Call.pthread_join
  check_mask
  pure 0
