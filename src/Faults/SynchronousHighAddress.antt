-- ===== src/Faults/SynchronousHighAddress.antt =====
-- src/synchronous-high-address.cpp: a store to an address that is not mapped.
pub mod Verdict
use signal_tests.Base.{ℕ, ◌==◌, ◌=ℤ=◌}
use signal_tests.Program.{Prog, exit, ◌>>=◌, ◌>>◌, pure, assert, succeed, sys}
use signal_tests.System
use signal_tests.System.{Sigaction, Ucontext, Frame, Call}

pub record Globals : Type 0 where

abbrev pub initial : Globals
initial = record {}

-- The test ends in its handler: nothing returns from it.
unfoldable pub signal_handler : Frame → Prog Globals Ucontext
signal_handler f = do
  assert (f.sig == System.sigsegv)
  assert (f.info.si_code =ℤ= System.segv_maperr)
  assert (f.info.si_addr == 0x1000)
  exit 0

abbrev sa : Sigaction
sa = record {
  handler = System.function 0;
  flags = System.sa_siginfo;
  mask = System.sigemptyset;
  restorer = 0;
}

unfoldable pub main : Prog Globals ℕ
main = do
  succeed (Call.sigaction System.sigsegv sa)
  succeed (Call.sigaction System.sigbus sa)
  succeed (Call.sigaction System.sigill sa)
  succeed (Call.sigaction System.sigfpe sa)
  _ ← sys (Call.execute (System.store_to 0x1000 0))
  pure 1
