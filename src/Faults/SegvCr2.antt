-- ===== src/Faults/SegvCr2.antt =====
-- src/segv-cr2.cpp: the frame holds the address of the fault.
pub mod Verdict
use signal_tests.Base.{ℕ, false, ◌==◌}
use signal_tests.Program.{Prog, exit, ◌>>=◌, ◌>>◌, pure, assert, succeed, sys}
use signal_tests.System
use signal_tests.System.{Sigaction, Ucontext, Frame, Call}

pub record Globals : Type 0 where

abbrev pub initial : Globals
initial = record {}

abbrev pub bad_address : ℕ
bad_address = 0x12340000

-- The test ends in its handler: nothing returns from it.
unfoldable pub signal_handler : Frame → Prog Globals Ucontext
signal_handler f = do assert (f.ctx.cr2 == bad_address); exit 0

abbrev sa : Sigaction
sa = record {
  handler = System.function 0;
  flags = System.sa_siginfo;
  mask = System.sigemptyset;
  restorer = 0;
}

unfoldable pub main : Prog Globals ℕ
main = do
  succeed (Call.sigaction System.sigsegv sa)
  _ ← sys (Call.execute (System.store_to bad_address 5))
  assert false
  pure 1
