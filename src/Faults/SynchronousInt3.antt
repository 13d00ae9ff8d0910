-- ===== src/Faults/SynchronousInt3.antt =====
-- src/synchronous-int3.cpp: a breakpoint; the frame returns behind it.
pub mod Verdict
use signal_tests.Base.{ℕ, ◌+◌, ◌-◌, ◌%◌, ◌^◌, ◌==◌, ◌=ℤ=◌}
use signal_tests.Program.{Prog, exit, ◌>>=◌, ◌>>◌, pure, assert, succeed, sys}
use signal_tests.System
use signal_tests.System.{Sigaction, Ucontext, Frame, Call}

pub record Globals : Type 0 where

abbrev pub initial : Globals
initial = record {}

-- The test ends in its handler: nothing returns from it.
unfoldable pub signal_handler : ℕ → Frame → Prog Globals Ucontext
signal_handler int3_address f = do
  assert (f.sig == System.sigtrap)
  assert (f.info.si_code =ℤ= System.si_kernel)
  assert (f.info.si_addr == 0)
  assert (int3_address == (f.ctx.rip + 2 ^ 64 - 1) % 2 ^ 64)
  exit 0

abbrev sa : Sigaction
sa = record {
  handler = System.function 0;
  flags = System.sa_siginfo;
  mask = System.sigemptyset;
  restorer = 0;
}

unfoldable pub main : Prog Globals ℕ
main = do
  succeed (Call.sigaction System.sigsegv sa)
  succeed (Call.sigaction System.sigbus sa)
  succeed (Call.sigaction System.sigill sa)
  succeed (Call.sigaction System.sigfpe sa)
  succeed (Call.sigaction System.sigtrap sa)
  _ ← sys (Call.execute System.int3)
  pure 1
