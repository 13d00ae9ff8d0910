-- ===== src/Frames/SigcontextSegments.antt =====
-- src/sigcontext-segments.cpp: the segment registers in the frame.
pub mod Verdict
use signal_tests.Base.{ℕ, ◌/◌, ◌%◌, ◌^◌, Bool, true, false, ◌==◌}
use signal_tests.Program.{Prog, ◌>>=◌, ◌>>◌, pure, assert, succeed, sys, globals, set_globals}
use signal_tests.System
use signal_tests.System.{Sigaction, Ucontext, Frame, Call, Arch}

pub record Globals : Type 0 where
  pub handler_ran : Bool

abbrev pub initial : Globals
initial = record { handler_ran = false }

-- On x86_64 four registers share a word.
abbrev check_segments : Arch → Frame → Prog Globals (Unit {0})
check_segments System.x86_64 f = do
  assert (f.ctx.csgsfs % 2 ^ 16 == 0x33)
  assert (f.ctx.csgsfs / 2 ^ 16 % 2 ^ 16 == 0)
  assert (f.ctx.csgsfs / 2 ^ 32 % 2 ^ 16 == 0)
  assert (f.ctx.csgsfs / 2 ^ 48 % 2 ^ 16 == 0x2b)
check_segments System.i386 f = do
  assert (f.ctx.cs == 0x23)
  assert (f.ctx.ss == 0x2b)
  assert (f.ctx.ds == 0x2b)
  assert (f.ctx.es == 0x2b)

unfoldable pub signal_handler : Arch → Frame → Prog Globals Ucontext
signal_handler arch f = do
  set_globals (record { handler_ran = true })
  check_segments arch f
  pure f.ctx

abbrev sa : Sigaction
sa = record {
  handler = System.function 0;
  flags = System.sa_siginfo;
  mask = System.sigemptyset;
  restorer = 0;
}

unfoldable pub main : Prog Globals ℕ
main = do
  succeed (Call.sigaction System.sigusr1 sa)
  _ ← sys (Call.raise System.sigusr1)
  g ← globals
  assert g.handler_ran
  pure 0
