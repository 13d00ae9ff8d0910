-- ===== src/Masks/UcOldmask.antt =====
-- src/uc-oldmask.cpp: the frame's registers hold the old mask too.
use signal_tests.Base.{ℕ, bit_or, Bool, true, false, ◌==◌}
use signal_tests.Program.{Prog, ◌>>=◌, ◌>>◌, pure, assert, succeed, sys, globals, set_globals}
use signal_tests.System
use signal_tests.System.{Sigaction, Ucontext, Frame, Call}

pub record Globals : Type 0 where
  pub handler_ran : Bool
  pub expected_mask : ℕ

abbrev pub initial : Globals
initial = record { handler_ran = false; expected_mask = 0 }

unfoldable pub signal_handler : Frame → Prog Globals Ucontext
signal_handler f = do
  g ← globals
  set_globals (record g { handler_ran = true })
  assert (f.ctx.oldmask == g.expected_mask)
  pure f.ctx

abbrev blocked : ℕ
blocked = System.sigaddset (System.sigaddset System.sigemptyset System.sigurg) System.sigvtalrm

abbrev sa : Sigaction
sa = record {
  handler = System.function 0;
  flags = System.sa_siginfo;
  mask = System.sigemptyset;
  restorer = 0;
}

unfoldable pub main : Prog Globals ℕ
main = do
  succeed (Call.sigprocmask System.sig_block blocked)
  g ← globals
  set_globals (record g {
    expected_mask = bit_or (System.bit_of System.sigurg) (System.bit_of System.sigvtalrm);
  })
  succeed (Call.sigaction System.sigusr1 sa)
  _ ← sys (Call.raise System.sigusr1)
  h ← globals
  assert h.handler_ran
  pure 0
