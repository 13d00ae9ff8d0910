-- ===== src/Masks/UcMask.antt =====
-- src/uc_mask.cpp: the frame holds the mask from before the handler; the return puts it back.
use signal_tests.Base.{ℕ, not}
use signal_tests.Program.{Prog, ◌>>=◌, ◌>>◌, pure, assert, succeed, sys}
use signal_tests.System
use signal_tests.System.{Sigaction, Ucontext, Frame, Call}

pub record Globals : Type 0 where

abbrev pub initial : Globals
initial = record {}

unfoldable pub signal_handler : Frame → Prog Globals Ucontext
signal_handler f = do
  assert (not (System.sigismember f.ctx.uc_sigmask System.sigurg))
  current ← sys Call.sigprocmask_query
  assert (System.sigismember current.old_mask System.sigurg)
  pure f.ctx

abbrev sa : Sigaction
sa = record {
  handler = System.function 0;
  flags = System.sa_siginfo;
  mask = System.sigaddset System.sigemptyset System.sigurg;
  restorer = 0;
}

unfoldable pub main : Prog Globals ℕ
main = do
  succeed (Call.sigaction System.sigusr1 sa)
  _ ← sys (Call.raise System.sigusr1)
  current ← sys Call.sigprocmask_query
  assert (not (System.sigismember current.old_mask System.sigurg))
  pure 0
