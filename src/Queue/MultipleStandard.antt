-- ===== src/Queue/MultipleStandard.antt =====
-- src/multiple-standard.cpp: a standard signal that waits already is not kept twice.
pub mod Order
use signal_tests.Base.{ℕ, ◌+◌, ◌==◌}
use signal_tests.Program.{Prog, ◌>>=◌, ◌>>◌, pure, assert, succeed, sys, globals, set_globals}
use signal_tests.System
use signal_tests.System.{Sigaction, Ucontext, Frame, Call}

pub record Globals : Type 0 where
  pub count : ℕ

abbrev pub initial : Globals
initial = record { count = 0 }

unfoldable pub signal_handler : Frame → Prog Globals Ucontext
signal_handler f = do g ← globals; set_globals (record { count = g.count + 1 }); pure f.ctx

abbrev sa : Sigaction
sa = record {
  handler = System.function 0;
  flags = System.sa_siginfo;
  mask = System.sigemptyset;
  restorer = 0;
}

-- The calls, with the check that nothing has been handled before the signals are unblocked.
unfoldable pub steps : Prog Globals (Unit {0})
steps = do
  succeed (Call.sigaction System.sigusr1 sa)
  succeed (Call.sigprocmask System.sig_block System.sigfillset)
  _ ← sys (Call.raise System.sigusr1)
  _ ← sys (Call.raise System.sigusr1)
  _ ← sys (Call.raise System.sigusr1)
  _ ← sys (Call.raise System.sigusr1)
  _ ← sys (Call.raise System.sigusr1)
  g ← globals
  assert (g.count == 0)
  _ ← sys (Call.sigprocmask System.sig_unblock System.sigfillset)
  pure tt

unfoldable pub main : Prog Globals ℕ
unfolding steps
main = do steps; g ← globals; assert (g.count == 1); pure 0
