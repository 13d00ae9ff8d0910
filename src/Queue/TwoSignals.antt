-- ===== src/Queue/TwoSignals.antt =====
-- src/two-signals.cpp: two signals that wait are both handled.
pub mod Order
use signal_tests.Base.{ℕ, Bool, true, false, ◌&&◌, ◌==◌, if◌then◌else◌}
use signal_tests.Program.{Prog, ◌>>=◌, ◌>>◌, pure, sys, globals, set_globals}
use signal_tests.System
use signal_tests.System.{Sigaction, Ucontext, Frame, Call}

pub record Globals : Type 0 where
  pub sigurg_ok : Bool
  pub sigpwr_ok : Bool

abbrev pub initial : Globals
initial = record { sigurg_ok = false; sigpwr_ok = false }

unfoldable pub signal_handler : Frame → Prog Globals Ucontext
signal_handler f = do
  g ← globals
  if f.sig == System.sigurg
      then set_globals (record g { sigurg_ok = true })
      else if f.sig == System.sigpwr
      then set_globals (record g { sigpwr_ok = true })
      else pure tt
  pure f.ctx

abbrev sa : Sigaction
sa = record {
  handler = System.function 0;
  flags = System.sa_siginfo;
  mask = System.sigemptyset;
  restorer = 0;
}

unfoldable pub steps : Prog Globals (Unit {0})
steps = do
  _ ← sys (Call.sigaction System.sigurg sa)
  _ ← sys (Call.sigaction System.sigpwr sa)
  _ ← sys (Call.sigprocmask System.sig_block System.sigfillset)
  _ ← sys (Call.raise System.sigurg)
  _ ← sys (Call.raise System.sigpwr)
  _ ← sys (Call.sigprocmask System.sig_unblock System.sigfillset)
  pure tt

unfoldable pub main : Prog Globals ℕ
unfolding steps
main = do steps; g ← globals; if g.sigurg_ok && g.sigpwr_ok then pure 0 else pure 1
