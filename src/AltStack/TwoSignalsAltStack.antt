-- ===== src/AltStack/TwoSignalsAltStack.antt =====
-- src/two-signals-alt-stack.cpp: two signals that wait are both handled, on the alternate stack.
use signal_tests.Base.{ℕ, ◌+◌, ◌*◌, Bool, true, false, ◌&&◌, ◌==◌, if◌then◌else◌}
use signal_tests.Program.{Prog, ◌>>=◌, ◌>>◌, pure, succeed, sys, globals, set_globals}
use signal_tests.System
use signal_tests.System.{Sigaction, Ucontext, Frame, Call}

abbrev altsz : ℕ
altsz = 1024 * 1024

pub record Globals : Type 0 where
  pub sigurg_ok : Bool
  pub sigpwr_ok : Bool
  pub new_stack : ℕ

abbrev pub initial : Globals
initial = record { sigurg_ok = false; sigpwr_ok = false; new_stack = 0 }

unfoldable pub signal_handler : Frame → Prog Globals Ucontext
signal_handler f = do
  g ← globals
  if f.sig == System.sigurg
      then set_globals (record g { sigurg_ok = true })
      else if f.sig == System.sigpwr
      then set_globals (record g { sigpwr_ok = true })
      else pure tt
  pure f.ctx

abbrev sa : Sigaction
sa = record {
  handler = System.function 0;
  flags = System.sa_siginfo + System.sa_onstack;
  mask = System.sigemptyset;
  restorer = 0;
}

unfoldable pub steps : Prog Globals (Unit {0})
steps = do
  m ← sys (Call.malloc altsz)
  g ← globals
  set_globals (record g { new_stack = m.address })
  succeed (Call.sigaltstack (record { ss_sp = m.address; ss_size = altsz; ss_flags = 0 }))
  _ ← sys (Call.sigaction System.sigurg sa)
  _ ← sys (Call.sigaction System.sigpwr sa)
  _ ← sys (Call.sigprocmask System.sig_block System.sigfillset)
  _ ← sys (Call.raise System.sigurg)
  _ ← sys (Call.raise System.sigpwr)
  _ ← sys (Call.sigprocmask System.sig_unblock System.sigfillset)
  pure tt

unfoldable pub main : Prog Globals ℕ
unfolding steps
main = do steps; g ← globals; if g.sigurg_ok && g.sigpwr_ok then pure 0 else pure 1
