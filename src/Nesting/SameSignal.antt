-- ===== src/Nesting/SameSignal.antt =====
-- src/same-signal.cpp: a signal that its own handler raises waits until the handler has returned.
pub mod Apart
use signal_tests.Base.{ℕ, ◌+◌, Bool, true, false, not, ◌==◌, if◌then◌else◌}
use signal_tests.Program.{Prog, ◌>>=◌, ◌>>◌, pure, assert, sys, globals, set_globals}
use signal_tests.System
use signal_tests.System.{Sigaction, Ucontext, Frame, Call}

pub record Globals : Type 0 where
  pub first_time : Bool
  pub inside_signal_handler : Bool
  pub count : ℕ

abbrev pub initial : Globals
initial = record { first_time = true; inside_signal_handler = false; count = 0 }

unfoldable pub signal_handler : Frame → Prog Globals Ucontext
signal_handler f = do
  g ← globals
  assert (not g.inside_signal_handler)
  set_globals (record g { inside_signal_handler = true; count = g.count + 1 })
  h ← globals
  if h.count == 1 then (sys (Call.raise System.sigusr1) >>= λ _. pure tt) else pure tt
  i ← globals
  set_globals (record i { inside_signal_handler = false })
  pure f.ctx

abbrev sa : Sigaction
sa = record {
  handler = System.function 0;
  flags = System.sa_siginfo;
  mask = System.sigemptyset;
  restorer = 0;
}

unfoldable pub main : Prog Globals ℕ
main = do
  _ ← sys (Call.sigaction System.sigusr1 sa)
  _ ← sys (Call.raise System.sigusr1)
  g ← globals
  assert (g.count == 2)
  pure 0
