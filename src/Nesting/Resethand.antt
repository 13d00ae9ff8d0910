-- ===== src/Nesting/Resethand.antt =====
-- src/resethand.cpp: SA_RESETHAND puts the default action back when the handler starts.
pub mod Order
use signal_tests.Base.{ℕ, ◌+◌, ◌==◌}
use signal_tests.Program.{Prog, ◌>>=◌, ◌>>◌, pure, assert, succeed, sys, globals, set_globals}
use signal_tests.System
use signal_tests.System.{Sigaction, Ucontext, Frame, Call}

pub record Globals : Type 0 where
  pub count : ℕ

abbrev pub initial : Globals
initial = record { count = 0 }

unfoldable pub signal_handler : Frame → Prog Globals Ucontext
signal_handler f = do g ← globals; set_globals (record { count = g.count + 1 }); pure f.ctx

abbrev sa : Sigaction
sa = record {
  handler = System.function 0;
  flags = System.sa_siginfo + System.sa_resethand;
  mask = System.sigemptyset;
  restorer = 0;
}

-- The calls; the second signal meets the default action, which is to ignore it.
unfoldable pub steps : Prog Globals (Unit {0})
steps = do
  succeed (Call.sigaction System.sigurg sa)
  _ ← sys (Call.raise System.sigurg)
  _ ← sys (Call.raise System.sigurg)
  pure tt

unfoldable pub main : Prog Globals ℕ
unfolding steps
main = do steps; g ← globals; assert (g.count == 1); pure 0
