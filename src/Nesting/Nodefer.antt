-- ===== src/Nesting/Nodefer.antt =====
-- src/nodefer.cpp: with SA_NODEFER a handler is interrupted by its own signal, and the innermost one
-- ends first.
use signal_tests.Base.{ℕ, ◌+◌, Bool, true, false, not, ltb, ◌==◌, if◌then◌else◌}
use signal_tests.Program.{Prog, ◌>>=◌, ◌>>◌, pure, assert, succeed, sys, globals, set_globals}
use signal_tests.System
use signal_tests.System.{Sigaction, Ucontext, Frame, Call}

pub record Globals : Type 0 where
  pub finished : Bool
  pub count : ℕ

abbrev pub initial : Globals
initial = record { finished = false; count = 0 }

unfoldable pub signal_handler : Frame → Prog Globals Ucontext
signal_handler f = do
  g ← globals
  assert (not g.finished)
  if ltb g.count 5
      then (set_globals (record g { count = g.count + 1 })
          >> (sys (Call.raise System.sigusr1) >>= λ _. pure tt))
      else pure tt
  h ← globals
  set_globals (record h { finished = true })
  pure f.ctx

abbrev sa : Sigaction
sa = record {
  handler = System.function 0;
  flags = System.sa_siginfo + System.sa_nodefer;
  mask = System.sigemptyset;
  restorer = 0;
}

unfoldable pub main : Prog Globals ℕ
main = do
  succeed (Call.sigaction System.sigusr1 sa)
  _ ← sys (Call.raise System.sigusr1)
  g ← globals
  assert (g.count == 5)
  pure 0
