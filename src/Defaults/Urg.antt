-- ===== src/Defaults/Urg.antt =====
-- src/sigdfl-urg.cpp: SIGURG does nothing to a process that does not handle it.
use signal_tests.Base.{ℕ, ◌&&◌, ◌==◌, if◌then◌else◌, pos, ◌=ℤ=◌, negative}
use signal_tests.Program.{Prog, exit, ◌>>=◌, ◌>>◌, pure, sys}
use signal_tests.System
use signal_tests.System.{Call, Frame, Ucontext}

pub record Globals : Type 0 where

abbrev pub initial : Globals
initial = record {}

-- The test sets no handler.
unfoldable pub no_handler : Frame → Prog Globals Ucontext
no_handler f = pure f.ctx

-- The child goes on, and exits with 0.
unfoldable pub child : Prog Globals (Unit {0})
child = do _ ← sys (Call.raise System.sigurg); exit 0

unfoldable pub main : Prog Globals ℕ
unfolding child
main = do
  pid ← sys Call.fork
  if negative pid.result then exit 1 else if pid.result =ℤ= pos 0 then child else pure tt
  w ← sys (Call.waitpid pid.result 0)
  if w.result =ℤ= System.minus_one
      then exit 1
      else if System.wifexited w.status && (System.wexitstatus w.status == 0)
      then pure 0
      else exit 1
