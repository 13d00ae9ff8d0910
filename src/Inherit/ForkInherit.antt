-- ===== src/Inherit/ForkInherit.antt =====
-- src/fork-inherit.cpp: a child has the mask of its parent.
pub mod Family
use signal_tests.Base.{ℕ, ℤ, pos, not, ◌==◌, ◌=ℤ=◌, negative, if◌then◌else◌}
use signal_tests.Program.{Prog, ◌>>=◌, ◌>>◌, pure, assert, succeed, sys}
use signal_tests.System
use signal_tests.Inherit.Mask.{set, check_mask}
use signal_tests.System.{Sigaction, Ucontext, Frame, Call, Arch, same_handler}

pub record Globals : Type 0 where

abbrev pub initial : Globals
initial = record {}

-- The test sets no handler.
unfoldable pub no_handler : Frame → Prog Globals Ucontext
no_handler f = pure f.ctx

unfoldable pub child : Prog Globals ℕ
child = check_mask >> pure 0

unfoldable pub parent : ℤ → Prog Globals ℕ
parent pid = do
  check_mask
  w ← sys (Call.waitpid pid 0)
  assert (w.result =ℤ= pid)
  assert (System.wifexited w.status)
  assert (System.wexitstatus w.status == 0)
  pure 0

unfoldable pub main : Prog Globals ℕ
unfolding child parent
main = do
  succeed (Call.sigprocmask System.sig_block set)
  pid ← sys Call.fork
  assert (not (negative pid.result))
  if pid.result =ℤ= pos 0 then child else parent pid.result
