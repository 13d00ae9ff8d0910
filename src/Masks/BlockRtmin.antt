-- ===== src/Masks/BlockRtmin.antt =====
-- src/block-rtmin.cpp: all signals but SIGKILL and SIGSTOP can be blocked, glibc's own ones too.
use signal_tests.Base.{ℕ, ◌==◌, pos, ◌=ℤ=◌}
use signal_tests.Program.{Prog, ◌>>=◌, ◌>>◌, pure, assert, succeed, sys}
use signal_tests.System
use signal_tests.System.{Ucontext, Frame, Call}

pub record Globals : Type 0 where

abbrev pub initial : Globals
initial = record {}

-- The test sets no handler.
unfoldable pub no_handler : Frame → Prog Globals Ucontext
no_handler f = pure f.ctx

unfoldable pub main : Prog Globals ℕ
main = do
  succeed (Call.rt_sigprocmask System.sig_block System.all_ones)
  q ← sys Call.rt_sigprocmask_query
  assert (q.result =ℤ= pos 0)
  assert (q.old_mask == System.blockable)
  pure 0
