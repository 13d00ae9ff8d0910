-- ===== src/Inherit/SyscallSigign.antt =====
-- src/syscall-sigign.cpp: signals that are ignored do not end sigsuspend(2).
pub mod Killed
use signal_tests.Base.{ℕ, ℤ, pos, ◌==◌, ◌=ℤ=◌, if◌then◌else◌}
use signal_tests.Program.{Prog, ◌>>=◌, ◌>>◌, pure, assert, succeed, sys}
use signal_tests.System
use signal_tests.System.{Sigaction, Ucontext, Frame, Call, Arch, same_handler}

pub record Globals : Type 0 where

abbrev pub initial : Globals
initial = record {}

-- The test sets no handler.
unfoldable pub no_handler : Frame → Prog Globals Ucontext
no_handler f = pure f.ctx

abbrev ignoring : Sigaction
ignoring = record { handler = System.sig_ign; flags = 0; mask = System.sigemptyset; restorer = 0 }

abbrev defaulting : Sigaction
defaulting = record { handler = System.sig_dfl; flags = 0; mask = System.sigemptyset; restorer = 0 }

unfoldable pub child_main : Prog Globals ℕ
child_main = do _ ← sys (Call.sigsuspend System.sigemptyset); pure 1

unfoldable pub parent : ℤ → Prog Globals ℕ
parent pid = do
  succeed (Call.tgkill pid pid System.sigusr1)
  _ ← sys (Call.usleep 10000)
  succeed (Call.tgkill pid pid System.sigurg)
  _ ← sys (Call.usleep 100000)
  succeed (Call.tgkill pid pid System.sigkill)
  r ← sys (Call.waitpid pid 0)
  assert (r.result =ℤ= pid)
  assert (System.wifsignaled r.status)
  assert (System.wtermsig r.status == System.sigkill)
  pure 0

unfoldable pub main : Prog Globals ℕ
unfolding child_main parent
main = do
  succeed (Call.sigprocmask System.sig_block System.sigfillset)
  succeed (Call.sigaction System.sigusr1 ignoring)
  succeed (Call.sigaction System.sigurg defaulting)
  pid ← sys Call.fork
  if pid.result =ℤ= pos 0 then child_main else parent pid.result
