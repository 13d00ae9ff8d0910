-- ===== src/Restart/RestartableWrite.antt =====
-- src/restartable-write.cpp: a handler with SA_RESTART does not end write(2).
pub mod Restarted
use signal_tests.Base.{ℕ, ℤ, pos, ◌+◌, Bool, true, false, ◌==◌, ◌=ℤ=◌, get_or}
use signal_tests.Program.{Prog, ◌>>=◌, ◌>>◌, pure, assert, succeed, sys, globals, set_globals}
use signal_tests.System
use signal_tests.Restart.Handler.{restart_handler}
use signal_tests.System.{Sigaction, Ucontext, Frame, Call, Arch, same_handler}

pub record Globals : Type 0 where
  pub read_end : ℕ
  pub write_end : ℕ
  pub child_tid : ℤ
  pub signal_got : Bool

abbrev pub initial : Globals
initial = record { read_end = 0; write_end = 0; child_tid = pos 0; signal_got = false }

unfoldable pub signal_handler : Arch → Frame → Prog Globals Ucontext
signal_handler =
    restart_handler (λ g. g.child_tid) (λ g. record g { signal_got = true }) System.sys_write

abbrev sa : Sigaction
sa = record {
  handler = System.function 0;
  flags = System.sa_siginfo + System.sa_restart;
  mask = System.sigemptyset;
  restorer = 0;
}

unfoldable pub thread_main : Prog Globals ℕ
thread_main = do
  t ← sys Call.gettid
  g ← globals
  set_globals (record g { child_tid = t.result })
  h ← globals
  n ← sys (Call.write h.write_end 16)
  assert (n.result =ℤ= pos 16)
  pure 0

-- The pipe is full before the thread writes.
unfoldable pub main : Prog Globals ℕ
main = do
  ends ← sys Call.pipe
  g ← globals
  set_globals (record g { read_end = get_or ends.words 0 0; write_end = get_or ends.words 1 0 })
  assert (ends.result =ℤ= pos 0)
  g1 ← globals
  size ← sys (Call.fcntl_setpipe_sz g1.write_end 4096)
  assert (size.result =ℤ= pos 4096)
  g2 ← globals
  filled ← sys (Call.write g2.write_end 4096)
  assert (filled.result =ℤ= pos 4096)
  succeed (Call.sigaction System.sigusr1 sa)
  succeed Call.pthread_create
  _ ← sys (Call.usleep 200000)
  pid ← sys Call.getpid
  h ← globals
  _ ← sys (Call.tgkill pid.result h.child_tid System.sigusr1)
  _ ← sys (Call.usleep 100000)
  i ← globals
  n ← sys (Call.read i.read_end 4096)
  assert (n.result =ℤ= pos 4096)
  succeed Call.pthread_join
  j ← globals
  assert j.signal_got
  pure 0
