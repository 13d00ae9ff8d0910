-- ===== src/Restart/RestartableSemWait.antt =====
-- src/restartable-sem_wait.cpp: a handler with SA_RESTART does not end sem_wait(3).
pub mod Restarted
use signal_tests.Base.{ℕ, ℤ, pos, ◌+◌, Bool, true, false, ◌==◌, ◌=ℤ=◌}
use signal_tests.Program.{Prog, ◌>>=◌, ◌>>◌, pure, assert, succeed, sys, globals, set_globals}
use signal_tests.System
use signal_tests.Restart.Handler.{restart_handler}
use signal_tests.System.{Sigaction, Ucontext, Frame, Call, Arch, same_handler}

pub record Globals : Type 0 where
  pub child_tid : ℤ
  pub signal_got : Bool

abbrev pub initial : Globals
initial = record { child_tid = pos 0; signal_got = false }

unfoldable pub signal_handler : Arch → Frame → Prog Globals Ucontext
signal_handler =
    restart_handler (λ g. g.child_tid) (λ g. record g { signal_got = true }) System.sys_futex

abbrev sa : Sigaction
sa = record {
  handler = System.function 0;
  flags = System.sa_siginfo + System.sa_restart;
  mask = System.sigemptyset;
  restorer = 0;
}

unfoldable pub thread_main : Prog Globals ℕ
thread_main = do
  t ← sys Call.gettid
  g ← globals
  set_globals (record g { child_tid = t.result })
  succeed Call.sem_wait
  h ← globals
  assert h.signal_got
  succeed Call.sem_post
  pure 0

unfoldable pub main : Prog Globals ℕ
main = do
  _ ← sys (Call.sem_init 1)
  succeed (Call.sigaction System.sigusr1 sa)
  succeed Call.sem_wait
  succeed Call.pthread_create
  _ ← sys (Call.usleep 200000)
  pid ← sys Call.getpid
  h ← globals
  _ ← sys (Call.tgkill pid.result h.child_tid System.sigusr1)
  _ ← sys (Call.usleep 100000)
  succeed Call.sem_post
  succeed Call.pthread_join
  j ← globals
  assert j.signal_got
  pure 0
