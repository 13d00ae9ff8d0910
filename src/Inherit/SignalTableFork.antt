-- ===== src/Inherit/SignalTableFork.antt =====
-- src/signal-table-fork.cpp: a child has the actions of its parent, and its changes stay its own.
pub mod Family
use signal_tests.Base.{ℕ, ℤ, pos, Bool, true, false, ◌&&◌, ◌==◌, ◌=ℤ=◌, if◌then◌else◌}
use signal_tests.Program.{Prog, exit, ◌>>=◌, ◌>>◌, pure, assert, succeed, sys, globals, set_globals}
use signal_tests.System
use signal_tests.System.{Sigaction, Ucontext, Frame, Call, Arch, same_handler}

pub record Globals : Type 0 where
  pub child_tid : ℤ
  pub parent_tid : ℤ
  pub is_ok : Bool

abbrev pub initial : Globals
initial = record { child_tid = pos 0; parent_tid = pos 0; is_ok = false }

unfoldable pub signal_handler : Frame → Prog Globals Ucontext
signal_handler f = do
  t ← sys Call.gettid
  g ← globals
  assert (g.child_tid =ℤ= t.result)
  h ← globals
  set_globals (record h { is_ok = true })
  pure f.ctx

abbrev pub sa : Sigaction
sa = record {
  handler = System.function 0;
  flags = System.sa_siginfo;
  mask = System.sigemptyset;
  restorer = 0;
}

unfoldable pub thread_main : Prog Globals (Unit {0})
thread_main = do
  t ← sys Call.gettid
  g ← globals
  set_globals (record g { child_tid = t.result })
  old ← sys (Call.sigaction_query System.sigusr1)
  assert (old.result =ℤ= pos 0)
  assert (same_handler old.old_act.handler (System.function 0))
  succeed (Call.sigaction System.sigusr2 sa)
  _ ← sys (Call.raise System.sigusr1)
  pure tt

-- `exit(0)` is the return of `main`.
unfoldable pub child : Prog Globals ℕ
unfolding thread_main
child = do thread_main; g ← globals; assert g.is_ok; pure 0

unfoldable pub parent : ℤ → Prog Globals ℕ
parent pid = do
  w ← sys (Call.waitpid pid 0)
  if w.result =ℤ= System.minus_one
      then exit 1
      else assert (System.wifexited w.status && (System.wexitstatus w.status == 0))
  old ← sys (Call.sigaction_query System.sigusr2)
  assert (old.result =ℤ= pos 0)
  assert (same_handler old.old_act.handler System.sig_dfl)
  pure 0

unfoldable pub main : Prog Globals ℕ
unfolding child parent
main = do
  tid ← sys Call.gettid
  g ← globals
  set_globals (record g { parent_tid = tid.result })
  succeed (Call.sigaction System.sigusr1 sa)
  pid ← sys Call.fork
  h ← globals
  set_globals (record h { child_tid = pid.result })
  if pid.result =ℤ= pos 0 then child else parent pid.result
