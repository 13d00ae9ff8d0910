-- ===== src/Inherit/SignalTableThread.antt =====
-- src/signal-table-thread.cpp: the threads of a process share their actions.
pub mod Shared
use signal_tests.Base.{ℕ, ℤ, pos, Bool, true, false, ◌==◌, ◌=ℤ=◌, if◌then◌else◌}
use signal_tests.Program.{Prog, ◌>>=◌, ◌>>◌, pure, assert, succeed, sys, globals, set_globals}
use signal_tests.System
use signal_tests.System.{Sigaction, Ucontext, Frame, Call, Arch, same_handler}

pub record Globals : Type 0 where
  pub child_tid : ℤ
  pub parent_tid : ℤ
  pub is_ok : Bool
  pub is_ok2 : Bool

abbrev pub initial : Globals
initial = record { child_tid = pos 0; parent_tid = pos 0; is_ok = false; is_ok2 = false }

-- The addresses of the two handlers.
abbrev pub first_handler : ℕ
first_handler = 1

abbrev pub second_handler : ℕ
second_handler = 2

unfoldable pub signal_handler : Frame → Prog Globals Ucontext
signal_handler f = do
  t ← sys Call.gettid
  g ← globals
  assert (g.child_tid =ℤ= t.result)
  h ← globals
  set_globals (record h { is_ok = true })
  pure f.ctx

unfoldable pub signal_handler2 : Frame → Prog Globals Ucontext
signal_handler2 f = do
  t ← sys Call.gettid
  g ← globals
  assert (g.parent_tid =ℤ= t.result)
  h ← globals
  set_globals (record h { is_ok2 = true })
  pure f.ctx

-- The kernel enters the handler whose address the action holds.
unfoldable pub handlers : Frame → Prog Globals Ucontext
unfolding signal_handler signal_handler2
handlers f = if f.target == first_handler then signal_handler f else signal_handler2 f

abbrev sa : Sigaction
sa = record {
  handler = System.function first_handler;
  flags = System.sa_siginfo;
  mask = System.sigemptyset;
  restorer = 0;
}

abbrev pub sa2 : Sigaction
sa2 = record {
  handler = System.function second_handler;
  flags = System.sa_siginfo;
  mask = System.sigemptyset;
  restorer = 0;
}

unfoldable pub thread_main : Prog Globals ℕ
thread_main = do
  t ← sys Call.gettid
  g ← globals
  set_globals (record g { child_tid = t.result })
  old ← sys (Call.sigaction_query System.sigusr1)
  assert (old.result =ℤ= pos 0)
  assert (same_handler old.old_act.handler (System.function first_handler))
  succeed (Call.sigaction System.sigusr2 sa2)
  _ ← sys (Call.raise System.sigusr1)
  pure 0

unfoldable pub main : Prog Globals ℕ
main = do
  tid ← sys Call.gettid
  g ← globals
  set_globals (record g { parent_tid = tid.result })
  succeed (Call.sigaction System.sigusr1 sa)
  succeed Call.pthread_create
  succeed (Call.sigprocmask System.sig_block System.sigfillset)
  succeed Call.pthread_join
  old ← sys (Call.sigaction_query System.sigusr2)
  assert (old.result =ℤ= pos 0)
  assert (same_handler old.old_act.handler (System.function second_handler))
  succeed (Call.sigprocmask System.sig_unblock System.sigfillset)
  _ ← sys (Call.raise System.sigusr2)
  h ← globals
  assert h.is_ok
  i ← globals
  assert i.is_ok2
  pure 0
