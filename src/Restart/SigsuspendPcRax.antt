-- ===== src/Restart/SigsuspendPcRax.antt =====
-- src/sigsuspend-pc-rax.cpp: a signal of another thread ends sigsuspend(2). `pid`, which the
-- function of the thread has captured, is a global.
pub mod Interrupted
use signal_tests.Base.{ℕ, ℤ, pos, ◌-◌, ◌%◌, ◌^◌, ◌==◌, ◌=ℤ=◌, if◌then◌else◌}
use signal_tests.Program.{Prog, exit, ◌>>=◌, ◌>>◌, pure, assert, succeed, sys, globals, set_globals}
use signal_tests.System
use signal_tests.System.{Sigaction, Ucontext, Frame, Call, Arch, same_handler}

pub record Globals : Type 0 where
  pub pid : ℤ

abbrev pub initial : Globals
initial = record { pid = pos 0 }

-- The two bytes before the place where the frame returns to are the system call instruction.
abbrev pub after_syscall : Arch → Frame → Prog Globals (Unit {0})
after_syscall arch f = do
  assert (f.memory (f.ctx.rip - 2) == System.syscall_first arch)
  assert (f.memory (f.ctx.rip - 1) == System.syscall_second arch)

unfoldable pub signal_handler : Arch → Frame → Prog Globals Ucontext
signal_handler arch f = do
  assert (f.ctx.rax =ℤ= System.minus_eintr)
  after_syscall arch f
  pure f.ctx

abbrev sa : Sigaction
sa = record {
  handler = System.function 0;
  flags = System.sa_siginfo;
  mask = System.sigemptyset;
  restorer = 0;
}

-- `-1u & ~(1 << 31) & ~(1 << (SIGKILL - 1)) & ~(1 << (SIGSTOP - 1))`
abbrev pub blocked_word : ℕ
blocked_word = 2 ^ 32 - 1 - 2 ^ 31 - System.bit_of System.sigkill - System.bit_of System.sigstop

unfoldable pub thread_main : Prog Globals ℕ
thread_main = do
  my ← sys Call.sigprocmask_query
  assert (my.old_mask % 2 ^ 32 == blocked_word)
  g ← globals
  _ ← sys (Call.kill g.pid System.sigusr1)
  pure 0

unfoldable pub main : Prog Globals ℕ
main = do
  pid ← sys Call.getpid
  set_globals (record { pid = pid.result })
  succeed (Call.sigaction System.sigusr1 sa)
  _ ← sys (Call.sigprocmask System.sig_block System.sigfillset)
  created ← sys Call.pthread_create
  if created.result =ℤ= pos 0 then pure tt else exit 134
  result ← sys (Call.sigsuspend (System.sigdelset System.sigfillset System.sigusr1))
  assert (result.result =ℤ= System.minus_one)
  assert (result.errno == System.eintr)
  joined ← sys Call.pthread_join
  if joined.result =ℤ= pos 0 then pure tt else exit 134
  pure 0
