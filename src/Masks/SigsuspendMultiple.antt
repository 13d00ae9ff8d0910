-- ===== src/Masks/SigsuspendMultiple.antt =====
-- src/sigsuspend-multiple.cpp: one signal is handled for one sigsuspend(2).
pub mod Verdict
use signal_tests.Base.{ℕ, ◌+◌, ◌-◌, ◌==◌, ◌=ℤ=◌}
use signal_tests.Program.{Prog, ◌>>=◌, ◌>>◌, pure, assert, succeed, sys, globals, set_globals}
use signal_tests.System
use signal_tests.System.{Sigaction, Ucontext, Frame, Call, Arch}

pub record Globals : Type 0 where
  pub count : ℕ

abbrev pub initial : Globals
initial = record { count = 0 }

-- The two bytes before the place where the frame returns to are the system call instruction.
abbrev pub after_syscall : Arch → Frame → Prog Globals (Unit {0})
after_syscall arch f = do
  assert (f.memory (f.ctx.rip - 2) == System.syscall_first arch)
  assert (f.memory (f.ctx.rip - 1) == System.syscall_second arch)

unfoldable pub signal_handler : Arch → Frame → Prog Globals Ucontext
signal_handler arch f = do
  g ← globals
  set_globals (record { count = g.count + 1 })
  assert (f.ctx.rax =ℤ= System.minus_eintr)
  after_syscall arch f
  pure f.ctx

abbrev sa : Sigaction
sa = record {
  handler = System.function 0;
  flags = System.sa_siginfo;
  mask = System.sigfillset;
  restorer = 0;
}

unfoldable pub main : Prog Globals ℕ
main = do
  succeed (Call.sigaction System.sigusr1 sa)
  succeed (Call.sigaction System.sigusr2 sa)
  succeed (Call.sigaction System.sigurg sa)
  succeed (Call.sigaction 40 sa)
  succeed (Call.rt_sigprocmask System.sig_block System.all_ones)
  succeed (Call.raise System.sigusr1)
  succeed (Call.raise System.sigusr2)
  succeed (Call.raise System.sigurg)
  succeed (Call.raise 40)
  _ ← sys (Call.sigsuspend 0)
  g ← globals
  assert (g.count == 1)
  pure 0
