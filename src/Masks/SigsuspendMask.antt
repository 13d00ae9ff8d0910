-- ===== src/Masks/SigsuspendMask.antt =====
-- src/sigsuspend-mask.cpp: a handler that runs in sigsuspend(2) finds the mask from before the call.
pub mod Verdict
use signal_tests.Base.{ℕ, ◌-◌, Bool, true, false, ◌==◌, ◌=ℤ=◌}
use signal_tests.Program.{Prog, ◌>>=◌, ◌>>◌, pure, assert, succeed, sys, globals, set_globals}
use signal_tests.System
use signal_tests.System.{Sigaction, Ucontext, Frame, Call, Arch}

pub record Globals : Type 0 where
  pub ok : Bool

abbrev pub initial : Globals
initial = record { ok = false }

-- The two bytes before the place where the frame returns to are the system call instruction.
abbrev pub after_syscall : Arch → Frame → Prog Globals (Unit {0})
after_syscall arch f = do
  assert (f.memory (f.ctx.rip - 2) == System.syscall_first arch)
  assert (f.memory (f.ctx.rip - 1) == System.syscall_second arch)

-- The two words of the mask on i386 are one number here.
unfoldable pub signal_handler : Arch → Frame → Prog Globals Ucontext
signal_handler arch f = do
  set_globals (record { ok = true })
  assert (f.ctx.rax =ℤ= System.minus_eintr)
  after_syscall arch f
  assert (f.ctx.uc_sigmask == System.blockable)
  pure f.ctx

abbrev sa : Sigaction
sa = record {
  handler = System.function 0;
  flags = System.sa_siginfo;
  mask = System.sigfillset;
  restorer = 0;
}

unfoldable pub main : Prog Globals ℕ
main = do
  succeed (Call.sigaction System.sigusr1 sa)
  succeed (Call.rt_sigprocmask System.sig_block System.all_ones)
  succeed (Call.raise System.sigusr1)
  _ ← sys (Call.sigsuspend 0)
  g ← globals
  assert g.ok
  pure 0
