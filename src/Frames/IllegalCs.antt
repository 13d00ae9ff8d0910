-- ===== src/Frames/IllegalCs.antt =====
-- src/illegal-cs.cpp: a jump to an illegal code segment is a fault that the handler repairs.
pub mod Order
use signal_tests.Base.{ℕ, ◌+◌, ◌*◌, ◌/◌, ◌^◌, bit_or, ◌==◌}
use signal_tests.Program.{Prog, ◌>>=◌, ◌>>◌, pure, assert, sys, globals, set_globals}
use signal_tests.System
use signal_tests.System.{Sigaction, Ucontext, Frame, Call, Arch}

pub record Globals : Type 0 where
  pub fault_count : ℕ
  pub fault_rip : ℕ
  pub fault_sig : ℕ
  pub fault_trapno : ℕ
  pub fault_err : ℕ

abbrev pub initial : Globals
initial = record { fault_count = 0; fault_rip = 0; fault_sig = 0; fault_trapno = 0; fault_err = 0 }

-- The code segment of the program and the place behind the jump, `recovery`.
abbrev repaired : Arch → ℕ → Ucontext → Ucontext
repaired System.x86_64 recovery c = record c {
  csgsfs = bit_or (c.csgsfs / 2 ^ 16 * 2 ^ 16) 0x33;
  rip = recovery;
}
repaired System.i386 recovery c = record c { cs = 0x23; rip = recovery }

unfoldable pub signal_handler : Arch → ℕ → Frame → Prog Globals Ucontext
signal_handler arch recovery f = do
  g ← globals
  set_globals (record {
    fault_count = g.fault_count + 1;
    fault_rip = f.ctx.rip;
    fault_sig = f.sig;
    fault_trapno = f.ctx.trapno;
    fault_err = f.ctx.err;
  })
  pure (repaired arch recovery f.ctx)

abbrev sa : Sigaction
sa = record {
  handler = System.function 0;
  flags = System.sa_siginfo;
  mask = System.sigemptyset;
  restorer = 0;
}

-- `do_far_jmp`: the jump to the selector 7.
unfoldable pub main : Prog Globals ℕ
main = do
  _ ← sys (Call.sigaction System.sigsegv sa)
  _ ← sys (Call.sigaction System.sigbus sa)
  _ ← sys (Call.execute (System.far_jump 0x07))
  g ← globals
  assert (g.fault_count == 1)
  h ← globals
  assert (h.fault_sig == System.sigsegv)
  i ← globals
  assert (i.fault_trapno == 13)
  pure 0
