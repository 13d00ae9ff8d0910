-- ===== src/Frames/UcFlags.antt =====
-- src/uc-flags.cpp: the flags of the frame say that the extended state and the stack segment are saved.
pub mod Verdict
use signal_tests.Base.{ℕ, bit_and, Bool, true, false, not, ◌==◌}
use signal_tests.Program.{Prog, ◌>>=◌, ◌>>◌, pure, assert, succeed, sys, globals, set_globals}
use signal_tests.System
use signal_tests.System.{Sigaction, Ucontext, Frame, Call, Arch}

pub record Globals : Type 0 where
  pub handler_ran : Bool

abbrev pub initial : Globals
initial = record { handler_ran = false }

abbrev pub uc_fp_xstate : ℕ
uc_fp_xstate = 0x1

abbrev pub uc_sigcontext_ss : ℕ
uc_sigcontext_ss = 0x2

abbrev pub uc_strict_restore_ss : ℕ
uc_strict_restore_ss = 0x4

-- Whether one of these bits is set.
abbrev pub any_bit : ℕ → ℕ → Bool
any_bit x bits = not (bit_and x bits == 0)

-- The part for x86_64.
abbrev check_ss : Arch → Frame → Prog Globals (Unit {0})
check_ss System.x86_64 f = do
  assert (any_bit f.ctx.uc_flags uc_sigcontext_ss)
  assert (any_bit f.ctx.uc_flags uc_strict_restore_ss)
check_ss System.i386 f = pure tt

unfoldable pub signal_handler : Arch → Frame → Prog Globals Ucontext
signal_handler arch f = do
  set_globals (record { handler_ran = true })
  assert (any_bit f.ctx.uc_flags uc_fp_xstate)
  check_ss arch f
  pure f.ctx

abbrev sa : Sigaction
sa = record {
  handler = System.function 0;
  flags = System.sa_siginfo;
  mask = System.sigemptyset;
  restorer = 0;
}

unfoldable pub main : Prog Globals ℕ
main = do
  succeed (Call.sigaction System.sigusr1 sa)
  _ ← sys (Call.raise System.sigusr1)
  g ← globals
  assert g.handler_ran
  pure 0
