-- ===== src/Frames/XstateBvX87.antt =====
-- src/xstate-bv-x87.cpp: the x87 state that the handler takes out of the frame is reset.
pub mod Verdict
use signal_tests.Base.{ℕ, bit_and, Bool, true, false, not, ◌==◌, get_or}
use signal_tests.Program.{Prog, ◌>>=◌, ◌>>◌, pure, assert, succeed, sys, globals, set_globals}
use signal_tests.System
use signal_tests.System.{Sigaction, Ucontext, Frame, Call}

pub record Globals : Type 0 where
  pub handler_ran : Bool

abbrev pub initial : Globals
initial = record { handler_ran = false }

-- The bit of the component in the header of the extended state.
abbrev pub component : ℕ
component = 1

unfoldable pub signal_handler : Frame → Prog Globals Ucontext
signal_handler f = do
  set_globals (record { handler_ran = true })
  assert (not (bit_and f.ctx.xstate_bv component == 0))
  pure (record f.ctx { xstate_bv = bit_and f.ctx.xstate_bv (System.complement component) })

abbrev sa : Sigaction
sa = record {
  handler = System.function 0;
  flags = System.sa_siginfo;
  mask = System.sigemptyset;
  restorer = 0;
}

unfoldable pub main : Prog Globals ℕ
main = do
  succeed (Call.sigaction System.sigusr1 sa)
  _ ← sys (Call.execute System.fninit)
  _ ← sys (Call.execute (System.fldcw 0x027f))
  _ ← sys (Call.execute System.fld1)
  _ ← sys (Call.raise System.sigusr1)
  env ← sys (Call.execute System.fnstenv)
  g ← globals
  assert g.handler_ran
  assert (bit_and (get_or env.words 0 0) 0xffff == 0x037f)
  assert (bit_and (get_or env.words 1 0) 0xffff == 0)
  assert (bit_and (get_or env.words 2 0) 0xffff == 0xffff)
  pure 0
