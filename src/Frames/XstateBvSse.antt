-- ===== src/Frames/XstateBvSse.antt =====
-- src/xstate-bv-sse.cpp: a component that the handler takes out of the frame is reset.
pub mod Verdict
use signal_tests.Base.{ℕ, bit_and, Bool, true, false, not, List, [], ◌∷◌, ◌==◌, get_or}
use signal_tests.Program.{Prog, ◌>>=◌, ◌>>◌, pure, assert, succeed, sys, globals, set_globals, for}
use signal_tests.Program.Bind.{after}
use signal_tests.System
use signal_tests.System.{Sigaction, Ucontext, Frame, Call}

pub record Globals : Type 0 where
  pub handler_ran : Bool

abbrev pub initial : Globals
initial = record { handler_ran = false }

-- The bit of the component in the header of the extended state.
abbrev pub component : ℕ
component = 2

unfoldable pub signal_handler : Frame → Prog Globals Ucontext
signal_handler f = do
  set_globals (record { handler_ran = true })
  assert (not (bit_and f.ctx.xstate_bv component == 0))
  pure (record f.ctx { xstate_bv = bit_and f.ctx.xstate_bv (System.complement component) })

abbrev sa : Sigaction
sa = record {
  handler = System.function 0;
  flags = System.sa_siginfo;
  mask = System.sigemptyset;
  restorer = 0;
}

abbrev before : List ℕ
before = 0xdead0000 ∷ 0xdead0001 ∷ 0xdead0002 ∷ 0xdead0003 ∷ []

unfoldable pub main : Prog Globals ℕ
main = do
  succeed (Call.sigaction System.sigusr1 sa)
  _ ← sys (Call.execute (System.load_xmm before))
  _ ← sys (Call.raise System.sigusr1)
  after ← sys (Call.execute System.store_xmm)
  g ← globals
  assert g.handler_ran
  for 0 4 (λ i. assert (get_or after.words i 0 == 0))
  pure 0
