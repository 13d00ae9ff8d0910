-- ===== src/Frames/FpstateLegacy.antt =====
-- src/fpstate-legacy-32.cpp: on i386 a handler without SA_SIGINFO finds the registers above its argument.
pub mod Verdict
use signal_tests.Base.{ℕ, ◌+◌, Bool, true, false, not, List, map, ◌==◌, range, get_or}
use signal_tests.Program.{Prog, ◌>>=◌, ◌>>◌, pure, assert, succeed, sys, globals, set_globals, for}
use signal_tests.Program.Bind.{after}
use signal_tests.System
use signal_tests.System.{Sigaction, Ucontext, Frame, Call, Arch}

pub record Globals : Type 0 where
  pub handler_ran : Bool

abbrev pub initial : Globals
initial = record { handler_ran = false }

-- The four words of two registers, with this in their upper halves.
abbrev pub eight_words : ℕ → List ℕ
eight_words upper = map (λ k. upper + k) (range 0 8)

-- `before` from the start of `main` on: word j of register i is entry 4 * i + j.
abbrev pub before : List ℕ
before = eight_words 0xdead0000

unfoldable pub signal_handler : Frame → Prog Globals Ucontext
signal_handler f = do
  set_globals (record { handler_ran = true })
  assert (f.sig == System.sigusr1)
  assert (not (f.ctx.fpstate == 0))
  assert (f.ctx.oldmask == System.bit_of System.sigurg)
  assert (f.ctx.cs == 0x23)
  for 0 8 (λ k. assert (get_or f.ctx.fp.xmm k 0 == get_or before k 0))
  assert (f.ctx.fp.magic == 0)
  pure (record f.ctx { fp = record f.ctx.fp { xmm = eight_words 0xf00d0000 } })

abbrev sa : Sigaction
sa = record { handler = System.function 0; flags = 0; mask = System.sigemptyset; restorer = 0 }

-- On x86_64 the test does nothing.
unfoldable pub main : Arch → Prog Globals ℕ
main System.x86_64 = pure 0
main System.i386 = do
  succeed (Call.sigprocmask System.sig_block (System.sigaddset System.sigemptyset System.sigurg))
  succeed (Call.sigaction System.sigusr1 sa)
  _ ← sys (Call.execute (System.load_xmm before))
  _ ← sys (Call.raise System.sigusr1)
  after ← sys (Call.execute System.store_xmm)
  g ← globals
  assert g.handler_ran
  for 0 8 (λ k. assert (get_or after.words k 0 == 0xf00d0000 + k))
  pure 0
