-- ===== src/Frames/FpstateX87.antt =====
-- src/fpstate-x87-32.cpp: on i386 the frame holds the x87 state, and the return takes it from there.
pub mod Verdict
use signal_tests.Base.{ℕ, ◌/◌, ◌%◌, ◌^◌, Bool, true, false, ◌&&◌, List, [], ◌∷◌, ◌==◌}
use signal_tests.Program.{Prog, ◌>>=◌, ◌>>◌, pure, assert, succeed, sys, globals, set_globals}
use signal_tests.System
use signal_tests.System.{Sigaction, Ucontext, Frame, Call, Arch}

pub record Globals : Type 0 where
  pub handler_ran : Bool

abbrev pub initial : Globals
initial = record { handler_ran = false }

-- `memcmp(a, b, …) == 0` on arrays of one length.
abbrev pub same_bytes : List ℕ → List ℕ → Bool
same_bytes [] [] = true
same_bytes (x ∷ xs) (y ∷ ys) = x == y && same_bytes xs ys
same_bytes _ _ = false

abbrev pub st0_in : List ℕ
st0_in = 0 ∷ 0 ∷ 0 ∷ 0 ∷ 0 ∷ 0 ∷ 0 ∷ 0xC0 ∷ 0xFF ∷ 0x3F ∷ []

abbrev pub st0_new : List ℕ
st0_new = 0 ∷ 0 ∷ 0 ∷ 0 ∷ 0 ∷ 0 ∷ 0 ∷ 0xA0 ∷ 0x00 ∷ 0x40 ∷ []

unfoldable pub signal_handler : Frame → Prog Globals Ucontext
signal_handler f = do
  set_globals (record { handler_ran = true })
  assert (f.ctx.fp.cw / 2 ^ 16 == 0xffff)
  assert (f.ctx.fp.sw / 2 ^ 16 == 0xffff)
  assert (f.ctx.fp.tag / 2 ^ 16 == 0xffff)
  assert (f.ctx.fp.cw % 2 ^ 16 == 0x037f)
  assert (same_bytes f.ctx.fp.st st0_in)
  pure (record f.ctx { fp = record f.ctx.fp { cw = 0xffff027f; st = st0_new } })

abbrev sa : Sigaction
sa = record {
  handler = System.function 0;
  flags = System.sa_siginfo;
  mask = System.sigemptyset;
  restorer = 0;
}

-- On x86_64 the test does nothing.
unfoldable pub main : Arch → Prog Globals ℕ
main System.x86_64 = pure 0
main System.i386 = do
  succeed (Call.sigaction System.sigusr1 sa)
  _ ← sys (Call.execute (System.fldcw 0x037f))
  _ ← sys (Call.execute System.fninit)
  _ ← sys (Call.execute (System.fld st0_in))
  _ ← sys (Call.raise System.sigusr1)
  g ← globals
  assert g.handler_ran
  cw ← sys (Call.execute System.fnstcw)
  assert (cw.address == 0x027f)
  st0_out ← sys (Call.execute System.fstp)
  assert (same_bytes st0_out.words st0_new)
  pure 0
