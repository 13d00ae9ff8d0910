-- ===== src/Faults/SynchronousRip.antt =====
-- src/synchronous-rip.cpp: an undefined instruction behind others, at an address that is known.
pub mod Verdict
use signal_tests.Base.{ℕ, ◌+◌, ◌%◌, ◌^◌, not, List, [], ◌∷◌, ◌==◌, ◌=ℤ=◌}
use signal_tests.Program.{Prog, exit, ◌>>=◌, ◌>>◌, pure, assert, succeed, sys, globals, set_globals}
use signal_tests.System
use signal_tests.System.{Sigaction, Ucontext, Frame, Call}

pub record Globals : Type 0 where
  pub expected_rip : ℕ

abbrev pub initial : Globals
initial = record { expected_rip = System.all_ones }

-- add eax, ebx; movss xmm0, xmm1; psadbw xmm0, xmm1; ud2
abbrev pub code_bytes : List ℕ
code_bytes = 0x01 ∷ 0xd8 ∷ 0xf3 ∷ 0x0f ∷ 0x10 ∷ 0xc1 ∷ 0x66 ∷ 0x0f ∷ 0xf6 ∷ 0xc1 ∷ 0x0f ∷ 0x0b ∷ []

-- The test ends in its handler: nothing returns from it.
unfoldable pub signal_handler : Frame → Prog Globals Ucontext
signal_handler f = do
  assert (f.sig == System.sigill)
  assert (f.info.si_code =ℤ= System.ill_illopn)
  assert (f.info.si_addr == f.ctx.rip)
  g ← globals
  assert (f.ctx.rip == g.expected_rip)
  exit 0

abbrev sa : Sigaction
sa = record {
  handler = System.function 0;
  flags = System.sa_siginfo;
  mask = System.sigemptyset;
  restorer = 0;
}

unfoldable pub main : Prog Globals ℕ
main = do
  succeed (Call.sigaction System.sigsegv sa)
  succeed (Call.sigaction System.sigbus sa)
  succeed (Call.sigaction System.sigill sa)
  succeed (Call.sigaction System.sigfpe sa)
  code ← sys (Call.mmap 4096)
  assert (not (code.result =ℤ= System.minus_one))
  _ ← sys (Call.write_memory code.address code_bytes)
  g ← globals
  set_globals (record g { expected_rip = (code.address + 10) % 2 ^ 64 })
  succeed (Call.mprotect code.address 4096)
  _ ← sys (Call.execute (System.jump_to code.address))
  pure 1
