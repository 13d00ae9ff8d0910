-- ===== src/AltStack/UcStackAlways.antt =====
-- src/uc-stack-always.cpp: the frame holds the alternate stack, whether the handler runs on it or not.
use signal_tests.Base.{ℕ, ◌+◌, ◌*◌, ◌==◌}
use signal_tests.Program.{Prog, ◌>>=◌, ◌>>◌, pure, assert, succeed, sys, globals, set_globals}
use signal_tests.System
use signal_tests.System.{Sigaction, Ucontext, Frame, Call}

abbrev altsz : ℕ
altsz = 1024 * 1024

pub record Globals : Type 0 where
  pub alt : ℕ
  pub count : ℕ

abbrev pub initial : Globals
initial = record { alt = 0; count = 0 }

unfoldable pub signal_handler : Frame → Prog Globals Ucontext
signal_handler f = do
  g ← globals
  set_globals (record g { count = g.count + 1 })
  assert (f.ctx.uc_stack.ss_sp == g.alt)
  assert (f.ctx.uc_stack.ss_size == altsz)
  assert (f.ctx.uc_stack.ss_flags == 0)
  pure f.ctx

abbrev sa : Sigaction
sa = record {
  handler = System.function 0;
  flags = System.sa_siginfo;
  mask = System.sigemptyset;
  restorer = 0;
}

unfoldable pub main : Prog Globals ℕ
main = do
  m ← sys (Call.malloc altsz)
  g ← globals
  set_globals (record g { alt = m.address })
  succeed (Call.sigaltstack (record { ss_sp = m.address; ss_size = altsz; ss_flags = 0 }))
  succeed (Call.sigaction System.sigusr1 sa)
  _ ← sys (Call.raise System.sigusr1)
  succeed
      (Call.sigaction System.sigusr1 (record sa { flags = System.sa_siginfo + System.sa_onstack }))
  _ ← sys (Call.raise System.sigusr1)
  h ← globals
  assert (h.count == 2)
  pure 0
