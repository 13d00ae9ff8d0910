-- ===== src/Frames/FrameAlignment.antt =====
-- src/frame-alignment.cpp: a handler starts with the stack pointer that a call leaves.
pub mod Entries
use signal_tests.Base.{ℕ, ◌+◌, ◌-◌, ◌*◌, ◌%◌, ◌==◌}
use signal_tests.Program.{Prog, ◌>>=◌, ◌>>◌, pure, assert, succeed, sys, globals, set_globals}
use signal_tests.System
use signal_tests.System.{Sigaction, Ucontext, Frame, Call, Arch}

pub record Globals : Type 0 where
  pub entry_sp : ℕ
  pub count : ℕ

abbrev pub initial : Globals
initial = record { entry_sp = 0; count = 0 }

-- `record` is called with the stack pointer of the entry.
unfoldable pub signal_handler : Frame → Prog Globals Ucontext
signal_handler f = do
  g ← globals
  set_globals (record { entry_sp = f.sp; count = g.count + 1 })
  pure f.ctx

-- `sizeof(void*)`
abbrev pub word_size : Arch → ℕ
word_size System.x86_64 = 8
word_size System.i386 = 4

abbrev pub alt_size : ℕ
alt_size = 1024 * 1024

abbrev sa : ℕ → Sigaction
sa flags = record {
  handler = System.function 0;
  flags = flags;
  mask = System.sigemptyset;
  restorer = 0;
}

-- After so many signals the last one has found the stack aligned.
abbrev pub check : Arch → ℕ → Prog Globals (Unit {0})
check arch count = do
  g ← globals
  assert (g.count == count)
  h ← globals
  assert (h.entry_sp % 16 == 16 - word_size arch)

unfoldable pub main : Arch → Prog Globals ℕ
main arch = do
  alt ← sys (Call.malloc alt_size)
  succeed (Call.sigaction System.sigusr1 (sa System.sa_siginfo))
  _ ← sys (Call.raise System.sigusr1)
  check arch 1
  succeed
      (Call.sigaltstack (record { ss_sp = alt.address + 7; ss_size = alt_size - 7; ss_flags = 0 }))
  succeed (Call.sigaction System.sigusr1 (sa (System.sa_siginfo + System.sa_onstack)))
  _ ← sys (Call.raise System.sigusr1)
  check arch 2
  succeed (Call.sigaction System.sigusr2 (sa 0))
  _ ← sys (Call.raise System.sigusr2)
  check arch 3
  pure 0
