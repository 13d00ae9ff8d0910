-- ===== src/Frames/Segments.antt =====
-- src/segments.cpp: on i386 the frame holds the segment registers of the program.
use signal_tests.Base.{ℕ, ◌==◌}
use signal_tests.Program.{Prog, ◌>>=◌, ◌>>◌, pure, assert, sys, globals, set_globals}
use signal_tests.System
use signal_tests.System.{Sigaction, Ucontext, Frame, Call, Arch, Segment}

pub record Globals : Type 0 where
  pub vcs : ℕ
  pub vss : ℕ
  pub vds : ℕ
  pub ves : ℕ
  pub vgs : ℕ
  pub vfs : ℕ

abbrev pub initial : Globals
initial = record { vcs = 0; vss = 0; vds = 0; ves = 0; vgs = 0; vfs = 0 }

unfoldable pub signal_handler : Frame → Prog Globals Ucontext
signal_handler f = do
  g ← globals
  assert (f.ctx.es == g.ves)
  assert (f.ctx.cs == g.vcs)
  assert (f.ctx.ds == g.vds)
  assert (f.ctx.ss == g.vss)
  assert (f.ctx.gs == g.vgs)
  assert (f.ctx.fs == g.vfs)
  pure f.ctx

abbrev sa : Sigaction
sa = record {
  handler = System.function 0;
  flags = System.sa_siginfo;
  mask = System.sigemptyset;
  restorer = 0;
}

-- `get_cs` and the like: `mov eax, cs`
abbrev get_segment : Segment → Prog Globals ℕ
get_segment s = do r ← sys (Call.execute (System.read_segment s)); pure r.address

-- On x86_64 the test does nothing.
unfoldable pub main : Arch → Prog Globals ℕ
main System.x86_64 = pure 0
main System.i386 = do
  _ ← sys (Call.sigaction System.sigusr1 sa)
  cs ← get_segment Segment.cs
  g0 ← globals
  set_globals (record g0 { vcs = cs })
  ds ← get_segment Segment.ds
  g1 ← globals
  set_globals (record g1 { vds = ds })
  ss ← get_segment Segment.ss
  g2 ← globals
  set_globals (record g2 { vss = ss })
  es ← get_segment Segment.es
  g3 ← globals
  set_globals (record g3 { ves = es })
  fs ← get_segment Segment.fs
  g4 ← globals
  set_globals (record g4 { vfs = fs })
  gs ← get_segment Segment.gs
  g5 ← globals
  set_globals (record g5 { vgs = gs })
  _ ← sys (Call.raise System.sigusr1)
  pure 0
