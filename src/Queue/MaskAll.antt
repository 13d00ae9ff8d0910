-- ===== src/Queue/MaskAll.antt =====
-- src/mask-all.cpp: with all signals in `sa_mask` the handler of the lower signal ends before that of
-- the higher one starts.
pub mod Order
use signal_tests.Base.{ℕ, ◌+◌, ◌==◌, if◌then◌else◌}
use signal_tests.Program.{Prog, ◌>>=◌, ◌>>◌, pure, assert, succeed, sys, globals, set_globals}
use signal_tests.System
use signal_tests.System.{Sigaction, Ucontext, Frame, Call}

abbrev pub mysig : ℕ
mysig = 40

pub record Globals : Type 0 where
  pub count : ℕ

abbrev pub initial : Globals
initial = record { count = 0 }

unfoldable pub signal_handler : Frame → Prog Globals Ucontext
signal_handler f = do
  g ← globals
  if g.count == 0 then assert (f.sig == mysig) else assert (f.sig == mysig + 1)
  set_globals (record { count = g.count + 1 })
  pure f.ctx

abbrev sa : Sigaction
sa = record {
  handler = System.function 0;
  flags = System.sa_siginfo;
  mask = System.sigfillset;
  restorer = 0;
}

-- The calls, before the count is checked.
unfoldable pub steps : Prog Globals (Unit {0})
steps = do
  _ ← sys (Call.sigprocmask System.sig_block System.sigfillset)
  succeed (Call.sigaction mysig sa)
  succeed (Call.sigaction (mysig + 1) sa)
  _ ← sys (Call.raise mysig)
  _ ← sys (Call.raise (mysig + 1))
  succeed (Call.sigprocmask System.sig_unblock System.sigfillset)

unfoldable pub main : Prog Globals ℕ
unfolding steps
main = do steps; g ← globals; assert (g.count == 2); pure 0
