-- ===== src/Masks/RtSigactionOldact.antt =====
-- src/rt-sigaction-oldact.cpp: rt_sigaction(2) gives back what was set, restorer and all.
use signal_tests.Base.{ℕ, ◌+◌, ◌==◌, pos, ◌=ℤ=◌}
use signal_tests.Program.{Prog, ◌>>=◌, ◌>>◌, pure, assert, succeed, sys}
use signal_tests.System
use signal_tests.System.{Sigaction, Ucontext, Frame, Call, Handler, same_handler}

pub record Globals : Type 0 where

abbrev pub initial : Globals
initial = record {}

-- The test sets no handler.
unfoldable pub no_handler : Frame → Prog Globals Ucontext
no_handler f = pure f.ctx

-- The addresses of `dummy_handler` and `dummy_restorer_impl`; the kernel's structure has the fields of
-- `Sigaction`.
abbrev act : ℕ → ℕ → Sigaction
act dummy_handler dummy_restorer_impl = record {
  handler = System.function dummy_handler;
  flags = System.sa_restorer + System.sa_nodefer;
  mask = System.bit_of System.sigurg;
  restorer = dummy_restorer_impl;
}

unfoldable pub main : ℕ → ℕ → Prog Globals ℕ
main dummy_handler dummy_restorer_impl = do
  succeed (Call.sigaction System.sigpwr (act dummy_handler dummy_restorer_impl))
  old ← sys (Call.sigaction_query System.sigpwr)
  assert (old.result =ℤ= pos 0)
  assert (same_handler old.old_act.handler (System.function dummy_handler))
  assert (old.old_act.flags == System.sa_restorer + System.sa_nodefer)
  assert (old.old_act.mask == System.bit_of System.sigurg)
  assert (old.old_act.restorer == dummy_restorer_impl)
  pure 0
