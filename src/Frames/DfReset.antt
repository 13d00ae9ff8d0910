-- ===== src/Frames/DfReset.antt =====
-- src/df-reset.cpp: a handler starts with the direction flag clear, and the return takes the flags from the frame.
pub mod Verdict
use signal_tests.Base.{ℕ, ◌*◌, ◌/◌, ◌%◌, ◌^◌, bit_and, bit_or, Bool, not, ◌==◌}
use signal_tests.Program.{Prog, ◌>>=◌, ◌>>◌, pure, assert, succeed, sys}
use signal_tests.System
use signal_tests.System.{Sigaction, Ucontext, Frame, Call}

pub record Globals : Type 0 where

abbrev pub initial : Globals
initial = record {}

-- `shr eax, 10; and eax, 1` on the flags.
abbrev pub direction_flag : ℕ → Bool
direction_flag efl = bit_and (efl / 2 ^ 10) 1 == 1

-- `get_df`: the flags are read and tested.
abbrev get_df : Prog Globals Bool
get_df = do r ← sys (Call.execute System.read_flags); pure (direction_flag r.address)

-- `set_df`: the bit is added to the flags that were read.
abbrev set_df : ℕ → Prog Globals (Unit {0})
set_df val = do
  r ← sys (Call.execute System.read_flags)
  _ ← sys (Call.execute (System.write_flags (bit_or r.address (val * 2 ^ 10 % 2 ^ 32))))
  pure tt

-- In the handler the flags are those with which it has started.
unfoldable pub signal_handler : Frame → Prog Globals Ucontext
signal_handler f = do
  assert (not (direction_flag f.efl))
  assert (direction_flag f.ctx.efl)
  pure (record f.ctx { efl = bit_and f.ctx.efl (System.complement (2 ^ 10)) })

abbrev sa : Sigaction
sa = record {
  handler = System.function 0;
  flags = System.sa_siginfo;
  mask = System.sigemptyset;
  restorer = 0;
}

unfoldable pub main : Prog Globals ℕ
main = do
  succeed (Call.sigaction System.sigusr1 sa)
  set_df 1
  _ ← sys (Call.raise System.sigusr1)
  df ← get_df
  assert (not df)
  pure 0
