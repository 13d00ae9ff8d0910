-- ===== src/Stepping/PopfClear.antt =====
-- src/trap-flag-popf-clear.cpp: traps stop behind the instruction that clears the trap flag.
pub mod Order
use signal_tests.Base.{ℕ, ◌+◌, bit_and, not, List, [], ◌∷◌, ◌++◌, ltb, ◌==◌, if◌then◌else◌, ◌=ℤ=◌}
use signal_tests.Program.{Prog, ◌>>=◌, ◌>>◌, pure, assert, succeed, sys, globals, set_globals, for}
use signal_tests.System
use signal_tests.System.{Sigaction, Ucontext, Frame, Call, Instruction, Instruction}
use signal_tests.Stepping.Flags.{trap_flag, get_tf, behind, without_trap, execute_all, nops}

pub record Globals : Type 0 where
  pub count : ℕ
  pub rips : ℕ → ℕ
  pub expected_rip : ℕ
  pub last_efl : ℕ

abbrev pub initial : Globals
initial = record { count = 0; rips = λ _. 0; expected_rip = 0; last_efl = 0 }

-- `rips[i] = rip`
abbrev pub write_rip : (ℕ → ℕ) → ℕ → ℕ → ℕ → ℕ
write_rip rips i rip j = if j == i then rip else rips j

unfoldable pub signal_handler : Frame → Prog Globals Ucontext
signal_handler f = do
  assert (f.sig == System.sigtrap)
  assert (f.info.si_code =ℤ= System.trap_trace)
  assert (f.info.si_addr == f.ctx.rip)
  assert (not (trap_flag f.efl))
  g ← globals
  if ltb g.count 16
      then set_globals (record g { rips = write_rip g.rips g.count f.ctx.rip })
      else pure tt
  h ← globals
  set_globals (record h { count = h.count + 1; last_efl = f.ctx.efl })
  pure (if ltb (h.count + 1) 16 then f.ctx else without_trap f.ctx)

abbrev sa : Sigaction
sa = record {
  handler = System.function 0;
  flags = System.sa_siginfo;
  mask = System.sigemptyset;
  restorer = 0;
}

-- `run`: the trap flag is set, and cleared by a `popf` that is itself followed by a trap.
abbrev pub code : List Instruction
code =
    System.pushf ∷ System.or_top 0x100 ∷ System.popf ∷ System.nop ∷ nops 4
    ++ System.pushf ∷ System.and_top 0xfffffeff ∷ System.popf ∷ nops 2
    ++ System.return_near ∷ []

unfoldable pub run : Prog Globals (Unit {0})
run = do
  label ← sys (Call.execute System.label_address)
  g ← globals
  set_globals (record g { expected_rip = label.address })
  execute_all code

-- The assertions of `main` after `run` and `get_tf`.
abbrev pub checks : Prog Globals ℕ
checks = do
  g ← globals
  assert (g.count == 8)
  h ← globals
  for 0 5 (λ i. assert (h.rips i == behind h.expected_rip i))
  assert (h.rips 5 == behind h.expected_rip 5)
  assert (h.rips 6 == behind h.expected_rip 12)
  assert (h.rips 7 == behind h.expected_rip 13)
  assert (bit_and h.last_efl 0x100 == 0)
  pure 0

unfoldable pub main : Prog Globals ℕ
unfolding run
main = do succeed (Call.sigaction System.sigtrap sa); run; tf ← get_tf; assert (not tf); checks
