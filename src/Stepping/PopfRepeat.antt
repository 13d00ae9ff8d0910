-- ===== src/Stepping/PopfRepeat.antt =====
-- src/trap-flag-popf-repeat.cpp: the trap flag is set and cleared again and again.
pub mod Order
use signal_tests.Base.{ℕ, ◌+◌, not, List, [], ◌∷◌, ◌++◌, ◌==◌, ◌=ℤ=◌}
use signal_tests.Program.{Prog, ◌>>=◌, ◌>>◌, pure, assert, succeed, globals, set_globals, for}
use signal_tests.System
use signal_tests.System.{Sigaction, Ucontext, Frame, Call, Instruction, Instruction}
use signal_tests.Stepping.Flags.{trap_flag, get_tf, execute_all, nops}

pub record Globals : Type 0 where
  pub count : ℕ

abbrev pub initial : Globals
initial = record { count = 0 }

unfoldable pub signal_handler : Frame → Prog Globals Ucontext
signal_handler f = do
  assert (f.sig == System.sigtrap)
  assert (f.info.si_code =ℤ= System.trap_trace)
  assert (f.info.si_addr == f.ctx.rip)
  assert (not (trap_flag f.efl))
  g ← globals
  set_globals (record { count = g.count + 1 })
  pure f.ctx

abbrev sa : Sigaction
sa = record {
  handler = System.function 0;
  flags = System.sa_siginfo;
  mask = System.sigemptyset;
  restorer = 0;
}

abbrev pub body_code : List Instruction
body_code = nops 4 ++ System.return_near ∷ []

unfoldable pub body : Prog Globals (Unit {0})
body = execute_all body_code

-- `run`, with the call of `body` in it.
abbrev pub code : List Instruction
code =
    System.pushf ∷ System.or_top 0x100 ∷ System.popf ∷ System.nop ∷ System.call_near ∷ body_code
    ++ System.pushf ∷ System.and_top 0xfffffeff ∷ System.popf ∷ nops 2
    ++ System.return_near ∷ []

unfoldable pub run : Prog Globals (Unit {0})
run = execute_all code

unfoldable pub round : Prog Globals (Unit {0})
unfolding run body
round = do
  set_globals (record { count = 0 })
  run
  tf ← get_tf
  assert (not tf)
  g ← globals
  assert (g.count == 10)
  for 0 1000 (λ j. body)
  h ← globals
  assert (h.count == 10)

unfoldable pub main : Prog Globals ℕ
unfolding round
main = do succeed (Call.sigaction System.sigtrap sa); for 0 8 (λ i. round); pure 0
