-- ===== src/Stepping/TrapFlag.antt =====
-- src/trap-flag.cpp: with the trap flag set every instruction is followed by a trap.
pub mod Order
use signal_tests.Base.{
  ℕ, ◌+◌, bit_and, Bool, true, false, not, List, [], ◌∷◌, ◌++◌, ltb, ◌==◌, if◌then◌else◌, ◌=ℤ=◌,
}
use signal_tests.Program.{Prog, ◌>>=◌, ◌>>◌, pure, assert, succeed, sys, globals, set_globals}
use signal_tests.System
use signal_tests.System.{Sigaction, Ucontext, Frame, Call, Instruction, Instruction}
use signal_tests.Stepping.Flags.{trap_flag, behind, before, without_trap, execute_all, nops}

pub record Globals : Type 0 where
  pub count : ℕ
  pub rip_ok : Bool
  pub expected_rip : ℕ

abbrev pub initial : Globals
initial = record { count = 0; rip_ok = true; expected_rip = 0 }

-- The first trap comes behind `popf` and a `nop`.
abbrev check_first : ℕ → Frame → Prog Globals (Unit {0})
check_first count f =
    if count == 1
    then (assert (f.memory (before f.ctx.rip 2) == 0x9d)
        >> (assert (f.memory (before f.ctx.rip 1) == 0x90) >> assert (f.memory f.ctx.rip == 0x90)))
    else pure tt

unfoldable pub signal_handler : Frame → Prog Globals Ucontext
signal_handler f = do
  g ← globals
  set_globals (record g { count = g.count + 1 })
  assert (f.info.si_code =ℤ= System.trap_trace)
  assert (f.info.si_addr == f.ctx.rip)
  assert (not (bit_and f.ctx.efl 0x100 == 0))
  assert (f.ctx.err == 0)
  assert (f.ctx.trapno == 1)
  assert (not (trap_flag f.efl))
  assert (f.memory (before f.ctx.rip 1) == 0x90)
  h ← globals
  check_first h.count f
  i ← globals
  if f.ctx.rip == before (behind i.expected_rip i.count) 1
      then pure tt
      else set_globals (record i { rip_ok = false })
  j ← globals
  pure (if ltb j.count 10 then f.ctx else without_trap f.ctx)

abbrev sa : Sigaction
sa = record {
  handler = System.function 0;
  flags = System.sa_siginfo;
  mask = System.sigemptyset;
  restorer = 0;
}

-- `run`: the address of the label is stored; the trap flag is set; ten `nop`s follow.
abbrev pub code : List Instruction
code = System.pushf ∷ System.or_top 0x100 ∷ System.popf ∷ nops 10 ++ System.return_near ∷ []

unfoldable pub run : Prog Globals (Unit {0})
run = do
  label ← sys (Call.execute System.label_address)
  g ← globals
  set_globals (record g { expected_rip = label.address })
  execute_all code

unfoldable pub main : Prog Globals ℕ
unfolding run
main = do
  succeed (Call.sigaction System.sigtrap sa)
  run
  g ← globals
  assert g.rip_ok
  h ← globals
  assert (h.count == 10)
  pure 0
