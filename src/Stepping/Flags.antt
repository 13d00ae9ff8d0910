-- ===== src/Stepping/Flags.antt =====
-- get_tf of src/trap-flag.cpp, trap-flag-popf-clear.cpp and trap-flag-popf-repeat.cpp, and code that is executed one instruction after the other.
use signal_tests.Base.{ℕ, zero, suc, ◌+◌, ◌-◌, ◌/◌, ◌%◌, ◌^◌, bit_and, Bool, List, [], ◌∷◌, ◌==◌}
use signal_tests.Program.{Prog, call, ◌>>=◌, pure, sys}
use signal_tests.System
use signal_tests.System.{Ucontext, Call, Instruction, Instruction}

-- `pushf; pop rax; shr eax, 8; and eax, 1`: the trap flag of these flags.
abbrev pub trap_flag : ℕ → Bool
trap_flag efl = bit_and (efl / 2 ^ 8) 1 == 1

-- `get_tf` outside of handlers; in a handler the flags are those with which it has started.
abbrev pub get_tf : {G : Type 0} → Prog G Bool
get_tf = do r ← sys (Call.execute System.read_flags); pure (trap_flag r.address)

-- The bytes of an address and a distance, on 64 bits.
abbrev pub behind : ℕ → ℕ → ℕ
behind address d = (address + d) % 2 ^ 64

abbrev pub before : ℕ → ℕ → ℕ
before address d = (address + 2 ^ 64 - d) % 2 ^ 64

-- `EFL &= ~0x100`
abbrev pub without_trap : Ucontext → Ucontext
without_trap c = record c { efl = bit_and c.efl (System.complement 0x100) }

-- Signals may come between any two instructions.
abbrev pub execute_all : {G : Type 0} → List Instruction → Prog G (Unit {0})
execute_all [] = pure tt
execute_all (i ∷ is) = call (Call.execute i) (λ _. execute_all is)

abbrev pub nops : ℕ → List Instruction
nops zero = []
nops (suc n) = System.nop ∷ nops n
