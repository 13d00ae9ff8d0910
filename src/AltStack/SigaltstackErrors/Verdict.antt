-- ===== src/AltStack/SigaltstackErrors/Verdict.antt =====
-- What src/sigaltstack-errors.cpp asks of the system.
use signal_tests.Base.{ℕ, ◌≡◌}
use signal_tests.System
use signal_tests.System.{Call, Reply, Stack}
use signal_tests.Program.Meets.{Meets}
use signal_tests.AltStack.SigaltstackErrors.{altsz}

-- sigaltstack(2) has refused this stack.
abbrev pub IsRefused : (ℕ → Stack) → ℕ → Call → Reply → Type 0
IsRefused st e c r =
    (alt : ℕ) × (c ≡ Call.sigaltstack (st alt)) × (r.result ≡ System.minus_one) × (r.errno ≡ e)

-- It has reported this one.
abbrev pub IsReported : (ℕ → Stack) → Call → Reply → Type 0
IsReported st c r =
    (c ≡ Call.sigaltstack_query)
    × ((alt : ℕ) × (r.old_stack.ss_sp ≡ (st alt).ss_sp)
        × (r.old_stack.ss_size ≡ (st alt).ss_size)
        × (r.old_stack.ss_flags ≡ (st alt).ss_flags))

abbrev pub odd_flags : ℕ → Stack
odd_flags alt = record { ss_sp = alt; ss_size = altsz; ss_flags = 0x1234 }

abbrev pub whole : ℕ → Stack
whole alt = record { ss_sp = alt; ss_size = altsz; ss_flags = 0 }

abbrev pub nothing : ℕ → Stack
nothing alt = record { ss_sp = 0; ss_size = 0; ss_flags = System.ss_disable }
