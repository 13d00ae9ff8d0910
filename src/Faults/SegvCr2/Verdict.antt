-- ===== src/Faults/SegvCr2/Verdict.antt =====
-- What a passing run of this test says of the signal that it has seen.
use signal_tests.Base.{ℕ, ◌≡◌, arith, ◌==◌, ==_iff, pos, ◌=ℤ=◌}
use signal_tests.Program.{Kernel, World, exited, run, start, Passes}
use signal_tests.Program.Verdict.{
  IsJudge, IsJudge-assert, NeverZero, NeverZero-assert, Convinced, passing_verdict,
}
use signal_tests.System.{Frame}
use signal_tests.Faults.SegvCr2.{Globals, initial, signal_handler, main, bad_address}

-- What the assertions of the handler ask of its arguments.
abbrev pub IsExpected : Frame → Type 0
IsExpected f = (f.ctx.cr2 ≡ bad_address)

signal_handler-judges : (f : Frame) → IsJudge (IsExpected f) (signal_handler f)
unfolding signal_handler
signal_handler-judges f =
    IsJudge-assert _ (f.ctx.cr2 == bad_address) _ λ e0. λ _. (==_iff f.ctx.cr2 bad_address).0 e0

main-NeverZero : NeverZero main
unfolding main
main-NeverZero = λ r0. NeverZero-assert (r0.result =ℤ= pos 0) _ (λ r. λ e. absurd (omega arith))

-- Whatever the kernel does, a run that passes has exited in the handler, and the frame of the handler
-- that started last is the address of the fault in its registers.
pub segv_cr2_verdict :
    (kern : Kernel) (fuel : ℕ) (s : kern.State)
    → Passes kern fuel signal_handler main s initial
    → (w : World kern.State Globals) × (run kern fuel signal_handler main (start s initial)
        ≡ exited 0 w)
      × Convinced IsExpected w
segv_cr2_verdict kern fuel s passes =
    passing_verdict kern IsExpected signal_handler signal_handler-judges fuel main s initial
      main-NeverZero passes
