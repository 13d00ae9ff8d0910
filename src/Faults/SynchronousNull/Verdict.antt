-- ===== src/Faults/SynchronousNull/Verdict.antt =====
-- What a passing run of this test says of the signal that it has seen.
use signal_tests.Base.{ℕ, ◌≡◌, arith, ◌==◌, ==_iff, pos, ◌=ℤ=◌, =ℤ=_iff}
use signal_tests.Program.{Kernel, World, exited, run, start, Passes}
use signal_tests.Program.Verdict.{
  IsJudge, IsJudge-assert, NeverZero, NeverZero-assert, Convinced, passing_verdict,
}
use signal_tests.System
use signal_tests.System.{Frame}
use signal_tests.Faults.SynchronousNull.{Globals, initial, signal_handler, main}

-- What the assertions of the handler ask of its arguments.
abbrev pub IsExpected : Frame → Type 0
IsExpected f =
    (f.sig ≡ System.sigsegv) × (f.info.si_code ≡ System.segv_maperr) × (f.info.si_addr ≡ 0)

signal_handler-judges : (f : Frame) → IsJudge (IsExpected f) (signal_handler f)
unfolding signal_handler
signal_handler-judges f = IsJudge-assert _ (f.sig == System.sigsegv) _ λ e0.
    IsJudge-assert _ (f.info.si_code =ℤ= System.segv_maperr) _ λ e1.
      IsJudge-assert _ (f.info.si_addr == 0) _ λ e2. λ _. (
        (==_iff f.sig System.sigsegv).0 e0,
        (=ℤ=_iff f.info.si_code System.segv_maperr).0 e1,
        (==_iff f.info.si_addr 0).0 e2,
      )

main-NeverZero : NeverZero main
unfolding main
main-NeverZero = λ r3. NeverZero-assert (r3.result =ℤ= pos 0) _ (λ r2.
    NeverZero-assert (r2.result =ℤ= pos 0) _ (λ r1.
      NeverZero-assert (r1.result =ℤ= pos 0) _
        (λ r0. NeverZero-assert (r0.result =ℤ= pos 0) _ (λ r. λ e. absurd (omega arith)))))

-- Whatever the kernel does, a run that passes has exited in the handler, and the frame of the handler
-- that started last is an unmapped address, 0.
pub synchronous_null_verdict :
    (kern : Kernel) (fuel : ℕ) (s : kern.State)
    → Passes kern fuel signal_handler main s initial
    → (w : World kern.State Globals) × (run kern fuel signal_handler main (start s initial)
        ≡ exited 0 w)
      × Convinced IsExpected w
synchronous_null_verdict kern fuel s passes =
    passing_verdict kern IsExpected signal_handler signal_handler-judges fuel main s initial
      main-NeverZero passes
