-- ===== src/Faults/SynchronousRip/Verdict.antt =====
-- What a passing run of src/synchronous-rip.cpp says of the signal that it has seen.
use signal_tests.Base.{ℕ, not, ◌≡◌, ◌∙◌, arith, ◌==◌, ==_iff, pos, ◌=ℤ=◌, =ℤ=_iff}
use signal_tests.Program.{Kernel, World, exited, run, start, Passes}
use signal_tests.Program.Verdict.{
  JudgesAt, JudgesAt-assert, NeverZero, NeverZero-assert, ConvincedAt, passing_verdict_at,
}
use signal_tests.System
use signal_tests.System.{Frame}
use signal_tests.Faults.SynchronousRip.{Globals, initial, signal_handler, main}

-- What the assertions of the handler ask of its arguments and of the address that is expected.
abbrev pub IsExpected : Globals → Frame → Type 0
IsExpected g f =
    (f.sig ≡ System.sigill)
    × (f.info.si_code ≡ System.ill_illopn)
    × (f.info.si_addr ≡ g.expected_rip)
    × (f.ctx.rip ≡ g.expected_rip)

signal_handler-judges :
    (f : Frame) (g : Globals) → JudgesAt (λ h. IsExpected h f) (signal_handler f) g
unfolding signal_handler
signal_handler-judges f g = JudgesAt-assert _ (f.sig == System.sigill) _ g λ e0.
    JudgesAt-assert _ (f.info.si_code =ℤ= System.ill_illopn) _ g λ e1.
      JudgesAt-assert _ (f.info.si_addr == f.ctx.rip) _ g λ e2.
        JudgesAt-assert _ (f.ctx.rip == g.expected_rip) _ g λ e3. λ _.
          let there = (==_iff f.ctx.rip g.expected_rip).0 e3 in
          (
            (==_iff f.sig System.sigill).0 e0,
            (=ℤ=_iff f.info.si_code System.ill_illopn).0 e1,
            (==_iff f.info.si_addr f.ctx.rip).0 e2 ∙ there,
            there,
          )

main-NeverZero : NeverZero main
unfolding main
main-NeverZero = λ r3. NeverZero-assert (r3.result =ℤ= pos 0) _ (λ r2.
    NeverZero-assert (r2.result =ℤ= pos 0) _ (λ r1. NeverZero-assert (r1.result =ℤ= pos 0) _ (λ r0.
      NeverZero-assert (r0.result =ℤ= pos 0) _ (λ c.
        NeverZero-assert (not (c.result =ℤ= System.minus_one)) _
          (λ _ g p. NeverZero-assert (p.result =ℤ= pos 0) _ (λ r e. absurd (omega arith)))))))

-- Whatever the kernel does, a run that passes has exited in the handler, and the frame of the handler
-- that started last is an illegal operand at the address that the program expects then, both in the
-- information and in the registers.
pub synchronous_rip_verdict :
    (kern : Kernel) (fuel : ℕ) (s : kern.State)
    → Passes kern fuel signal_handler main s initial
    → (w : World kern.State Globals) × (run kern fuel signal_handler main (start s initial)
        ≡ exited 0 w)
      × ConvincedAt IsExpected w
synchronous_rip_verdict kern fuel s passes =
    passing_verdict_at kern IsExpected signal_handler signal_handler-judges fuel main s initial
      main-NeverZero passes
