-- ===== src/Faults/SynchronousInt3/Verdict.antt =====
-- What a passing run of this test says of the signal that it has seen.
use signal_tests.Base.{ℕ, ◌+◌, ◌-◌, ◌%◌, ◌^◌, ◌≡◌, arith, ◌==◌, ==_iff, pos, ◌=ℤ=◌, =ℤ=_iff}
use signal_tests.Program.{Kernel, World, exited, run, start, Passes}
use signal_tests.Program.Verdict.{
  IsJudge, IsJudge-assert, NeverZero, NeverZero-assert, Convinced, passing_verdict,
}
use signal_tests.System
use signal_tests.System.{Frame}
use signal_tests.Faults.SynchronousInt3.{Globals, initial, signal_handler, main}

-- What the assertions of the handler ask of its arguments.
abbrev pub IsExpected : ℕ → Frame → Type 0
IsExpected int3_address f =
    (f.sig ≡ System.sigtrap)
    × (f.info.si_code ≡ System.si_kernel)
    × (f.info.si_addr ≡ 0)
    × (int3_address ≡ (f.ctx.rip + 2 ^ 64 - 1) % 2 ^ 64)

signal_handler-judges :
    (int3_address : ℕ) (f : Frame)
    → IsJudge (IsExpected int3_address f) (signal_handler int3_address f)
unfolding signal_handler
signal_handler-judges int3_address f = IsJudge-assert _ (f.sig == System.sigtrap) _ λ e0.
    IsJudge-assert _ (f.info.si_code =ℤ= System.si_kernel) _ λ e1.
      IsJudge-assert _ (f.info.si_addr == 0) _ λ e2.
        IsJudge-assert _ (int3_address == (f.ctx.rip + 2 ^ 64 - 1) % 2 ^ 64) _ λ e3. λ _. (
          (==_iff f.sig System.sigtrap).0 e0,
          (=ℤ=_iff f.info.si_code System.si_kernel).0 e1,
          (==_iff f.info.si_addr 0).0 e2,
          (==_iff int3_address ((f.ctx.rip + 2 ^ 64 - 1) % 2 ^ 64)).0 e3,
        )

main-NeverZero : NeverZero main
unfolding main
main-NeverZero = λ r4. NeverZero-assert (r4.result =ℤ= pos 0) _ (λ r3.
    NeverZero-assert (r3.result =ℤ= pos 0) _ (λ r2. NeverZero-assert (r2.result =ℤ= pos 0) _ (λ r1.
      NeverZero-assert (r1.result =ℤ= pos 0) _
        (λ r0. NeverZero-assert (r0.result =ℤ= pos 0) _ (λ r. λ e. absurd (omega arith))))))

-- Whatever the kernel does, a run that passes has exited in the handler, and the frame of the handler
-- that started last is a trap one byte behind the function.
pub synchronous_int3_verdict :
    (int3_address : ℕ) (kern : Kernel) (fuel : ℕ) (s : kern.State)
    → Passes kern fuel (signal_handler int3_address) main s initial
    → (w : World kern.State Globals) × (run kern fuel
          (signal_handler int3_address)
          main
          (start s initial)
        ≡ exited 0 w)
      × Convinced (IsExpected int3_address) w
synchronous_int3_verdict int3_address kern fuel s passes =
    passing_verdict kern (IsExpected int3_address) (signal_handler int3_address)
      (signal_handler-judges int3_address) fuel main s initial main-NeverZero passes
