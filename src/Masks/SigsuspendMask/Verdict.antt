-- ===== src/Masks/SigsuspendMask/Verdict.antt =====
-- What a passing run of src/sigsuspend-mask.cpp says of the frames of its handlers.
use signal_tests.Base.{ℕ, ◌-◌, ◌≡◌, refl, ◌≢◌, true, [], arith, pos, ◌=ℤ=◌, All}
use signal_tests.Program.{pure, Kernel, World, finished, run, start, Passes}
use signal_tests.Program.Bind.{IsReader, IsQuiet, IsReader-assert, IsReader-then}
use signal_tests.Program.Witness.{IsChecked, passing_witness, Sees, Sees-assert, Sees-check}
use signal_tests.System
use signal_tests.System.{Frame, Arch}
use signal_tests.Masks.SigsuspendMask.{Globals, initial, signal_handler, main}

-- The frame of a call that a signal has ended, with all signals blocked before the call that can be.
abbrev pub IsExpected : Arch → Frame → Type 0
IsExpected arch f =
    (f.ctx.rax ≡ System.minus_eintr)
    × (f.memory (f.ctx.rip - 2) ≡ System.syscall_first arch)
    × (f.memory (f.ctx.rip - 1) ≡ System.syscall_second arch)
    × (f.ctx.uc_sigmask ≡ System.blockable)

signal_handler-IsChecked : (arch : Arch) → IsChecked (IsExpected arch) (signal_handler arch)
unfolding signal_handler
signal_handler-IsChecked arch f g = ground arith

signal_handler-IsQuiet : (arch : Arch) (f : Frame) → IsQuiet (signal_handler arch f)
unfolding signal_handler
signal_handler-IsQuiet arch f = ground arith

main-IsReader : IsReader main
unfolding main
main-IsReader =
    IsReader-then _
      (IsReader-then _ (IsReader-then _ λ _ g. IsReader-assert g.ok (pure {A = ℕ} 0) tt))

main-Sees : Sees (λ g. g.ok ≡ true) main
unfolding main
main-Sees = λ a. Sees-assert _ (a.result =ℤ= pos 0) _ λ b.
    Sees-assert _ (b.result =ℤ= pos 0) _
      λ c. Sees-assert _ (c.result =ℤ= pos 0) _ λ _ g. Sees-check _ g g.ok _ λ e. e

-- Whatever the kernel does, a run that passes has started a handler, and each frame whose handler it has
-- started is that of a system call that has failed with EINTR, and keeps the mask from before the call,
-- in which every signal is blocked that can be.
pub sigsuspend_mask_frames :
    (arch : Arch) (kern : Kernel) (fuel : ℕ) (s : kern.State)
    → Passes kern fuel (signal_handler arch) main s initial
    → (w : World kern.State Globals) × (run kern fuel (signal_handler arch) main (start s initial)
        ≡ finished 0 w)
      × (w.served ≢ [])
      × All (IsExpected arch) w.served
sigsuspend_mask_frames arch kern fuel s passes =
    passing_witness (IsExpected arch) (signal_handler arch) (signal_handler-IsChecked arch)
      (λ g. g.ok) kern fuel main s initial (signal_handler-IsQuiet arch) main-IsReader main-Sees
      refl passes
