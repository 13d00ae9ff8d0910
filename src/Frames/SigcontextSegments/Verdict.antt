-- ===== src/Frames/SigcontextSegments/Verdict.antt =====
-- What a passing run of src/sigcontext-segments.cpp says of the frames of its handlers.
use signal_tests.Base.{ℕ, ◌/◌, ◌%◌, ◌^◌, ◌≡◌, refl, ◌≢◌, true, [], arith, pos, ◌=ℤ=◌, All}
use signal_tests.Program.{pure, Kernel, World, finished, run, start, Passes}
use signal_tests.Program.Bind.{IsReader, IsQuiet, IsReader-assert}
use signal_tests.Program.Witness.{IsChecked, passing_witness, Sees, Sees-assert, Sees-check}
use signal_tests.System
use signal_tests.System.{Frame, Arch}
use signal_tests.Frames.SigcontextSegments.{Globals, initial, signal_handler, main}

-- What the assertions of the handler ask of its arguments.
abbrev pub IsExpected : Arch → Frame → Type 0
IsExpected System.x86_64 f =
    (f.ctx.csgsfs % 2 ^ 16 ≡ 0x33)
    × (f.ctx.csgsfs / 2 ^ 16 % 2 ^ 16 ≡ 0)
    × (f.ctx.csgsfs / 2 ^ 32 % 2 ^ 16 ≡ 0)
    × (f.ctx.csgsfs / 2 ^ 48 % 2 ^ 16 ≡ 0x2b)
IsExpected System.i386 f =
    (f.ctx.cs ≡ 0x23) × (f.ctx.ss ≡ 0x2b) × (f.ctx.ds ≡ 0x2b) × (f.ctx.es ≡ 0x2b)

signal_handler-IsChecked : (arch : Arch) → IsChecked (IsExpected arch) (signal_handler arch)
unfolding signal_handler
signal_handler-IsChecked System.x86_64 f g = ground arith
signal_handler-IsChecked System.i386 f g = ground arith

signal_handler-IsQuiet : (arch : Arch) (f : Frame) → IsQuiet (signal_handler arch f)
unfolding signal_handler
signal_handler-IsQuiet System.x86_64 f = ground arith
signal_handler-IsQuiet System.i386 f = ground arith

main-IsReader : IsReader main
unfolding main
main-IsReader = λ r.
    IsReader-assert (r.result =ℤ= pos 0) _ λ _ g. IsReader-assert g.handler_ran (pure {A = ℕ} 0) tt

main-Sees : Sees (λ g. g.handler_ran ≡ true) main
unfolding main
main-Sees = λ r. Sees-assert _ (r.result =ℤ= pos 0) _ λ _ g. Sees-check _ g g.handler_ran _ λ e. e

-- Whatever the kernel does, a run that passes has started a handler, and in each frame whose handler
-- it has started the segment registers are those of a user program.
pub sigcontext_segments_frames :
    (arch : Arch) (kern : Kernel) (fuel : ℕ) (s : kern.State)
    → Passes kern fuel (signal_handler arch) main s initial
    → (w : World kern.State Globals) × (run kern fuel (signal_handler arch) main (start s initial)
        ≡ finished 0 w)
      × (w.served ≢ [])
      × All (IsExpected arch) w.served
sigcontext_segments_frames arch kern fuel s passes =
    passing_witness (IsExpected arch) (signal_handler arch) (signal_handler-IsChecked arch)
      (λ g. g.handler_ran) kern fuel main s initial (signal_handler-IsQuiet arch) main-IsReader
      main-Sees refl passes
