-- ===== src/Frames/FpstateLegacy/Verdict.antt =====
-- What a passing run of src/fpstate-legacy-32.cpp says of the frames of its handlers.
use signal_tests.Base.{ℕ, ◌+◌, ◌≡◌, refl, ◌≢◌, true, [], arith, ◌==◌, pos, ◌=ℤ=◌, get_or, All}
use signal_tests.Program.{assert, for, Kernel, World, finished, run, start, Passes}
use signal_tests.Program.Bind.{
  IsReader, IsQuiet, IsReader-bind, IsReader-assert, IsReader-guard, IsReader-for,
}
use signal_tests.Program.Witness.{IsChecked, passing_witness, Sees, Sees-assert, Sees-check}
use signal_tests.System
use signal_tests.System.{Frame}
use signal_tests.Frames.FpstateLegacy.{Globals, initial, signal_handler, main}

-- What the assertions of the handler ask of its arguments.
abbrev pub IsExpected : Frame → Type 0
IsExpected f =
    (f.sig ≡ System.sigusr1)
    × (f.ctx.fpstate ≢ 0)
    × (f.ctx.oldmask ≡ System.bit_of System.sigurg)
    × (f.ctx.cs ≡ 0x23)
    × (get_or f.ctx.fp.xmm 0 0 ≡ 0xdead0000 + 0)
    × (get_or f.ctx.fp.xmm 1 0 ≡ 0xdead0000 + 1)
    × (get_or f.ctx.fp.xmm 2 0 ≡ 0xdead0000 + 2)
    × (get_or f.ctx.fp.xmm 3 0 ≡ 0xdead0000 + 3)
    × (get_or f.ctx.fp.xmm 4 0 ≡ 0xdead0000 + 4)
    × (get_or f.ctx.fp.xmm 5 0 ≡ 0xdead0000 + 5)
    × (get_or f.ctx.fp.xmm 6 0 ≡ 0xdead0000 + 6)
    × (get_or f.ctx.fp.xmm 7 0 ≡ 0xdead0000 + 7)
    × (f.ctx.fp.magic ≡ 0)

signal_handler-IsChecked : IsChecked IsExpected signal_handler
unfolding signal_handler
signal_handler-IsChecked f g = ground arith

signal_handler-IsQuiet : (f : Frame) → IsQuiet (signal_handler f)
unfolding signal_handler
signal_handler-IsQuiet f = ground arith

main-IsReader : IsReader (main System.i386)
unfolding main
main-IsReader = λ r. IsReader-assert (r.result =ℤ= pos 0) _ λ q.
    IsReader-assert (q.result =ℤ= pos 0) _ λ _ _ w g. IsReader-assert g.handler_ran _ (
      IsReader-bind (for 0 8 (λ i. assert (get_or w.words i 0 == 0xf00d0000 + i))) _
        (IsReader-for 0 8 _ (λ i. IsReader-guard Globals (get_or w.words i 0 == 0xf00d0000 + i)))
        (λ _. tt))

main-Sees : Sees (λ g. g.handler_ran ≡ true) (main System.i386)
unfolding main
main-Sees = λ r.
    Sees-assert _ (r.result =ℤ= pos 0) _
      λ q. Sees-assert _ (q.result =ℤ= pos 0) _ λ _ _ _ g. Sees-check _ g g.handler_ran _ λ e. e

-- The test built for i386: whatever the kernel does, a run that passes has started a handler, and in each frame whose handler
-- it has started the mask and the registers are those of the program.
pub fpstate_legacy_frames :
    (kern : Kernel) (fuel : ℕ) (s : kern.State)
    → Passes kern fuel signal_handler (main System.i386) s initial
    → (w : World kern.State Globals) × (run kern fuel signal_handler
          (main System.i386)
          (start s initial)
        ≡ finished 0 w)
      × (w.served ≢ [])
      × All IsExpected w.served
fpstate_legacy_frames kern fuel s passes =
    passing_witness IsExpected signal_handler signal_handler-IsChecked (λ g. g.handler_ran) kern
      fuel (main System.i386) s initial signal_handler-IsQuiet main-IsReader main-Sees refl passes
