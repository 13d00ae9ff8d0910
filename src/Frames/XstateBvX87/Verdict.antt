-- ===== src/Frames/XstateBvX87/Verdict.antt =====
-- What a passing run of src/xstate-bv-x87.cpp says of the frames of its handlers.
use signal_tests.Base.{ℕ, bit_and, ◌≡◌, refl, ◌≢◌, true, [], arith, ◌==◌, pos, ◌=ℤ=◌, get_or, All}
use signal_tests.Program.{pure, Kernel, World, finished, run, start, Passes}
use signal_tests.Program.Bind.{IsReader, IsQuiet, IsReader-assert}
use signal_tests.Program.Witness.{IsChecked, passing_witness, Sees, Sees-assert, Sees-check}
use signal_tests.System.{Frame}
use signal_tests.Frames.XstateBvX87.{Globals, initial, signal_handler, main, component}

-- What the assertions of the handler ask of its arguments.
abbrev pub IsExpected : Frame → Type 0
IsExpected f = bit_and f.ctx.xstate_bv component ≢ 0

signal_handler-IsChecked : IsChecked IsExpected signal_handler
unfolding signal_handler
signal_handler-IsChecked f g = ground arith

signal_handler-IsQuiet : (f : Frame) → IsQuiet (signal_handler f)
unfolding signal_handler
signal_handler-IsQuiet f = ground arith

main-IsReader : IsReader main
unfolding main
main-IsReader = λ r. IsReader-assert (r.result =ℤ= pos 0) _ λ _ _ _ _ v g.
    IsReader-assert g.handler_ran _ (
      IsReader-assert (bit_and (get_or v.words 0 0) 0xffff == 0x037f) _ (
        IsReader-assert (bit_and (get_or v.words 1 0) 0xffff == 0) _
          (IsReader-assert (bit_and (get_or v.words 2 0) 0xffff == 0xffff) (pure {A = ℕ} 0) tt)))

main-Sees : Sees (λ g. g.handler_ran ≡ true) main
unfolding main
main-Sees =
    λ r. Sees-assert _ (r.result =ℤ= pos 0) _ λ _ _ _ _ _ g. Sees-check _ g g.handler_ran _ λ e. e

-- Whatever the kernel does, a run that passes has started a handler, and in each frame whose handler
-- it has started the component is there.
pub xstate_bv_x87_frames :
    (kern : Kernel) (fuel : ℕ) (s : kern.State)
    → Passes kern fuel signal_handler main s initial
    → (w : World kern.State Globals) × (run kern fuel signal_handler main (start s initial)
        ≡ finished 0 w)
      × (w.served ≢ [])
      × All IsExpected w.served
xstate_bv_x87_frames kern fuel s passes =
    passing_witness IsExpected signal_handler signal_handler-IsChecked (λ g. g.handler_ran) kern
      fuel main s initial signal_handler-IsQuiet main-IsReader main-Sees refl passes
