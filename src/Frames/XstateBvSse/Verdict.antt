-- ===== src/Frames/XstateBvSse/Verdict.antt =====
-- What a passing run of src/xstate-bv-sse.cpp says of the frames of its handlers.
use signal_tests.Base.{ℕ, bit_and, ◌≡◌, refl, ◌≢◌, true, [], arith, ◌==◌, pos, ◌=ℤ=◌, get_or, All}
use signal_tests.Program.{assert, for, Kernel, World, finished, run, start, Passes}
use signal_tests.Program.Bind.{
  IsReader, IsQuiet, IsReader-bind, IsReader-assert, IsReader-guard, IsReader-for,
}
use signal_tests.Program.Witness.{IsChecked, passing_witness, Sees, Sees-assert, Sees-check}
use signal_tests.System.{Frame}
use signal_tests.Frames.XstateBvSse.{Globals, initial, signal_handler, main, component}

-- What the assertions of the handler ask of its arguments.
abbrev pub IsExpected : Frame → Type 0
IsExpected f = bit_and f.ctx.xstate_bv component ≢ 0

signal_handler-IsChecked : IsChecked IsExpected signal_handler
unfolding signal_handler
signal_handler-IsChecked f g = ground arith

signal_handler-IsQuiet : (f : Frame) → IsQuiet (signal_handler f)
unfolding signal_handler
signal_handler-IsQuiet f = ground arith

main-IsReader : IsReader main
unfolding main
main-IsReader = λ r. IsReader-assert (r.result =ℤ= pos 0) _ λ _ _ w g.
    IsReader-assert g.handler_ran _ (
      IsReader-bind (for 0 4 (λ i. assert (get_or w.words i 0 == 0))) _
        (IsReader-for 0 4 _ (λ i. IsReader-guard Globals (get_or w.words i 0 == 0))) (λ _. tt))

main-Sees : Sees (λ g. g.handler_ran ≡ true) main
unfolding main
main-Sees =
    λ r. Sees-assert _ (r.result =ℤ= pos 0) _ λ _ _ _ g. Sees-check _ g g.handler_ran _ λ e. e

-- Whatever the kernel does, a run that passes has started a handler, and in each frame whose handler
-- it has started the component is there.
pub xstate_bv_sse_frames :
    (kern : Kernel) (fuel : ℕ) (s : kern.State)
    → Passes kern fuel signal_handler main s initial
    → (w : World kern.State Globals) × (run kern fuel signal_handler main (start s initial)
        ≡ finished 0 w)
      × (w.served ≢ [])
      × All IsExpected w.served
xstate_bv_sse_frames kern fuel s passes =
    passing_witness IsExpected signal_handler signal_handler-IsChecked (λ g. g.handler_ran) kern
      fuel main s initial signal_handler-IsQuiet main-IsReader main-Sees refl passes
