-- ===== src/Frames/FpstateX87/Verdict.antt =====
-- What a passing run of src/fpstate-x87-32.cpp says of the frames of its handlers.
use signal_tests.Base.{
  ℕ, ◌/◌, ◌^◌, ◌≡◌, refl, ◌≢◌, true, List, [], ◌∷◌, arith, ◌==◌, pos, ◌=ℤ=◌, All,
}
use signal_tests.Program.{pure, Kernel, World, finished, run, start, Passes}
use signal_tests.Program.Bind.{IsReader, IsQuiet, IsReader-assert}
use signal_tests.Program.Witness.{IsChecked, passing_witness, Sees, Sees-assert, Sees-check}
use signal_tests.System
use signal_tests.System.{Frame}
use signal_tests.Frames.FpstateX87.{
  Globals, initial, signal_handler, main, st0_in, st0_new, same_bytes,
}

-- What the assertions of the handler ask of its arguments.
abbrev pub IsExpected : Frame → Type 0
IsExpected f =
    (f.ctx.fp.cw ≡ 0xffff037f)
    × (f.ctx.fp.sw / 2 ^ 16 ≡ 0xffff)
    × (f.ctx.fp.tag / 2 ^ 16 ≡ 0xffff)
    × (f.ctx.fp.st ≡ st0_in)

same_bytes-eq : (xs ys : List ℕ) → same_bytes xs ys ≡ true → xs ≡ ys
same_bytes-eq [] [] e = refl
same_bytes-eq [] (y ∷ ys) e = cc
same_bytes-eq (x ∷ xs) [] e = cc
same_bytes-eq (x ∷ xs) (y ∷ ys) e = ground (arith, same_bytes-eq xs ys)

signal_handler-IsChecked : IsChecked IsExpected signal_handler
unfolding signal_handler
signal_handler-IsChecked f g = ground (arith, same_bytes-eq f.ctx.fp.st st0_in)

signal_handler-IsQuiet : (f : Frame) → IsQuiet (signal_handler f)
unfolding signal_handler
signal_handler-IsQuiet f = ground arith

main-IsReader : IsReader (main System.i386)
unfolding main
main-IsReader = λ r. IsReader-assert (r.result =ℤ= pos 0) _ λ _ _ _ _ g.
    IsReader-assert g.handler_ran _ λ c.
      IsReader-assert (c.address == 0x027f) _
        λ o. IsReader-assert (same_bytes o.words st0_new) (pure {A = ℕ} 0) tt

main-Sees : Sees (λ g. g.handler_ran ≡ true) (main System.i386)
unfolding main
main-Sees =
    λ r. Sees-assert _ (r.result =ℤ= pos 0) _ λ _ _ _ _ g. Sees-check _ g g.handler_ran _ λ e. e

-- The test built for i386: whatever the kernel does, a run that passes has started a handler, and in each frame whose handler
-- it has started the words and `st0` are those of the program.
pub fpstate_x87_frames :
    (kern : Kernel) (fuel : ℕ) (s : kern.State)
    → Passes kern fuel signal_handler (main System.i386) s initial
    → (w : World kern.State Globals) × (run kern fuel signal_handler
          (main System.i386)
          (start s initial)
        ≡ finished 0 w)
      × (w.served ≢ [])
      × All IsExpected w.served
fpstate_x87_frames kern fuel s passes =
    passing_witness IsExpected signal_handler signal_handler-IsChecked (λ g. g.handler_ran) kern
      fuel (main System.i386) s initial signal_handler-IsQuiet main-IsReader main-Sees refl passes
